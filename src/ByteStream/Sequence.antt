-- ===== src/ByteStream/Sequence.antt =====
-- Records written by a sequence of puts and read back by the gets of the same kinds.
pub mod RoundTrip
use deconz_lib.Base.{ℕ, ◌+◌, ◌/◌, ◌%◌, ◌^◌, ◌≤◌, ◌<◌, ◌≡◌, List, [], ◌∷◌, ◌++◌, arith, length}
use deconz_lib.Base.Int.{ℤ, to_bits, InRange, of_bits-to_bits_16, of_bits-to_bits_32, to_bits-trunc}
use deconz_lib.Base.Shift.{bytes_le}
use deconz_lib.ByteStream.{
  Bstream, put_u8, put_u16_le, put_u32_le, put_s16_le, put_s32_le, get_u8, get_u16_le, get_u32_le,
  get_s16_le, get_s32_le,
}
use deconz_lib.ByteStream.Access.{
  IsOpen, emit, At, put_u8-emit, put_u16_le-emit, put_u32_le-emit, get_u8-fetch, get_u16_le-fetch,
  get_u32_le-fetch,
}

-- A value of one of the stream's types.
pub data Item : Type 0 where
  byte : ℕ → Item
  half : ℕ → Item
  signed_half : ℤ → Item
  word : ℕ → Item
  signed_word : ℤ → Item

pub data Kind : Type 0 where
  byte_kind half_kind signed_half_kind word_kind signed_word_kind : Kind

abbrev pub kind : Item → Kind
kind (byte _) = byte_kind
kind (half _) = half_kind
kind (signed_half _) = signed_half_kind
kind (word _) = word_kind
kind (signed_word _) = signed_word_kind

abbrev pub IsItem : Item → Type 0
IsItem (byte v) = v < 2 ^ 8
IsItem (half v) = v < 2 ^ 16
IsItem (signed_half z) = InRange 15 z
IsItem (word v) = v < 2 ^ 32
IsItem (signed_word z) = InRange 31 z

-- The bytes of an item.
abbrev pub bytes : Item → List ℕ
bytes (byte v) = v ∷ []
bytes (half v) = bytes_le 2 v
bytes (signed_half z) = bytes_le 2 (to_bits 16 z)
bytes (word v) = bytes_le 4 v
bytes (signed_word z) = bytes_le 4 (to_bits 64 z)

abbrev pub all_bytes : List Item → List ℕ
all_bytes [] = []
all_bytes (x ∷ xs) = bytes x ++ all_bytes xs

pub put_item : Item → Bstream → Bstream
put_item (byte v) bs = put_u8 v bs
put_item (half v) bs = put_u16_le v bs
put_item (signed_half z) bs = put_s16_le z bs
put_item (word v) bs = put_u32_le v bs
put_item (signed_word z) bs = put_s32_le z bs

pub get_item : Kind → Bstream → Item × Bstream
get_item byte_kind bs = let (v, bs') = get_u8 bs in (byte v, bs')
get_item half_kind bs = let (v, bs') = get_u16_le bs in (half v, bs')
get_item signed_half_kind bs = let (z, bs') = get_s16_le bs in (signed_half z, bs')
get_item word_kind bs = let (v, bs') = get_u32_le bs in (word v, bs')
get_item signed_word_kind bs = let (z, bs') = get_s32_le bs in (signed_word z, bs')

pub put_items : List Item → Bstream → Bstream
put_items [] bs = bs
put_items (x ∷ xs) bs = put_items xs (put_item x bs)

pub get_items : List Kind → Bstream → List Item × Bstream
get_items [] bs = ([], bs)
get_items (k ∷ ks) bs =
    let (x, bs') = get_item k bs in let (xs, bs'') = get_items ks bs' in (x ∷ xs, bs'')

put_item-emit :
    (x : Item) {m : List ℕ} {bs : Bstream} → IsOpen m bs → put_item x bs ≡ emit m (bytes x) bs
unfolding put_item put_s16_le put_s32_le
put_item-emit (byte v) o = put_u8-emit v o
put_item-emit (half v) o = put_u16_le-emit v o
put_item-emit (signed_half z) o = put_u16_le-emit (to_bits 16 z) o
put_item-emit (word v) o = put_u32_le-emit v o
put_item-emit (signed_word z) o = put_u32_le-emit (to_bits 64 z) o

-- An item whose bytes stand at the cursor of an open stream is read back whole.
get_item-kind :
    (x : Item) {m : List ℕ} {bs : Bstream}
    → IsOpen m bs
    → IsItem x
    → At m bs.pos (bytes x)
    → bs.pos + length (bytes x) ≤ bs.size
    → get_item (kind x) bs ≡ (x, record bs { pos = bs.pos + length (bytes x) })
unfolding get_item get_s16_le get_s32_le
get_item-kind (byte v) o i a room = ground (arith, get_u8-fetch v o a)
get_item-kind (half v) o i a room = ground (arith, get_u16_le-fetch (v % 256) (v / 256 % 256) o a)
get_item-kind (signed_half z) o i a room =
    let v = to_bits 16 z in
    ground (arith, of_bits-to_bits_16 z i, get_u16_le-fetch (v % 256) (v / 256 % 256) o a)
get_item-kind (word v) o i a room = ground (
  arith,
  get_u32_le-fetch (v % 256) (v / 256 % 256) (v / 256 / 256 % 256) (v / 256 / 256 / 256 % 256) o a,
)
get_item-kind (signed_word z) o i a room =
    let v = to_bits 64 z in
    ground (
      arith,
      of_bits-to_bits_32 z i,
      to_bits-trunc z,
      get_u32_le-fetch (v % 256) (v / 256 % 256) (v / 256 / 256 % 256) (v / 256 / 256 / 256 % 256) o
          a,
    )
