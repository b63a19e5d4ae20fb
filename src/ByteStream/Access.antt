-- ===== src/ByteStream/Access.antt =====
-- Each put and get of the stream as one run of bytes at the cursor.
use deconz_lib.Base.{
  ℕ, suc, ◌+◌, ◌^◌, ◌≤◌, ◌<◌, ◌≡◌, some, List, [], ◌∷◌, IsByte, arith, length, get_or, store, ltb,
  if◌then◌else◌,
}
use deconz_lib.ByteStream.{
  Bstream, ok, write_past_end, read_past_end, verify, put_u8, put_u16_le, put_u32_le, get_u8,
  get_u16_le, get_u16_be, get_u32_le, get_u32_be,
}
use deconz_lib.Base.Shift.{bytes_le, value_le, low_byte, or_byte, shift_in_four}

-- A stream over `m` that has met no error. An object of C is smaller than 2^63 bytes.
pub record IsOpen (m : List ℕ) (bs : Bstream) : Type 0 where
  pub over : bs.buf ≡ some m
  pub fine : bs.status ≡ ok
  pub fits : bs.size ≤ length m
  pub small : bs.size < 2 ^ 63
  pub within : bs.pos ≤ bs.size

-- What a put of these bytes is: all of them at the cursor, or the error and nothing else.
abbrev pub emit : List ℕ → List ℕ → Bstream → Bstream
emit m bytes bs =
    if ltb bs.size (bs.pos + length bytes)
    then record bs { status = write_past_end }
    else record bs { buf = some (store m bs.pos bytes); pos = bs.pos + length bytes }

-- What a get of `n` bytes is, with `v` read from them: the cursor moves, or the error and 0.
abbrev pub fetch : ℕ → ℕ → Bstream → ℕ × Bstream
fetch n v bs =
    if ltb bs.size (bs.pos + n)
    then (0, record bs { status = read_past_end })
    else (v, record bs { pos = bs.pos + n })

-- On an open stream `U_bstream_put_u8` writes one byte.
pub put_u8-emit :
    (v : ℕ) {m : List ℕ} {bs : Bstream} → IsOpen m bs → put_u8 v bs ≡ emit m (v ∷ []) bs
unfolding put_u8 verify
put_u8-emit v o = ground arith

pub put_u16_le-emit :
    (v : ℕ) {m : List ℕ} {bs : Bstream} → IsOpen m bs → put_u16_le v bs ≡ emit m (bytes_le 2 v) bs
unfolding put_u16_le verify
put_u16_le-emit v o = ground (arith, low_byte v 0, low_byte v 8)

-- On an open stream `U_bstream_put_u32_le` writes the four bytes of the word, the least significant
-- first, or refuses for lack of room.
pub put_u32_le-emit :
    (v : ℕ) {m : List ℕ} {bs : Bstream} → IsOpen m bs → put_u32_le v bs ≡ emit m (bytes_le 4 v) bs
unfolding put_u32_le verify
put_u32_le-emit v o = ground (arith, low_byte v 0, low_byte v 8, low_byte v 16, low_byte v 24)

-- The bytes `bytes` stand in `m` from index `p` on.
abbrev pub At : List ℕ → ℕ → List ℕ → Type 0
At m p [] = Unit {0}
At m p (b ∷ bs) = (get_or m p 0 ≡ b) × IsByte b × At m (suc p) bs

pub get_u8-fetch :
    (b : ℕ) {m : List ℕ} {bs : Bstream}
    → IsOpen m bs
    → At m bs.pos (b ∷ [])
    → get_u8 bs ≡ fetch 1 b bs
unfolding get_u8 verify
get_u8-fetch b o a = ground arith

pub get_u16_le-fetch :
    (b c : ℕ) {m : List ℕ} {bs : Bstream}
    → IsOpen m bs
    → At m bs.pos (b ∷ c ∷ [])
    → get_u16_le bs ≡ fetch 2 (value_le (b ∷ c ∷ [])) bs
unfolding get_u16_le verify
get_u16_le-fetch b c o a = ground (arith, or_byte c b)

pub get_u16_be-fetch :
    (b c : ℕ) {m : List ℕ} {bs : Bstream}
    → IsOpen m bs
    → At m bs.pos (b ∷ c ∷ [])
    → get_u16_be bs ≡ fetch 2 (value_le (c ∷ b ∷ [])) bs
unfolding get_u16_be verify
get_u16_be-fetch b c o a = ground (arith, or_byte b c)

module _ (b c d e : ℕ) {m : List ℕ} {bs : Bstream} (o : IsOpen m bs) where
  pub get_u32_le-fetch :
      At m bs.pos (b ∷ c ∷ d ∷ e ∷ []) → get_u32_le bs ≡ fetch 4 (value_le (b ∷ c ∷ d ∷ e ∷ [])) bs
  unfolding get_u32_le verify
  get_u32_le-fetch a = ground (arith, shift_in_four b c d e)

  -- On an open stream `U_bstream_get_u32_be` reads the word whose most significant byte stands at
  -- the cursor, and moves behind it.
  get_u32_be-fetch :
      At m bs.pos (b ∷ c ∷ d ∷ e ∷ []) → get_u32_be bs ≡ fetch 4 (value_le (e ∷ d ∷ c ∷ b ∷ [])) bs
  unfolding get_u32_be verify
  get_u32_be-fetch a = ground (arith, shift_in_four e d c b)
