-- ===== src/BufferHelper/RoundTrip.antt =====
-- The words of buffer_helper.c as runs of bytes, and reading back what was written.
use deconz_lib.Base.{
  ℕ, zero, suc, ◌+◌, ◌*◌, ◌/◌, ◌%◌, ◌^◌, ◌≤◌, ◌<◌, bit_and, ◌≡◌, sym, ap, ◌∙◌, ◌⊎◌, inl, inr, List,
  arith, u16, u32, u64, length, store, get_or-set_self, get_or-set_ne, get_or-store_lt,
  get_or-store_ge, Reads, Reads-store, fields_or, bit_and_ones,
}
use deconz_lib.Base.Shift.{bytes_le}
use deconz_lib.BufferHelper.{
  Put, Get, at, put_u8_le, put_u16_le, put_u32_le, put_u64_le, get_u8_le, get_u16_le, get_u32_le,
  get_u64_le,
}
use deconz_lib.Base.{and_digit}
use native.Mathlib.Nat.{pow-suc, div-div-eq-div-mul}

-- `(v & (0xff << k)) >> k` is the byte at bit `k`.
masked_byte : (k v : ℕ) → bit_and v (255 * 2 ^ k) / 2 ^ k ≡ v / 2 ^ k % 256
masked_byte zero v = ground (arith, bit_and_ones 8 v)
masked_byte (suc k) v =
    halve (bit_and v (255 * 2 ^ suc k))
    ∙ ap (λ t. t / 2 ^ k) low
    ∙ masked_byte k (v / 2)
    ∙ ap (λ t. t % 256) (sym (halve v))
  where
    halve : (x : ℕ) → x / 2 ^ suc k ≡ x / 2 / 2 ^ k
    halve x = ap (λ t. x / t) two_times ∙ sym (div-div-eq-div-mul x 2 (2 ^ k))
      where
        two_times : 2 ^ suc k ≡ 2 * 2 ^ k
        two_times = omega (arith, pow-suc 2 k)

    low : bit_and v (255 * 2 ^ suc k) / 2 ≡ bit_and (v / 2) (255 * 2 ^ k)
    low =
        ground
          (arith, and_digit v (255 * 2 ^ suc k), pow-suc 2 k, ap (λ (t : ℕ). 255 * t) (pow-suc 2 k))

-- Each put is a run of the word's bytes, least significant first.
pub put_u16_le-store : (m : List ℕ) (p v : ℕ) → put_u16_le m p v ≡ (store m p (bytes_le 2 v), p + 2)
unfolding put_u16_le
put_u16_le-store m p v = ground (arith, bit_and_ones 8 v, masked_byte 8 v)

pub put_u32_le-store : (m : List ℕ) (p v : ℕ) → put_u32_le m p v ≡ (store m p (bytes_le 4 v), p + 4)
unfolding put_u32_le
put_u32_le-store m p v =
    ground (arith, masked_byte 0 v, masked_byte 8 v, masked_byte 16 v, masked_byte 24 v)

pub put_u64_le-store : (m : List ℕ) (p v : ℕ) → put_u64_le m p v ≡ (store m p (bytes_le 8 v), p + 8)
unfolding put_u64_le
put_u64_le-store m p v = ground (
  arith,
  masked_byte 0 v,
  masked_byte 8 v,
  masked_byte 16 v,
  masked_byte 24 v,
  masked_byte 32 v,
  masked_byte 40 v,
  masked_byte 48 v,
  masked_byte 56 v,
)

module _ (m : List ℕ) (p v : ℕ) where
  get_u16_le-Reads : Reads m p (bytes_le 2 v) → get_u16_le m p ≡ (u16 v, p + 2)
  unfolding get_u16_le
  get_u16_le-Reads s = ground (arith, fields_or 8 (v % 256) (v / 256 % 256))

  get_u32_le-Reads : Reads m p (bytes_le 4 v) → get_u32_le m p ≡ (u32 v, p + 4)
  unfolding get_u32_le
  get_u32_le-Reads s = ground (
    arith,
    fields_or 8 (v % 256) (v / 256 % 256),
    fields_or 16 (v % 2 ^ 16) (v / 256 / 256 % 256),
    fields_or 24 (v % 2 ^ 24) (v / 256 / 256 / 256 % 256),
  )

  get_u64_le-Reads : Reads m p (bytes_le 8 v) → get_u64_le m p ≡ (u64 v, p + 8)
  unfolding get_u64_le
  get_u64_le-Reads s = ground (
    arith,
    fields_or 8 (v % 256) (v / 256 % 256),
    fields_or 16 (v % 2 ^ 16) (v / 2 ^ 16 % 256),
    fields_or 24 (v % 2 ^ 24) (v / 2 ^ 24 % 256),
    fields_or 32 (v % 2 ^ 32) (v / 2 ^ 32 % 256),
    fields_or 40 (v % 2 ^ 40) (v / 2 ^ 40 % 256),
    fields_or 48 (v % 2 ^ 48) (v / 2 ^ 48 % 256),
    fields_or 56 (v % 2 ^ 56) (v / 2 ^ 56 % 256),
  )

-- The four widths of the file.
pub data Width : Type 0 where
  one two four eight : Width

abbrev pub size : Width → ℕ
size one = 1
size two = 2
size four = 4
size eight = 8

unfoldable pub put : Width → Put
put one = put_u8_le
put two = put_u16_le
put four = put_u32_le
put eight = put_u64_le

unfoldable pub get : Width → Get
get one = get_u8_le
get two = get_u16_le
get four = get_u32_le
get eight = get_u64_le

-- At every width, a value that fits the width and is written where the memory has room for it is
-- read back from there, and the get stops where the put did.
pub get-put :
    (w : Width) (m : List ℕ) (p v : ℕ)
    → v < 2 ^ (8 * size w)
    → p + size w ≤ length m
    → get w (put w m p v).0 p ≡ (v, (put w m p v).1)
unfolding get put
get-put one m p v h room = unfold put_u8_le get_u8_le in ground (arith, get_or-set_self m p v 0)
get-put two m p v h room =
    rw (put_u16_le-store m p v)
      (get_u16_le-Reads _ p v (Reads-store (bytes_le 2 v) m p room) ∙ ground arith)
get-put four m p v h room =
    rw (put_u32_le-store m p v)
      (get_u32_le-Reads _ p v (Reads-store (bytes_le 4 v) m p room) ∙ ground arith)
get-put eight m p v h room =
    rw (put_u64_le-store m p v)
      (get_u64_le-Reads _ p v (Reads-store (bytes_le 8 v) m p room) ∙ ground arith)

-- A put at any width changes no byte outside the ones that it is to write.
put-outside :
    (w : Width) (m : List ℕ) (p v j : ℕ)
    → (j < p) ⊎ (p + size w ≤ j)
    → at (put w m p v).0 j ≡ at m j
unfolding put
put-outside one m p v j h = unfold put_u8_le in get_or-set_ne m p j v 0 (λ e. omega arith)
put-outside two m p v j (inl h) =
    rw (put_u16_le-store m p v) (get_or-store_lt (bytes_le 2 v) m p j 0 h)
put-outside two m p v j (inr h) =
    rw (put_u16_le-store m p v) (get_or-store_ge (bytes_le 2 v) m p j 0 h)
put-outside four m p v j (inl h) =
    rw (put_u32_le-store m p v) (get_or-store_lt (bytes_le 4 v) m p j 0 h)
put-outside four m p v j (inr h) =
    rw (put_u32_le-store m p v) (get_or-store_ge (bytes_le 4 v) m p j 0 h)
put-outside eight m p v j (inl h) =
    rw (put_u64_le-store m p v) (get_or-store_lt (bytes_le 8 v) m p j 0 h)
put-outside eight m p v j (inr h) =
    rw (put_u64_le-store m p v) (get_or-store_ge (bytes_le 8 v) m p j 0 h)
