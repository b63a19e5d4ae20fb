-- ===== src/Base/Shift.antt =====
-- Words as bytes, least significant first, and the shifts and masks that make one from the other.
use deconz_lib.Base.{
  u64, ◌<<◌, ◌<◌, ℕ, zero, suc, ◌+◌, ◌*◌, ◌/◌, ◌%◌, ◌^◌, ◌≡◌, refl, List, [], ◌∷◌, bit_or, bit_and,
  IsByte, ◌>>◌, or_fields, bit_and_ones, arith, length,
}

-- The `n` low bytes of `v`.
abbrev pub bytes_le : ℕ → ℕ → List ℕ
bytes_le zero v = []
bytes_le (suc n) v = (v % 256) ∷ bytes_le n (v / 256)

-- The number that such bytes stand for.
abbrev pub value_le : List ℕ → ℕ
value_le [] = 0
value_le (b ∷ bs) = b + 256 * value_le bs

pub length-bytes_le : (n v : ℕ) → length (bytes_le n v) ≡ n
length-bytes_le zero v = refl
length-bytes_le (suc n) v = omega (arith, length-bytes_le n (v / 256))

pub low_byte : (v k : ℕ) → bit_and (v >> k) 0xff ≡ v / 2 ^ k % 256
low_byte v k = bit_and_ones 8 (v / 2 ^ k)

-- `(x << 8) | b` on a word that does not lose its top byte.
pub or_byte : (x b : ℕ) → IsByte b → bit_or (x * 2 ^ 8) b ≡ x * 256 + b
or_byte x b h = or_fields 8 x b h

pub value_le-bytes_le_4 : (v : ℕ) → value_le (bytes_le 4 v) ≡ v % 2 ^ 32
value_le-bytes_le_4 v = omega arith

pub value_le-bytes_le_2 : (v : ℕ) → value_le (bytes_le 2 v) ≡ v % 2 ^ 16
value_le-bytes_le_2 v = omega arith

-- `result <<= 8; result |= b;` on `unsigned long`, while the word has room.
unfoldable pub shift_in : ℕ → ℕ → ℕ
shift_in b result = bit_or (u64 (result << 8)) b

shift_in_lem : (b r : ℕ) → IsByte b → r < 2 ^ 48 → shift_in b r ≡ b + 256 * r
unfolding shift_in
shift_in_lem b r h fits = ground (arith, or_byte r b)

pub shift_in_four :
    (b c d e : ℕ)
    → IsByte b
    → IsByte c
    → IsByte d
    → IsByte e
    → shift_in b (shift_in c (shift_in d e)) ≡ value_le (b ∷ c ∷ d ∷ e ∷ [])
shift_in_four b c d e hb hc hd he = ground (
  arith,
  shift_in_lem d e,
  shift_in_lem c (shift_in d e),
  shift_in_lem b (shift_in c (shift_in d e)),
)
