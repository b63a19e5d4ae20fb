-- ===== src/Base/Text.antt =====
-- C strings, character classes and hexadecimal digits.
use deconz_lib.Base.{
  ℕ, zero, suc, ◌+◌, ◌-◌, ◌<◌, ◌≡◌, refl, ap, Bool, true, false, ◌&&◌, Option, none, some, List, [],
  ◌∷◌, arith, leb, ◌==◌, if◌then◌else◌, ==→eq, length, get_or, All,
}

-- The length of the C string in `s`, which a NUL ends if no byte of `s` is one.
unfoldable pub strlen : List ℕ → ℕ
strlen [] = 0
strlen (c ∷ s) = let n = strlen s in if c == 0 then 0 else suc n

abbrev pub IsChar : ℕ → Type 0
IsChar c = 0 < c

pub strlen-length : (s : List ℕ) → All IsChar s → strlen s ≡ length s
unfolding strlen
strlen-length [] h = refl
strlen-length (c ∷ s) (h, hs) = ground (arith, strlen-length s hs)

-- `c >= '0' && c <= '9'`: a byte of 128 or more is no digit, whether `char` is signed or not.
abbrev pub is_digit : ℕ → Bool
is_digit c = leb b'0' c && leb c b'9'

-- The table of `U_sstream_put_hex`.
abbrev pub hex_table_upper : List ℕ
hex_table_upper =
    b'0' ∷ b'1' ∷ b'2' ∷ b'3' ∷ b'4' ∷ b'5' ∷ b'6' ∷ b'7' ∷ b'8' ∷ b'9' ∷ b'A' ∷ b'B' ∷ b'C' ∷ b'D'
    ∷ b'E' ∷ b'F' ∷ []

-- The table of `U_sstream_put_mac_address`.
abbrev pub hex_table_lower : List ℕ
hex_table_lower =
    b'0' ∷ b'1' ∷ b'2' ∷ b'3' ∷ b'4' ∷ b'5' ∷ b'6' ∷ b'7' ∷ b'8' ∷ b'9' ∷ b'a' ∷ b'b' ∷ b'c' ∷ b'd'
    ∷ b'e' ∷ b'f' ∷ []

-- The ladder that reads a hexadecimal digit; `none` where no branch takes the character.
unfoldable pub hex_value : ℕ → Option ℕ
hex_value c =
    if is_digit c
    then some (c - b'0')
    else if leb b'a' c && leb c b'f'
    then some (c - b'a' + 10)
    else if leb b'A' c && leb c b'F'
    then some (c - b'A' + 10)
    else none

-- A Boolean test that holds below a bound, checked by evaluation.
unfoldable pub all_below : ℕ → (ℕ → Bool) → Bool
all_below zero p = true
all_below (suc n) p = p n && all_below n p

pub all_below→ : (n : ℕ) (p : ℕ → Bool) (x : ℕ) → all_below n p ≡ true → x < n → p x ≡ true
unfolding all_below
all_below→ zero p x h lt = absurd (omega arith)
all_below→ (suc n) p x h lt = ground (arith, all_below→ n p x)

abbrev is_value : ℕ → Option ℕ → Bool
is_value d none = false
is_value d (some v) = v == d

is_value→eq : (d : ℕ) (o : Option ℕ) → is_value d o ≡ true → o ≡ some d
is_value→eq d none h = cc
is_value→eq d (some v) h = ap some (==→eq v d h)

upper_table : all_below 16 (λ d. is_value d (hex_value (get_or hex_table_upper d 0))) ≡ true
unfolding all_below hex_value
upper_table = refl

lower_table : all_below 16 (λ d. is_value d (hex_value (get_or hex_table_lower d 0))) ≡ true
unfolding all_below hex_value
lower_table = refl

-- The ladder reads back the digits of both tables.
pub hex_value-upper : (d : ℕ) → d < 16 → hex_value (get_or hex_table_upper d 0) ≡ some d
hex_value-upper d h =
    is_value→eq d _
      (all_below→ 16 (λ d. is_value d (hex_value (get_or hex_table_upper d 0))) d upper_table h)

pub hex_value-lower : (d : ℕ) → d < 16 → hex_value (get_or hex_table_lower d 0) ≡ some d
hex_value-lower d h =
    is_value→eq d _
      (all_below→ 16 (λ d. is_value d (hex_value (get_or hex_table_lower d 0))) d lower_table h)
