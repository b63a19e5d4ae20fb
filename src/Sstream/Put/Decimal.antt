-- ===== src/Sstream/Put/Decimal.antt =====
-- The decimal numbers that `U_sstream_put_long` and its siblings append.
use deconz_lib.Base.{
  ℕ, zero, suc, ◌+◌, ◌-◌, ◌*◌, ◌/◌, ◌%◌, ◌^◌, ◌≤◌, ◌<◌, ◌≡◌, refl, ◌⊎◌, inl, inr, some, List, [],
  ◌∷◌, arith, ◌==◌, length, get_or, All,
}
use mathlib.Core.Path.{subst}
use native.Mathlib.Decide.{dec_lt}
use native.Mathlib.Nat.{pow-suc}
use deconz_lib.Base.Int.{ℤ, pos, negsuc}
use deconz_lib.Sstream.Put.{digits, quotient_ten, digit_ten, is_zero}

abbrev pub magnitude : ℤ → ℕ
magnitude (pos n) = n
magnitude (negsuc n) = suc n

abbrev pub IsDigit : ℕ → Type 0
IsDigit c = (b'0' ≤ c) × (c ≤ b'9')

-- The number that digits stand for, most significant first.
abbrev pub value_from : ℕ → List ℕ → ℕ
value_from n [] = n
value_from n (c ∷ cs) = value_from (n * 10 + (c - b'0')) cs

-- `cs` is the decimal numeral of `n`, with no leading zero, of `width` digits at most.
pub record IsDecimal (width n : ℕ) (cs : List ℕ) : Type 0 where
  pub some_digit : 0 < length cs
  pub digits : All IsDigit cs
  pub value : value_from 0 cs ≡ n
  pub canonical : (length cs ≡ 1) ⊎ (b'0' < get_or cs 0 0)
  pub short : length cs ≤ width

-- The same of a buffer, least significant digit first.
abbrev pub low_value : List ℕ → ℕ
low_value [] = 0
low_value (c ∷ cs) = c - b'0' + 10 * low_value cs

pub record IsBuffer (width n : ℕ) (cs : List ℕ) : Type 0 where
  pub some_digit : 0 < length cs
  pub digits : All IsDigit cs
  pub value : low_value cs ≡ n
  pub canonical : (length cs ≡ 1) ⊎ (b'0' < get_or cs (length cs - 1) 0)
  pub short : length cs ≤ width

quotient_parts : (z : ℤ) → magnitude (quotient_ten z) ≡ magnitude z / 10
quotient_parts (pos n) = refl
quotient_parts (negsuc n) = ground arith

digit_parts : (z : ℤ) → digit_ten z ≡ magnitude z % 10
digit_parts (pos n) = refl
digit_parts (negsuc n) = omega arith

is_zero_parts : (z : ℤ) → is_zero (quotient_ten z) ≡ (magnitude z / 10 == 0)
is_zero_parts (pos n) = refl
is_zero_parts (negsuc n) = ground arith

IsBuffer-one : (n : ℕ) → n < 10 → IsBuffer 1 n ((b'0' + n) ∷ [])
IsBuffer-one n h = record {
  some_digit = omega arith;
  digits = omega arith;
  value = omega arith;
  canonical = inl refl;
  short = omega arith;
}

IsBuffer-wider : (n b : ℕ) (cs : List ℕ) → IsBuffer 1 n cs → IsBuffer (suc (suc b)) n cs
IsBuffer-wider n b cs f = record {
  some_digit = f.some_digit;
  digits = f.digits;
  value = f.value;
  canonical = f.canonical;
  short = omega (arith, f.short);
}

-- The top digit of a buffer for a positive number is no zero.
top_digit : (w n : ℕ) (cs : List ℕ) → IsBuffer w n cs → 0 < n → b'0' < get_or cs (length cs - 1) 0
top_digit w n [] b h = absurd (omega (arith, b.some_digit))
top_digit w n (c ∷ []) b h = ground (arith, b.value, b.digits)
top_digit w n (c ∷ d ∷ cs) b h = ground (arith, b.canonical)

IsBuffer-cons :
    (w n : ℕ) (cs : List ℕ)
    → IsBuffer w (n / 10) cs
    → 10 ≤ n
    → IsBuffer (suc w) n ((b'0' + n % 10) ∷ cs)
IsBuffer-cons w n [] b h = absurd (omega (arith, b.some_digit))
IsBuffer-cons w n (c ∷ cs) b h = record {
  some_digit = omega arith;
  digits = (omega arith, b.digits);
  value = omega (arith, b.value);
  canonical = inr (ground (arith, top_digit w (n / 10) (c ∷ cs) b (omega arith)));
  short = omega (arith, b.short);
}

digits_last :
    (room : ℕ) (z : ℤ) → magnitude z < 10 → digits (suc room) z ≡ some ((b'0' + magnitude z) ∷ [])
unfolding digits
digits_last room z h = ground (arith, is_zero_parts z, digit_parts z)

digits_more :
    (room : ℕ) (z : ℤ) (cs : List ℕ)
    → 10 ≤ magnitude z
    → digits room (quotient_ten z) ≡ some cs
    → digits (suc room) z ≡ some ((b'0' + magnitude z % 10) ∷ cs)
unfolding digits
digits_more room z cs h e = ground (arith, is_zero_parts z, digit_parts z)

-- The loop ends within the buffer when the number has no more digits than the buffer holds.
pub digits-IsBuffer :
    (b room : ℕ) (z : ℤ)
    → magnitude z < 10 ^ suc b
    → b < room
    → (buf : List ℕ) × (digits room z ≡ some buf) × IsBuffer (suc b) (magnitude z) buf
digits-IsBuffer b zero z h r = absurd (omega arith)
digits-IsBuffer zero (suc room) z h r =
    (((b'0' + magnitude z) ∷ []), digits_last room z h, IsBuffer-one (magnitude z) h)
digits-IsBuffer (suc b) (suc room) z h r = elim (dec_lt (magnitude z) 10) [
  | yes small ↦ (
    ((b'0' + magnitude z) ∷ []),
    digits_last room z small,
    IsBuffer-wider (magnitude z) b _ (IsBuffer-one (magnitude z) small),
  )
  | no big ↦
      let (cs, e, buffer) =
        digits-IsBuffer b room (quotient_ten z)
          (omega (arith, quotient_parts z, pow-suc 10 (suc b))) (omega arith) in
      (
        ((b'0' + magnitude z % 10) ∷ cs),
        digits_more room z cs (omega arith) e,
        IsBuffer-cons (suc b) (magnitude z) cs
            (subst (λ n. IsBuffer (suc b) n cs) (quotient_parts z) buffer) (omega arith),
      )
]
