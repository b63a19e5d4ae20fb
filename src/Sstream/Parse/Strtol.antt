-- ===== src/Sstream/Parse/Strtol.antt =====
-- `U_strtol` against the number that the digits stand for.
use deconz_lib.Base.{
  ℕ, zero, suc, ◌+◌, ◌-◌, ◌*◌, ◌≤◌, ◌<◌, ◌≡◌, refl, ◌∙◌, ◌⊎◌, inl, inr, Bool, true, false, List, [],
  ◌∷◌, ◌++◌, arith, if◌then◌else◌, length, get_or, All, Reads, Reads-append,
}
use deconz_lib.Base.Int.{ℤ, pos, negsuc, InRange}
use native.Mathlib.Decide.{dec_lt}
use deconz_lib.Base.Text.{is_digit}
use deconz_lib.Sstream.Put.Decimal.{IsDigit, value_from}
use deconz_lib.Sstream.Parse.{
  failed, limit, apply_sign, convert, parse_digits, parse_sign, strtol, skip_blanks,
}

-- The digits end there: at the end of the input, or at a character that is none.
abbrev pub Ends : List ℕ → ℕ → ℕ → Type 0
Ends m s left = (left ≡ 0) ⊎ (is_digit (get_or m s 0) ≡ false)

pub le-value_from : (cs : List ℕ) (n : ℕ) → n ≤ value_from n cs
le-value_from [] n = omega arith
le-value_from (c ∷ cs) n = omega (arith, le-value_from cs (n * 10 + (c - b'0')))

convert_end :
    (negative : Bool) (m : List ℕ) (result s left : ℕ)
    → Ends m s left
    → convert negative m result s left
      ≡ record { value = apply_sign negative result; endp = s; err = 0 }
unfolding convert
convert_end negative m result s zero e = refl
convert_end negative m result s (suc left) (inl e) = absurd (omega arith)
convert_end negative m result s (suc left) (inr e) = rw e

module _ (negative : Bool) (m : List ℕ) (result s n c : ℕ) (digit : IsDigit c)
    (here : get_or m s 0 ≡ c) where
  convert_step :
      result * 10 + (c - b'0') ≤ limit negative
      → convert negative m result s (suc n)
        ≡ convert negative m (result * 10 + (c - b'0')) (s + 1) n
  unfolding convert
  convert_step fits = ground arith

  convert_over :
      limit negative < result * 10 + (c - b'0') → convert negative m result s (suc n) ≡ failed 2 s
  unfolding convert
  convert_over over = ground arith

-- Within the limit no test of the loop fails, and it reads the whole numeral.
convert_fits :
    (cs : List ℕ) (negative : Bool) (m : List ℕ) (result s left t n : ℕ)
    → All IsDigit cs
    → Reads m s cs
    → Ends m t left
    → t ≡ s + length cs
    → n ≡ length cs + left
    → value_from result cs ≤ limit negative
    → convert negative m result s n
      ≡ record { value = apply_sign negative (value_from result cs); endp = t; err = 0 }
convert_fits [] negative m result s left t n d p e ts nl fits =
    let a : n ≡ left = omega arith in
    let b : s ≡ t = omega arith in rw (a, b) (convert_end negative m result t left e)
convert_fits (c ∷ cs) negative m result s left t zero d p e ts nl fits = absurd (omega arith)
convert_fits (c ∷ cs) negative m result s left t (suc n) (dc, d) (pc, p) e ts nl fits =
    convert_step negative m result s n c dc pc
      (omega (arith, le-value_from cs (result * 10 + (c - b'0'))))
    ∙ convert_fits cs negative m (result * 10 + (c - b'0')) (s + 1) left t n d p e (omega arith)
        (omega arith) fits

-- Past the limit some test fails, at one of the digits.
convert_overflows :
    (cs : List ℕ) (negative : Bool) (m : List ℕ) (result s n : ℕ)
    → All IsDigit cs
    → Reads m s cs
    → length cs ≤ n
    → result ≤ limit negative
    → limit negative < value_from result cs
    → (t : ℕ) × (s ≤ t) × (t < s + length cs) × (convert negative m result s n ≡ failed 2 t)
convert_overflows [] negative m result s n d p l r h = absurd (omega arith)
convert_overflows (c ∷ cs) negative m result s zero d p l r h = absurd (omega arith)
convert_overflows (c ∷ cs) negative m result s (suc n) (dc, d) (pc, p) l r h =
    elim (dec_lt (limit negative) (result * 10 + (c - b'0'))) [
      | yes over ↦ (s, omega arith, omega arith, convert_over negative m result s n c dc pc over)
      | no fits ↦
          let (t, ge, lt, e) =
            convert_overflows cs negative m (result * 10 + (c - b'0')) (s + 1) n d p (omega arith)
              (omega arith) h in
          (
            t,
            omega arith,
            omega arith,
            convert_step negative m result s n c dc pc (omega arith) ∙ e,
          )
    ]

-- The integer of a magnitude and a sign.
abbrev pub signed : Bool → ℕ → ℤ
signed false n = pos n
signed true zero = pos 0
signed true (suc n) = negsuc n

signed_lem :
    (negative : Bool) (n : ℕ)
    → InRange 63 (signed negative n)
    → (n ≤ limit negative) × (apply_sign negative n ≡ signed negative n)
signed_lem false n h = (omega arith, ground arith)
signed_lem true zero h = (omega arith, refl)
signed_lem true (suc n) h = (omega arith, ground arith)

-- The sign in front of the digits.
abbrev pub sign_text : Bool → List ℕ
sign_text negative = if negative then b'-' ∷ [] else []

strtol_signed :
    (negative : Bool) (cs m : List ℕ) (s n : ℕ)
    → Reads m s (sign_text negative ++ cs)
    → All IsDigit cs
    → 0 < length cs
    → length (sign_text negative) + length cs ≤ n
    → strtol m s n
      ≡ convert negative m 0 (s + length (sign_text negative)) (n - length (sign_text negative))
unfolding strtol skip_blanks parse_sign parse_digits
strtol_signed negative [] m s n p d h l = absurd (omega arith)
strtol_signed negative (c ∷ cs) m s zero p d h l = absurd (omega arith)
strtol_signed true (c ∷ cs) m s (suc n) p d h l = ground arith
strtol_signed false (c ∷ cs) m s (suc n) p d h l = ground arith

module _ (negative : Bool) (cs m : List ℕ) (s n : ℕ)
    (spelled : Reads m s (sign_text negative ++ cs)) (digits : All IsDigit cs)
    (some_digit : 0 < length cs) (inside : length (sign_text negative) + length cs ≤ n) where
  pub strtol-apply_sign :
      Ends m
        (s + length (sign_text negative) + length cs)
        (n - length (sign_text negative) - length cs)
      → value_from 0 cs ≤ limit negative
      → strtol m s n ≡ record {
        value = apply_sign negative (value_from 0 cs);
        endp = s + length (sign_text negative) + length cs;
        err = 0;
      }
  strtol-apply_sign e fits =
      strtol_signed negative cs m s n spelled digits some_digit inside
      ∙ convert_fits cs negative m 0 (s + length (sign_text negative))
          (n - length (sign_text negative) - length cs)
          (s + length (sign_text negative) + length cs) (n - length (sign_text negative)) digits
          (Reads-append (sign_text negative) cs m s spelled).1 e refl (omega arith) fits

  -- `U_strtol` on an optional minus sign and decimal digits, followed by the end of the input or by
  -- something that is no digit, where the number that they spell is in the range of a `long`: it
  -- gives this number, below 0 with the sign, no error, and the index behind the digits.
  pub strtol_fits :
      Ends m
        (s + length (sign_text negative) + length cs)
        (n - length (sign_text negative) - length cs)
      → InRange 63 (signed negative (value_from 0 cs))
      → strtol m s n ≡ record {
        value = signed negative (value_from 0 cs);
        endp = s + length (sign_text negative) + length cs;
        err = 0;
      }
  strtol_fits e fits =
      let (low, same) = signed_lem negative (value_from 0 cs) fits in
      strtol-apply_sign e low ∙ rw same refl

  -- `U_strtol` on an optional minus sign and decimal digits whose magnitude is past the limit of the
  -- sign gives 0 with the overflow error, and an index among the sign and the digits.
  strtol_overflows :
      limit negative < value_from 0 cs
      → (t : ℕ) × (s ≤ t)
        × (t < s + length (sign_text negative) + length cs)
        × (strtol m s n ≡ failed 2 t)
  strtol_overflows over =
      let (t, ge, lt, q) =
        convert_overflows cs negative m 0 (s + length (sign_text negative))
          (n - length (sign_text negative)) digits
          (Reads-append (sign_text negative) cs m s spelled).1 (omega arith) (omega arith) over in
      (t, omega arith, lt, strtol_signed negative cs m s n spelled digits some_digit inside ∙ q)
