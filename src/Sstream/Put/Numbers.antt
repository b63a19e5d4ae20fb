-- ===== src/Sstream/Put/Numbers.antt =====
-- What `U_sstream_put_long` and its siblings append to an open text.
use deconz_lib.Base.{
  ℕ, zero, suc, ◌+◌, ◌-◌, ◌*◌, ◌^◌, ◌≤◌, ◌<◌, ◌≡◌, refl, sym, ap, ◌∙◌, some, List, [], ◌∷◌, ◌++◌,
  arith, if◌then◌else◌, length, get_or, set, store, All, All-append,
}
use mathlib.Core.Path.{subst}
use native.Mathlib.Numerals.{add-one}
use deconz_lib.Base.Int.{ℤ, pos, negsuc, InRange}
use deconz_lib.Sstream.{Sstream, put_char, IsOpen}
use deconz_lib.Sstream.Put.{
  is_negative, copy_back, put_digits, put_long, put_longlong, put_ulonglong,
}
use deconz_lib.Sstream.Put.Text.{emit}
use deconz_lib.Sstream.Put.Decimal.{
  magnitude, IsDigit, value_from, IsDecimal, IsBuffer, low_value, digits-IsBuffer,
}

-- The buffer read from its end.
abbrev pub back : ℕ → List ℕ → List ℕ
back zero buf = []
back (suc i) buf = get_or buf i 0 ∷ back i buf

length-back : (i : ℕ) (buf : List ℕ) → length (back i buf) ≡ i
length-back zero buf = refl
length-back (suc i) buf = ap suc (length-back i buf)

back-cons : (i c : ℕ) (buf : List ℕ) → back (suc i) (c ∷ buf) ≡ back i buf ++ (c ∷ [])
back-cons zero c buf = refl
back-cons (suc i) c buf = ap (λ t. get_or buf i 0 ∷ t) (back-cons i c buf)

value_from-append :
    (n c : ℕ) (cs : List ℕ) → value_from n (cs ++ (c ∷ [])) ≡ value_from n cs * 10 + (c - b'0')
value_from-append n c [] = refl
value_from-append n c (d ∷ cs) = value_from-append (n * 10 + (d - b'0')) c cs

value-back : (buf : List ℕ) → value_from 0 (back (length buf) buf) ≡ low_value buf
value-back [] = refl
value-back (c ∷ buf) =
    ap (value_from 0) (back-cons (length buf) c buf)
    ∙ value_from-append 0 c (back (length buf) buf)
    ∙ omega (arith, value-back buf)

All-back : (buf : List ℕ) → All IsDigit buf → All IsDigit (back (length buf) buf)
All-back [] a = a
All-back (c ∷ buf) (h, a) =
    subst (All IsDigit) (sym (back-cons (length buf) c buf))
      (All-append IsDigit (back (length buf) buf) (c ∷ []) (All-back buf a) (h, tt))

IsDecimal-of_buffer :
    (w n : ℕ) (buf : List ℕ) → IsBuffer w n buf → IsDecimal w n (back (length buf) buf)
IsDecimal-of_buffer w n [] b = absurd (omega (arith, b.some_digit))
IsDecimal-of_buffer w n (c ∷ buf) b = record {
  some_digit = omega (arith, length-back (length buf) (c ∷ buf));
  digits = All-back (c ∷ buf) b.digits;
  value = value-back (c ∷ buf) ∙ b.value;
  canonical = ground (arith, length-back (length buf) (c ∷ buf), b.canonical);
  short = omega (arith, length-back (length buf) (c ∷ buf), b.short);
}

copy_back-store :
    (i : ℕ) (buf m : List ℕ) (ss : Sstream)
    → ss.str ≡ some m
    → ss.pos + i < 2 ^ 32
    → copy_back i buf ss ≡ record ss { str = some (store m ss.pos (back i buf)); pos = ss.pos + i }
unfolding copy_back
copy_back-store zero buf m ss e h = ground arith
copy_back-store (suc i) buf m ss e h = ground (
  arith,
  add-one ss.pos,
  copy_back-store i buf (set m ss.pos (get_or buf i 0)) (put_char (get_or buf i 0) ss),
)

-- What a number is as text.
abbrev pub sign : ℤ → List ℕ
sign z = if is_negative z then b'-' ∷ [] else []

put_digits-emit :
    (z : ℤ) (buf : List ℕ) {m : List ℕ} {ss : Sstream}
    → length buf ≤ 20
    → IsOpen m ss
    → ss.pos < ss.len
    → put_digits (is_negative z) buf ss ≡ emit m (sign z ++ back (length buf) buf) ss
unfolding put_digits
put_digits-emit (pos n) buf {m} {ss} short o h =
    ground (arith, length-back (length buf) buf, copy_back-store (length buf) buf m ss)
put_digits-emit (negsuc n) buf {m} {ss} short o h = ground (
  arith,
  add-one ss.pos,
  length-back (length buf) buf,
  copy_back-store (length buf) buf (set m ss.pos b'-') (put_char b'-' ss),
)

magnitude_bound : (z : ℤ) → InRange 63 z → magnitude z < 10 ^ 20
magnitude_bound (pos n) r = omega arith
magnitude_bound (negsuc n) r = omega arith

-- On an open text with its cursor before the end, `U_sstream_put_long` stays within its buffer and
-- appends, or refuses for lack of space, the minus sign of a negative number and the decimal
-- numeral of its magnitude, for every `long`.
pub put_long-emit :
    (z : ℤ) {m : List ℕ} {ss : Sstream}
    → InRange 63 z
    → IsOpen m ss
    → ss.pos < ss.len
    → (cs : List ℕ) × IsDecimal 20 (magnitude z) cs
      × (put_long z ss ≡ some (emit m (sign z ++ cs) ss))
unfolding put_long
put_long-emit z {m} {ss} r o h =
    let (buf, e, b) = digits-IsBuffer 19 24 z (magnitude_bound z r) (omega arith) in
    (
      back (length buf) buf,
      IsDecimal-of_buffer 20 (magnitude z) buf b,
      ground (arith, e, put_digits-emit z buf b.short o h),
    )

-- `long long` has the range of `long`, and the two functions agree.
pub put_longlong-eq-put_long : (z : ℤ) (ss : Sstream) → put_longlong z ss ≡ put_long z ss
unfolding put_long put_longlong
put_longlong-eq-put_long z ss = refl

-- On an open text with its cursor before the end, `U_sstream_put_ulonglong` appends, or refuses for
-- lack of space, the decimal numeral of every `unsigned long long`.
put_ulonglong-emit :
    (n : ℕ) {m : List ℕ} {ss : Sstream}
    → n < 2 ^ 64
    → IsOpen m ss
    → ss.pos < ss.len
    → (cs : List ℕ) × IsDecimal 20 n cs × (put_ulonglong n ss ≡ some (emit m cs ss))
unfolding put_ulonglong
put_ulonglong-emit n {m} {ss} r o h =
    let (buf, e, b) = digits-IsBuffer 19 24 (pos n) (omega arith) (omega arith) in
    (
      back (length buf) buf,
      IsDecimal-of_buffer 20 n buf b,
      ground (arith, e, put_digits-emit (pos n) buf b.short o h),
    )
