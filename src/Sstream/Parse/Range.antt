-- ===== src/Sstream/Parse/Range.antt =====
-- U_strtol and U_sstream_get_long: every result is a `long`.
use deconz_lib.Base.{
  ℕ, zero, suc, ◌+◌, ◌-◌, ◌*◌, ◌/◌, ◌%◌, ◌^◌, ◌<◌, Bool, true, false, ◌&&◌, List, arith, u64,
  sub_u32, ltb, ◌==◌, if-both, get_or,
}
use deconz_lib.Base.Int.{ℤ, of_bits, InRange}
use deconz_lib.Base.Text.{is_digit}
use deconz_lib.Sstream.{Sstream, is_ok, memory}
use deconz_lib.Sstream.Parse.{
  Parsed, Scan, failed, limit, apply_sign, convert, parse_digits, parse_sign, skip_blanks, strtol,
  get_long,
}

abbrev IsLong : Parsed → Type 0
IsLong r = InRange 63 r.value

of_bits-InRange : (n : ℕ) → n < 2 ^ 64 → InRange 63 (of_bits 63 n)
of_bits-InRange n h = ground arith

apply_sign-InRange : (negative : Bool) (n : ℕ) → n < 2 ^ 64 → InRange 63 (apply_sign negative n)
apply_sign-InRange true n h = of_bits-InRange ((2 ^ 64 - n) % 2 ^ 64) (omega arith)
apply_sign-InRange false n h = of_bits-InRange n h

failed-IsLong : (err endp : ℕ) → IsLong (failed err endp)
failed-IsLong err endp = omega arith

convert-IsLong :
    (negative : Bool) (m : List ℕ) (n s left : ℕ)
    → n < 2 ^ 64
    → IsLong (convert negative m n s left)
unfolding convert
convert-IsLong negative m n s zero h = apply_sign-InRange negative n h
convert-IsLong negative m n s (suc left) h =
    if-both IsLong (is_digit (get_or m s 0))
      (if-both IsLong (ltb ((limit negative - (get_or m s 0 - b'0')) / 10) n) (failed-IsLong 2 s) (
        convert-IsLong negative m (u64 (n * 10 + (get_or m s 0 - b'0'))) (s + 1) left
          (omega arith)))
      (apply_sign-InRange negative n h)

parse_digits-IsLong : (negative : Bool) (m : List ℕ) (c : Scan) → IsLong (parse_digits negative m c)
unfolding parse_digits
parse_digits-IsLong negative m (s, left) = if-both IsLong (left == 0) (failed-IsLong 1 s) (
    if-both IsLong (is_digit (get_or m s 0)) (convert-IsLong negative m 0 s left (omega arith))
      (failed-IsLong 1 s))

parse_sign-IsLong : (m : List ℕ) (c : Scan) → IsLong (parse_sign m c)
unfolding parse_sign
parse_sign-IsLong m (s, left) = if-both IsLong (left == 0) (failed-IsLong 1 s) (
    if-both IsLong (get_or m s 0 == b'-') (parse_digits-IsLong true m (s + 1, left - 1)) (
      if-both IsLong (get_or m s 0 == b'+') (parse_digits-IsLong false m (s + 1, left - 1))
        (parse_digits-IsLong false m (s, left))))

strtol-IsLong : (m : List ℕ) (s len : ℕ) → IsLong (strtol m s len)
unfolding strtol
strtol-IsLong m s len =
    if-both IsLong (len == 0) (failed-IsLong 1 s) (parse_sign-IsLong m (skip_blanks m s len))

pub get_long-InRange : (ss : Sstream) → InRange 63 (get_long ss).0
unfolding get_long
get_long-InRange ss =
    let r = strtol (memory ss) ss.pos (sub_u32 ss.len ss.pos) in
    if-both {A = ℤ × Sstream} (λ t. InRange 63 t.0) (is_ok ss.status && ltb ss.pos ss.len)
      (if-both (InRange 63) (r.err == 0) (strtol-IsLong (memory ss) ss.pos (sub_u32 ss.len ss.pos))
        (omega arith))
      (omega arith)
