-- ===== src/Sstream/Parse.antt =====
-- u_sstream.c: `U_strtol` and `U_sstream_get_long`.
pub mod Strtol
pub mod RoundTrip
pub mod Range
use deconz_lib.Base.{
  ℕ, zero, suc, ◌+◌, ◌-◌, ◌*◌, ◌/◌, ◌%◌, ◌^◌, bit_and, Bool, true, false, ◌&&◌, ◌||◌, List, u32,
  u64, sub_u32, ltb, leb, ◌==◌, if◌then◌else◌, get_or,
}
use deconz_lib.Base.Int.{ℤ, pos, of_bits}
use deconz_lib.Base.Text.{is_digit}
use deconz_lib.Sstream.{Sstream, is_ok, err_range, err_invalid, fail, memory}

-- What `U_strtol` leaves: its result, `*endp` as an index, and the bitmap `*err`.
pub record Parsed : Type 0 where
  pub value : ℤ
  pub endp : ℕ
  pub err : ℕ

abbrev pub failed : ℕ → ℕ → Parsed
failed err endp = record { value = pos 0; endp = endp; err = err }

-- A position of the scan: the index of `s` and the rounds `len - i` that are left.
abbrev pub Scan : Type 0
Scan = ℕ × ℕ

unfoldable pub skip_blanks : List ℕ → ℕ → ℕ → Scan
skip_blanks m s zero = (s, 0)
skip_blanks m s (suc left) =
    let rest = skip_blanks m (s + 1) left in
    if get_or m s 0 == 0x20 || get_or m s 0 == 0x09 then rest else (s, suc left)

-- `max` or `max_neg`, by the sign
abbrev pub limit : Bool → ℕ
limit negative = if negative then 9223372036854775808 else 9223372036854775807

-- `sign == -1 ? -(long)result : (long)result`. The most negative number is reached by a negation
-- that overflows `long`; it is taken to wrap.
abbrev pub apply_sign : Bool → ℕ → ℤ
apply_sign negative result =
    if negative then of_bits 63 ((2 ^ 64 - result) % 2 ^ 64) else of_bits 63 result

pub convert : Bool → List ℕ → ℕ → ℕ → ℕ → Parsed
convert negative m result s zero = record { value = apply_sign negative result; endp = s; err = 0 }
convert negative m result s (suc left) =
    let c = get_or m s 0 in
    let rest = convert negative m (u64 (result * 10 + (c - b'0'))) (s + 1) left in
    if is_digit c
    then (if ltb ((limit negative - (c - b'0')) / 10) result then failed 2 s else rest)
    else record { value = apply_sign negative result; endp = s; err = 0 }

-- The check for a first digit, and the conversion.
pub parse_digits : Bool → List ℕ → Scan → Parsed
unfolding convert
parse_digits negative m (s, left) =
    if left == 0
    then failed 1 s
    else if is_digit (get_or m s 0)
    then convert negative m 0 s left
    else failed 1 s

-- `sign = -1; s++; i++;`
pub parse_sign : List ℕ → Scan → Parsed
unfolding parse_digits
parse_sign m (s, left) =
    if left == 0
    then failed 1 s
    else if get_or m s 0 == b'-'
    then parse_digits true m (s + 1, left - 1)
    else if get_or m s 0 == b'+'
    then parse_digits false m (s + 1, left - 1)
    else parse_digits false m (s, left)

-- `s` is an index into the memory `m`.
unfoldable pub strtol : List ℕ → ℕ → ℕ → Parsed
unfolding parse_sign skip_blanks
strtol m s len = if len == 0 then failed 1 s else parse_sign m (skip_blanks m s len)

-- `if (err) …`: the status that the bitmap stands for.
abbrev pub mark : ℕ → Sstream → Sstream
mark err ss =
    if err == 0
    then ss
    else if bit_and err 0x1 == 0
    then (if bit_and err 0x6 == 0 then ss else fail err_range ss)
    else fail err_invalid ss

-- The part of `U_sstream_get_long` behind the conversion.
abbrev pub finish : Parsed → Sstream → ℤ × Sstream
finish r ss =
    let marked = mark r.err ss in
    let out_len = u32 (r.endp - ss.pos) in
    (
      (if r.err == 0 then r.value else pos 0),
      (if leb (u32 (ss.pos + out_len)) ss.len
          then record marked { pos = u32 (ss.pos + out_len) }
          else marked),
    )

unfoldable pub get_long : Sstream → ℤ × Sstream
unfolding strtol
get_long ss =
    if is_ok ss.status && ltb ss.pos ss.len
    then finish (strtol (memory ss) ss.pos (sub_u32 ss.len ss.pos)) ss
    else (pos 0, ss)
