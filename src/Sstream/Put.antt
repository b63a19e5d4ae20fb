-- ===== src/Sstream/Put.antt =====
-- u_sstream.c: the functions that append to the text.
pub mod Text
pub mod Decimal
pub mod Numbers
pub mod Hex
use deconz_lib.Base.{
  ℕ, zero, suc, ◌+◌, ◌-◌, ◌/◌, ◌%◌, bit_and, Bool, true, false, not, ◌&&◌, ◌||◌, Option, none, some,
  List, [], ◌∷◌, sub_u32, ◌>>◌, ltb, leb, ◌==◌, if◌then◌else◌, length, get_or, set,
}
use deconz_lib.Base.Int.{ℤ, pos, negsuc}
use deconz_lib.Base.Text.{strlen, hex_table_upper}
use deconz_lib.Sstream.{Sstream, is_ok, err_no_space, fail, put_here, put_char, memory}

-- `while (*str && pos < ss->len - 1) ss->str[pos++] = *str++;`, with the memory and `pos` it leaves.
-- `pos++` is done below `len - 1` only, and cannot wrap.
pub copy : ℕ → List ℕ → ℕ → List ℕ → List ℕ × ℕ
copy last m p [] = (m, p)
copy last m p (c ∷ s) =
    let rest = copy last (set m p c) (p + 1) s in
    if not (c == 0) && ltb p last then rest else (m, p)

pub put_str : Option (List ℕ) → Sstream → Sstream
unfolding copy strlen
put_str none ss = ss
put_str (some s) ss =
    if not (is_ok ss.status)
    then ss
    else if ss.len == 0
    then ss
    else if leb ss.len ss.pos
    then fail err_no_space ss
    else if leb (sub_u32 ss.len ss.pos) (strlen s)
    then fail err_no_space ss
    else let (m, p) = copy (sub_u32 ss.len 1) (memory ss) ss.pos s in
      put_here 0 (record ss { str = elim ss.str [ none ↦ none | some _ ↦ some m ]; pos = p })

-- Division and remainder of C, which round towards zero: on -(n + 1) the magnitudes are those of
-- n + 1.
abbrev pub quotient_ten : ℤ → ℤ
quotient_ten (pos n) = pos (n / 10)
quotient_ten (negsuc n) = elim ((n + 1) / 10) [ zero ↦ pos 0 | suc q ↦ negsuc q ]

-- `remainder = n % 10; remainder = remainder < 0 ? -remainder : remainder;`
abbrev pub digit_ten : ℤ → ℕ
digit_ten (pos n) = n % 10
digit_ten (negsuc n) = (n + 1) % 10

abbrev pub is_zero : ℤ → Bool
is_zero (pos n) = n == 0
is_zero (negsuc n) = false

abbrev pub is_negative : ℤ → Bool
is_negative (pos n) = false
is_negative (negsuc n) = true

-- The do-while loop that fills `buf`, least significant digit first; `none` is a write past its
-- end. The first argument is the room left in `buf`.
pub digits : ℕ → ℤ → Option (List ℕ)
digits zero n = none
digits (suc room) n =
    let rest = digits room (quotient_ten n) in
    if is_zero (quotient_ten n)
    then some ((b'0' + digit_ten n) ∷ [])
    else elim rest [ none ↦ none | some cs ↦ some ((b'0' + digit_ten n) ∷ cs) ]

-- `for (i = pos; i > 0; i--) ss->str[ss->pos++] = buf[i - 1];`
pub copy_back : ℕ → List ℕ → Sstream → Sstream
copy_back zero buf ss = ss
copy_back (suc i) buf ss = copy_back i buf (put_char (get_or buf i 0) ss)

-- What stands behind the digit loop of the three number functions.
pub put_digits : Bool → List ℕ → Sstream → Sstream
unfolding copy_back
put_digits negative buf ss =
    if ltb (sub_u32 ss.len ss.pos) (length buf + 1 + (if negative then 1 else 0))
    then fail err_no_space ss
    else put_here 0 (copy_back (length buf) buf (if negative then put_char b'-' ss else ss))

-- `none` is a write past the end of `buf[24]`.
pub put_long : ℤ → Sstream → Option Sstream
unfolding digits put_digits
put_long num ss =
    if is_ok ss.status && ltb ss.pos ss.len
    then elim (digits 24 num) [
      | none ↦ none
      | some buf ↦ some (put_digits (is_negative num) buf ss)
    ]
    else some ss

pub put_longlong : ℤ → Sstream → Option Sstream
unfolding digits put_digits
put_longlong num ss =
    if is_ok ss.status && ltb ss.pos ss.len
    then elim (digits 24 num) [
      | none ↦ none
      | some buf ↦ some (put_digits (is_negative num) buf ss)
    ]
    else some ss

pub put_ulonglong : ℕ → Sstream → Option Sstream
unfolding digits put_digits
put_ulonglong num ss =
    if is_ok ss.status && ltb ss.pos ss.len
    then elim (digits 24 (pos num)) [ none ↦ none | some buf ↦ some (put_digits false buf ss) ]
    else some ss

-- The loop of `U_sstream_put_hex`.
pub put_hex_bytes : List ℕ → Sstream → Sstream
put_hex_bytes [] ss = ss
put_hex_bytes (b ∷ bs) ss = put_hex_bytes bs (
    put_char (get_or hex_table_upper (bit_and b 0x0f) 0)
      (put_char (get_or hex_table_upper (bit_and b 0xf0 >> 4) 0) ss))

-- The list holds the `size` bytes behind `data`.
pub put_hex : List ℕ → Sstream → Sstream
unfolding put_hex_bytes
put_hex bytes ss =
    let available = if ltb ss.pos ss.len then sub_u32 ss.len ss.pos else 0 in
    if is_ok ss.status
    then if ltb available 1 || ltb ((available - 1) / 2) (length bytes)
      then fail err_no_space ss
      else put_here 0 (put_hex_bytes bytes ss)
    else ss
