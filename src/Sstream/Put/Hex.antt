-- ===== src/Sstream/Put/Hex.antt =====
-- Bytes as pairs of hexadecimal digits.
use deconz_lib.Base.{
  ℕ, ◌+◌, ◌*◌, ◌/◌, ◌%◌, ◌^◌, ◌<◌, bit_and, ◌≡◌, refl, some, List, [], ◌∷◌, arith, IsByte, length,
  get_or, set, store, All, bit_and_ones, and_digit,
}
use native.Mathlib.Numerals.{add-one}
use deconz_lib.Base.Text.{hex_table_upper}
use deconz_lib.Sstream.{Sstream, put_char, IsOpen}
use deconz_lib.Sstream.Put.{put_hex, put_hex_bytes}
use deconz_lib.Sstream.Put.Text.{emit}

-- The digits of a byte, high nibble first.
abbrev pub hex_digit : ℕ → ℕ
hex_digit d = get_or hex_table_upper d 0

abbrev pub hex_text : List ℕ → List ℕ
hex_text [] = []
hex_text (b ∷ bs) = hex_digit (b / 16) ∷ hex_digit (b % 16) ∷ hex_text bs

pub length-hex_text : (bs : List ℕ) → length (hex_text bs) ≡ 2 * length bs
length-hex_text [] = refl
length-hex_text (b ∷ bs) = omega (arith, length-hex_text bs)

pub high_nibble : (b : ℕ) → IsByte b → bit_and b 0xf0 / 2 ^ 4 ≡ b / 16
high_nibble b h = ground (
  arith,
  and_digit b 0xf0,
  and_digit (b / 2) 0x78,
  and_digit (b / 2 / 2) 0x3c,
  and_digit (b / 2 / 2 / 2) 0x1e,
  bit_and_ones 4 (b / 16),
)

put_hex_bytes-store :
    (bs m : List ℕ) (ss : Sstream)
    → ss.str ≡ some m
    → All IsByte bs
    → ss.pos + 2 * length bs < 2 ^ 32
    → put_hex_bytes bs ss
      ≡ record ss { str = some (store m ss.pos (hex_text bs)); pos = ss.pos + 2 * length bs }
unfolding put_hex_bytes
put_hex_bytes-store [] m ss e a h = ground arith
put_hex_bytes-store (b ∷ bs) m ss e (hb, a) h = ground (
  arith,
  add-one ss.pos,
  high_nibble b hb,
  bit_and_ones 4 b,
  put_hex_bytes-store bs (set (set m ss.pos (hex_digit (b / 16))) (ss.pos + 1) (hex_digit (b % 16)))
      (put_char (hex_digit (b % 16)) (put_char (hex_digit (b / 16)) ss)),
)

-- On an open text with its cursor before the end, `U_sstream_put_hex` appends two upper case digits
-- for each byte, or refuses for lack of space; the test by division is exact.
pub put_hex-emit :
    (bs : List ℕ) {m : List ℕ} {ss : Sstream}
    → All IsByte bs
    → IsOpen m ss
    → ss.pos < ss.len
    → put_hex bs ss ≡ emit m (hex_text bs) ss
unfolding put_hex
put_hex-emit bs {m} {ss} a o h = ground (arith, length-hex_text bs, put_hex_bytes-store bs m ss)
