-- ===== src/SstreamEx/Utf8.antt =====
-- U_sstream_utf8_codepoint on encoded code points.
use deconz_lib.Base.{
  ℕ, ◌+◌, ◌-◌, ◌*◌, ◌/◌, ◌%◌, ◌^◌, ◌≤◌, ◌<◌, bit_and, ◌≡◌, refl, true, ◌&&◌, List, [], ◌∷◌, arith,
  IsByte, ltb, ◌==◌, if◌then◌else◌, length, Reads, or_fields, bit_and_ones,
}
use native.Mathlib.Decide.{dec_lt}
use deconz_lib.Base.Text.{all_below, all_below→}
use deconz_lib.SstreamEx.{utf8_codepoint, continue_with}

-- The encoding of a code point below 2^21.
abbrev pub encode : ℕ → List ℕ
encode cp =
    if ltb cp 0x80
    then cp ∷ []
    else if ltb cp 0x800
    then (0xc0 + cp / 2 ^ 6) ∷ (0x80 + cp % 2 ^ 6) ∷ []
    else if ltb cp 0x10000
    then (0xe0 + cp / 2 ^ 12) ∷ (0x80 + cp / 2 ^ 6 % 2 ^ 6) ∷ (0x80 + cp % 2 ^ 6) ∷ []
    else (0xf0 + cp / 2 ^ 18)
      ∷ (0x80 + cp / 2 ^ 12 % 2 ^ 6)
      ∷ (0x80 + cp / 2 ^ 6 % 2 ^ 6)
      ∷ (0x80 + cp % 2 ^ 6)
      ∷ []

high_bits_table :
    all_below 256 (λ b.
      bit_and b 0x80 == b / 128 * 128
      && bit_and b 0xe0 == b / 32 * 32
      && bit_and b 0xf0 == b / 16 * 16
      && bit_and b 0xf8 == b / 8 * 8)
    ≡ true
unfolding all_below
high_bits_table = refl

-- The masks of the prefixes, as arithmetic.
pub high_bits :
    (b : ℕ)
    → IsByte b
    → (bit_and b 0x80 ≡ b / 128 * 128)
      × (bit_and b 0xe0 ≡ b / 32 * 32)
      × (bit_and b 0xf0 ≡ b / 16 * 16)
      × (bit_and b 0xf8 ≡ b / 8 * 8)
high_bits b h = ground (arith, all_below→ 256 _ b high_bits_table h)

pub continue_with_lem : (b cp : ℕ) → cp < 2 ^ 26 → continue_with b cp ≡ cp * 64 + b % 64
continue_with_lem b cp h = ground (arith, bit_and_ones 6 b, or_fields 6 cp (b % 64))

module _ (m : List ℕ) (t : ℕ) where
  -- One byte.
  decode_one : (b : ℕ) → Reads m t (b ∷ []) → b < 128 → utf8_codepoint m t ≡ (b, t + 1)
  unfolding utf8_codepoint
  decode_one b r h = ground (arith, bit_and_ones 8 b, high_bits b)

  -- Two bytes: the second may be any that is not NUL.
  pub decode_two :
      (b c : ℕ)
      → Reads m t (b ∷ c ∷ [])
      → 0xc0 ≤ b
      → b < 0xe0
      → 0 < c
      → utf8_codepoint m t ≡ ((b - 0xc0) * 64 + c % 64, t + 2)
  unfolding utf8_codepoint
  decode_two b c r lo hi nz =
      ground (arith, bit_and_ones 8 b, high_bits b, bit_and_ones 5 b, continue_with_lem c (b % 32))

  decode_three :
      (b c d : ℕ)
      → Reads m t (b ∷ c ∷ d ∷ [])
      → 0xe0 ≤ b
      → b < 0xf0
      → 0 < c
      → 0 < d
      → utf8_codepoint m t ≡ (((b - 0xe0) * 64 + c % 64) * 64 + d % 64, t + 3)
  unfolding utf8_codepoint
  decode_three b c d r lo hi nz nz' = ground (
    arith,
    bit_and_ones 8 b,
    high_bits b,
    bit_and_ones 4 b,
    continue_with_lem c (b % 16),
    continue_with_lem d (b % 16 * 64 + c % 64),
  )

  decode_four :
      (b c d e : ℕ)
      → Reads m t (b ∷ c ∷ d ∷ e ∷ [])
      → 0xf0 ≤ b
      → b < 0xf8
      → 0 < c
      → 0 < d
      → 0 < e
      → utf8_codepoint m t ≡ ((((b - 0xf0) * 64 + c % 64) * 64 + d % 64) * 64 + e % 64, t + 4)
  unfolding utf8_codepoint
  decode_four b c d e r lo hi nz nz' nz'' = ground (
    arith,
    bit_and_ones 8 b,
    high_bits b,
    bit_and_ones 3 b,
    continue_with_lem c (b % 8),
    continue_with_lem d (b % 8 * 64 + c % 64),
    continue_with_lem e ((b % 8 * 64 + c % 64) * 64 + d % 64),
  )

-- The decoder reads back every number below 2^21 from its encoding, whatever follows it, and goes on
-- behind this. The surrogates and the numbers above 0x10ffff are read back too: they are no valid
-- code points, and the comment of the function promises 0xfffd for them.
pub utf8_codepoint-encode :
    (cp : ℕ) (m : List ℕ) (t : ℕ)
    → cp < 2 ^ 21
    → Reads m t (encode cp)
    → utf8_codepoint m t ≡ (cp, t + length (encode cp))
utf8_codepoint-encode cp m t h r = elim (dec_lt cp 0x80) [
  | yes one ↦ ground (arith, decode_one m t cp)
  | no more ↦ elim (dec_lt cp 0x800) [
    | yes two ↦ ground (arith, decode_two m t (0xc0 + cp / 2 ^ 6) (0x80 + cp % 2 ^ 6))
    | no more' ↦ elim (dec_lt cp 0x10000) [
      | yes three ↦ ground (
        arith,
        decode_three m t (0xe0 + cp / 2 ^ 12) (0x80 + cp / 2 ^ 6 % 2 ^ 6) (0x80 + cp % 2 ^ 6),
      )
      | no four ↦ ground (
        arith,
        decode_four m t (0xf0 + cp / 2 ^ 18) (0x80 + cp / 2 ^ 12 % 2 ^ 6)
            (0x80 + cp / 2 ^ 6 % 2 ^ 6) (0x80 + cp % 2 ^ 6),
      )
    ]
  ]
]

-- Every answer of the decoder moves on.
pub utf8_codepoint-forward : (m : List ℕ) (t : ℕ) → t < (utf8_codepoint m t).1
unfolding utf8_codepoint
utf8_codepoint-forward m t = ground arith
