-- ===== src/SstreamEx/Valid.antt =====
-- U_sstream_is_valid_utf8: its loop and the texts that it accepts.
use deconz_lib.Base.{
  ℕ, zero, suc, ◌+◌, ◌^◌, ◌≤◌, ◌<◌, ◌≡◌, refl, ◌∙◌, ◌≢◌, inl, inr, Bool, true, false, not, ◌&&◌,
  some, List, [], ◌∷◌, ◌++◌, arith, ltb, ◌==◌, Bool-cases, length, All, length-append, Reads,
  Reads-append,
}
use deconz_lib.Sstream.{Sstream, is_ok, memory, IsOpen, init}
use deconz_lib.SstreamEx.{utf8_codepoint, valid_loop, is_valid_utf8}
use deconz_lib.SstreamEx.Utf8.{encode, utf8_codepoint-encode, utf8_codepoint-forward, decode_two}

valid_loop-total :
    (fuel : ℕ) (m : List ℕ) (len t : ℕ)
    → 0 < fuel
    → len < t + fuel
    → (b : Bool) × (valid_loop fuel m len t ≡ some b)
unfolding valid_loop
valid_loop-total zero m len t f h = absurd (omega arith)
valid_loop-total (suc fuel) m len t f h = elim (Bool-cases (ltb t len)) [
  | inr out ↦ (true, rw out)
  | inl inside ↦ elim (Bool-cases ((utf8_codepoint m t).0 == 0xfffd)) [
    | inl bad ↦ (false, rw (inside, bad))
    | inr good ↦ elim (Bool-cases ((utf8_codepoint m t).0 == 0)) [
      | inl nul ↦ (true, rw (inside, good, nul))
      | inr more ↦
          let (b, e) =
            valid_loop-total fuel m len (utf8_codepoint m t).1 (ground arith)
              (omega (arith, utf8_codepoint-forward m t)) in
          (b, rw (inside, good, more) e)
    ]
  ]
]

-- The test ends on every stream, whatever its text is.
is_valid_utf8-total : (ss : Sstream) → (b : Bool) × (is_valid_utf8 ss ≡ some b)
unfolding is_valid_utf8
is_valid_utf8-total ss = elim (Bool-cases (is_ok ss.status && not (ss.len == 0))) [
  | inl go ↦ rw go (valid_loop-total (ss.len + 1) (memory ss) ss.len 0 (omega arith) (omega arith))
  | inr stop ↦ (false, rw stop)
]

-- The code points that a text may hold: NUL ends the test, and U+FFFD stands for an error.
abbrev pub IsText : ℕ → Type 0
IsText cp = (0 < cp) × (cp < 2 ^ 21) × (cp ≢ 0xfffd)

abbrev pub encode_all : List ℕ → List ℕ
encode_all [] = []
encode_all (cp ∷ cps) = encode cp ++ encode_all cps

encode_pos : (cp : ℕ) → 0 < length (encode cp)
encode_pos cp = ground arith

length-encode_all : (cps : List ℕ) → length cps ≤ length (encode_all cps)
length-encode_all [] = omega arith
length-encode_all (cp ∷ cps) =
    omega (arith, encode_pos cp, length-append (encode cp) (encode_all cps), length-encode_all cps)

valid_round :
    (fuel : ℕ) (m : List ℕ) (len t cp : ℕ) {t' : ℕ}
    → t < len
    → 0 < cp
    → cp ≢ 0xfffd
    → utf8_codepoint m t ≡ (cp, t')
    → valid_loop (suc fuel) m len t ≡ valid_loop fuel m len t'
unfolding valid_loop
valid_round fuel m len t cp h p q e = ground arith

valid_loop-encode :
    (cps : List ℕ) (fuel : ℕ) (m : List ℕ) (len t : ℕ)
    → All IsText cps
    → Reads m t (encode_all cps)
    → len ≡ t + length (encode_all cps)
    → length cps < fuel
    → valid_loop fuel m len t ≡ some true
valid_loop-encode cps zero m len t texts r e h = absurd (omega arith)
valid_loop-encode [] (suc fuel) m len t texts r e h = unfold valid_loop in ground arith
valid_loop-encode (cp ∷ cps) (suc fuel) m len t texts r e h =
    valid_round fuel m len t cp
      (omega (arith, length-append (encode cp) (encode_all cps), encode_pos cp)) texts.0.0 texts.0.2
      (utf8_codepoint-encode cp m t texts.0.1 (Reads-append (encode cp) (encode_all cps) m t r).0)
    ∙ valid_loop-encode cps fuel m len (t + length (encode cp)) texts.1
        (Reads-append (encode cp) (encode_all cps) m t r).1
        (omega (arith, length-append (encode cp) (encode_all cps))) (omega arith)

-- A text of encoded code points, none of them NUL or the replacement character, is accepted.
is_valid_utf8-encode_all :
    (cps : List ℕ) {m : List ℕ} {ss : Sstream}
    → All IsText cps
    → 0 < length cps
    → IsOpen m ss
    → Reads m 0 (encode_all cps)
    → ss.len ≡ length (encode_all cps)
    → is_valid_utf8 ss ≡ some true
unfolding is_valid_utf8
is_valid_utf8-encode_all cps {m} {ss} texts ne o r e =
    ground (arith, length-encode_all cps, valid_loop-encode cps (ss.len + 1) m ss.len 0 texts r)

-- A lead byte of two and any ASCII character behind it pass as a character, so texts that are no
-- UTF-8 are accepted.
is_valid_utf8-stray :
    (b c : ℕ)
    → 0xc1 < b
    → b < 0xe0
    → 0 < c
    → c < 0x80
    → is_valid_utf8 (init (some (b ∷ c ∷ [])) 2) ≡ some true
unfolding is_valid_utf8 init valid_loop
is_valid_utf8-stray b c lo hi nz ascii =
    ground (arith, decode_two (b ∷ c ∷ []) 0 b c (refl, (refl, tt)))
