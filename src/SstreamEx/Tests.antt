-- ===== src/SstreamEx/Tests.antt =====
-- Runs of the extensions of the string stream, and their theorems at concrete inputs.
use deconz_lib.Base.{ℕ, ◌+◌, ◌≡◌, refl, some, List, [], ◌∷◌, arith, replicate}
use deconz_lib.Base.Text.{hex_value}
use deconz_lib.Sstream.{Sstream, ok, IsOpen}
use deconz_lib.SstreamEx.{get_mac_address, get_mac_loop, utf8_codepoint}
use deconz_lib.SstreamEx.Utf8.{utf8_codepoint-encode}

abbrev blank : List ℕ
blank = replicate 32 0

abbrev fresh : Sstream
fresh = record { str = some blank; pos = 2; len = 30; status = ok }

fresh-IsOpen : IsOpen blank fresh
fresh-IsOpen = record {
  over = refl;
  fine = refl;
  fits = omega arith;
  small = omega arith;
  within = omega arith;
}

-- Digits are accepted where the colons belong, and the first of them are shifted out.
abbrev no_colons : List ℕ
no_colons = replicate 23 b'2'

no_colons_accepted :
    (get_mac_address (record { str = some no_colons; pos = 0; len = 23; status = ok })).0
    ≡ 0x2222222222222222
unfolding get_mac_address get_mac_loop hex_value
no_colons_accepted = refl

-- The euro sign.
utf8_codepoint-encode_example : utf8_codepoint (0xe2 ∷ 0x82 ∷ 0xac ∷ []) 0 ≡ (0x20ac, 0 + 3)
utf8_codepoint-encode_example =
    utf8_codepoint-encode 0x20ac (0xe2 ∷ 0x82 ∷ 0xac ∷ []) 0 (omega arith)
      (refl, (refl, (refl, tt)))
