-- ===== src/SstreamEx/Mac.antt =====
-- U_sstream_put_mac_address: the text of an address.
use deconz_lib.Base.{
  ℕ, zero, suc, ◌+◌, ◌-◌, ◌*◌, ◌/◌, ◌%◌, ◌^◌, ◌<◌, ◌≡◌, refl, ◌∙◌, some, List, [], ◌∷◌, arith, ltb,
  if◌then◌else◌, length, get_or, store, bit_and_ones,
}
use native.Mathlib.Numerals.{add-one}
use deconz_lib.Base.Text.{hex_table_lower}
use deconz_lib.Sstream.{Sstream, err_no_space, fail, IsOpen}
use deconz_lib.Sstream.Put.Text.{appended}
use deconz_lib.Sstream.Put.Hex.{high_nibble}
use deconz_lib.SstreamEx.{put_mac_loop, put_mac_address}

abbrev pub nibble : ℕ → ℕ
nibble d = get_or hex_table_lower d 0

-- Two lower case digits for each byte, and a colon between two bytes.
abbrev pub octet_text : List ℕ → List ℕ
octet_text [] = []
octet_text (b ∷ []) = nibble (b / 16) ∷ nibble (b % 16) ∷ []
octet_text (b ∷ c ∷ bs) = nibble (b / 16) ∷ nibble (b % 16) ∷ b':' ∷ octet_text (c ∷ bs)

-- The top `n` bytes of a 64-bit word, the highest first.
abbrev pub octets : ℕ → ℕ → List ℕ
octets zero w = []
octets (suc n) w = w / 2 ^ 56 ∷ octets n (w * 256 % 2 ^ 64)

abbrev pub mac_text : ℕ → List ℕ
mac_text mac = octet_text (octets 8 mac)

pub length-octet_text : (n w : ℕ) → length (octet_text (octets (suc n) w)) ≡ 3 * n + 2
length-octet_text zero w = refl
length-octet_text (suc n) w = omega (arith, length-octet_text n (w * 256 % 2 ^ 64))

-- The three characters of a round before the last.
abbrev group : ℕ → List ℕ
group b = nibble (b / 16) ∷ nibble (b % 16) ∷ b':' ∷ []

put_mac_round :
    (k i mac : ℕ) (m : List ℕ) (ss : Sstream)
    → i < 7
    → mac < 2 ^ 64
    → ss.str ≡ some m
    → ss.pos + 3 < 2 ^ 32
    → put_mac_loop (suc k) i mac ss
      ≡ put_mac_loop k
          (i + 1)
          (mac * 256 % 2 ^ 64)
          (record ss { str = some (store m ss.pos (group (mac / 2 ^ 56))); pos = ss.pos + 3 })
unfolding put_mac_loop
put_mac_round k i mac m ss h b s room = ground (
  arith,
  add-one ss.pos,
  add-one (ss.pos + 1),
  bit_and_ones 8 (mac / 2 ^ 56),
  high_nibble (mac / 2 ^ 56),
  bit_and_ones 4 (mac / 2 ^ 56),
)

put_mac_loop-store :
    (n i mac : ℕ) (m : List ℕ) (ss : Sstream)
    → i + suc n ≡ 8
    → mac < 2 ^ 64
    → ss.str ≡ some m
    → ss.pos + 3 * n + 2 < 2 ^ 32
    → put_mac_loop (suc n) i mac ss ≡ record ss {
      str = some (store m ss.pos (octet_text (octets (suc n) mac)));
      pos = ss.pos + 3 * n + 2;
    }
put_mac_loop-store zero i mac m ss e b s h =
    unfold put_mac_loop in
    ground (
      arith,
      add-one ss.pos,
      bit_and_ones 8 (mac / 2 ^ 56),
      high_nibble (mac / 2 ^ 56),
      bit_and_ones 4 (mac / 2 ^ 56),
    )
put_mac_loop-store (suc n) i mac m ss e b s h =
    put_mac_round (suc n) i mac m ss (omega arith) b s (omega arith)
    ∙ put_mac_loop-store n (i + 1) (mac * 256 % 2 ^ 64) (store m ss.pos (group (mac / 2 ^ 56)))
        (record ss { str = some (store m ss.pos (group (mac / 2 ^ 56))); pos = ss.pos + 3 })
        (omega arith) (omega arith) refl (omega arith)
    ∙ ground (arith, shift)
  where
    shift : suc (suc (suc ss.pos)) ≡ ss.pos + 3
    shift = omega arith

-- With room for 23 characters and the NUL an open stream takes the text of the address, and with
-- less it reports that there is no space.
pub put_mac_address-emit :
    (mac : ℕ) {m : List ℕ} {ss : Sstream}
    → mac < 2 ^ 64
    → IsOpen m ss
    → put_mac_address mac ss
      ≡ (if ltb (ss.len - ss.pos) 24 then fail err_no_space ss else appended m (mac_text mac) ss)
unfolding put_mac_address
put_mac_address-emit mac {m} {ss} b o =
    ground (arith, put_mac_loop-store 7 0 mac m ss, length-octet_text 7 mac)
