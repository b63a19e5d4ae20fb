-- ===== src/Url/Tests.antt =====
-- Runs of the url parser, and its theorems at concrete inputs.
use deconz_lib.Base.{◌<◌, ℕ, ◌≤◌, ◌≡◌, refl, ◌⊎◌, none, some, [], ◌∷◌, arith, take, drop, replicate}
use deconz_lib.Url.{UrlParse, ok, out_of_bounds, parse_url, url_element_at}
use deconz_lib.Url.Elements.{IsShort, url_element_at-segments}
use deconz_lib.Url.Overflow.{parse_url_overflows, slashes}

abbrev dev_0_id : UrlParse
dev_0_id = record {
  url = b'd' ∷ b'e' ∷ b'v' ∷ b'/' ∷ b'0' ∷ b'/' ∷ b'i' ∷ b'd' ∷ [];
  element_count = 0;
  elements = replicate 16 0xaa;
}

short : IsShort dev_0_id
short = record { array = refl; few = omega arith; small = omega arith; some_byte = omega arith }

url_element_at-segments_example :
    (t : UrlParse) × (parse_url dev_0_id ≡ ok t)
    × ((3 ≤ 2) × (url_element_at t 2 ≡ record { size = 0; offset = none })
        ⊎ (2 < 3)
          × (p : ℕ) × (url_element_at t 2 ≡ record { size = 2; offset = some p })
          × (take 2 (drop p dev_0_id.url) ≡ b'i' ∷ b'd' ∷ []))
url_element_at-segments_example = url_element_at-segments 2 short

abbrev deep : UrlParse
deep = record { url = replicate 16 b'/'; element_count = 0; elements = replicate 16 0 }

parse_url_overflows_example : parse_url deep ≡ out_of_bounds
parse_url_overflows_example = parse_url_overflows deep (unfold slashes in omega arith)
