-- ===== src/Sstream/Tests.antt =====
-- Runs of the string stream, and its theorems at concrete inputs.
use deconz_lib.Base.{
  ℕ, ◌+◌, ◌≤◌, ◌<◌, ◌≡◌, refl, ◌⊎◌, inr, true, false, some, List, [], ◌∷◌, arith, replicate, Reads,
}
use deconz_lib.Base.Int.{negsuc}
use deconz_lib.Sstream.{Sstream, ok, IsOpen, seek}
use deconz_lib.Sstream.Put.{put_long}
use deconz_lib.Sstream.Parse.{get_long, strtol}
use deconz_lib.Sstream.Parse.Strtol.{strtol_fits}
use deconz_lib.Sstream.Parse.RoundTrip.{get_long-put_long}
use deconz_lib.Sstream.Search.{find}
use deconz_lib.Sstream.Search.Find.{find_lem}

abbrev blank : List ℕ
blank = replicate 32 0

abbrev fresh : Sstream
fresh = record { str = some blank; pos = 0; len = 30; status = ok }

abbrev ab_cab : List ℕ
ab_cab = b'a' ∷ b'b' ∷ 0x20 ∷ b'c' ∷ b'a' ∷ b'b' ∷ []

abbrev text : Sstream
text = record { str = some ab_cab; pos = 1; len = 6; status = ok }

abbrev spaced : Sstream
spaced = record text { pos = 2 }

fresh-IsOpen : IsOpen blank fresh
fresh-IsOpen = record {
  over = refl;
  fine = refl;
  fits = omega arith;
  small = omega arith;
  within = omega arith;
}

text-IsOpen : IsOpen ab_cab text
text-IsOpen = record {
  over = refl;
  fine = refl;
  fits = omega arith;
  small = omega arith;
  within = omega arith;
}

spaced-IsOpen : IsOpen ab_cab spaced
spaced-IsOpen = record {
  over = refl;
  fine = refl;
  fits = omega arith;
  small = omega arith;
  within = omega arith;
}

found_at_four : find (some (b'a' ∷ b'b' ∷ [])) text ≡ (true, record text { pos = 4 })
unfolding find
found_at_four = refl

abbrev minus_twelve : List ℕ
minus_twelve = b'-' ∷ b'1' ∷ b'2' ∷ b';' ∷ []

strtol_fits_example : strtol minus_twelve 0 4 ≡ record { value = negsuc 11; endp = 3; err = 0 }
strtol_fits_example =
    strtol_fits true (b'1' ∷ b'2' ∷ []) minus_twelve 0 4 (refl, (refl, (refl, tt))) (omega arith)
      (omega arith) (omega arith) (inr refl) (omega arith)

-- 9223372036854775808
abbrev too_big : List ℕ
too_big =
    b'9' ∷ b'2' ∷ b'2' ∷ b'3' ∷ b'3' ∷ b'7' ∷ b'2' ∷ b'0' ∷ b'3' ∷ b'6' ∷ b'8' ∷ b'5' ∷ b'4' ∷ b'7'
    ∷ b'7' ∷ b'5' ∷ b'8' ∷ b'0' ∷ b'8' ∷ []

get_long-put_long_example :
    (t : Sstream) × (put_long (negsuc 41) fresh ≡ some t) × (get_long (seek 0 t) ≡ (negsuc 41, t))
get_long-put_long_example = get_long-put_long (negsuc 41) (omega arith) fresh-IsOpen (omega arith)

find_lem_example :
    ((q : ℕ) × (find (some (b'a' ∷ b'b' ∷ [])) text ≡ (true, record text { pos = q }))
      × (1 ≤ q)
      × (q + 2 ≤ 6)
      × Reads ab_cab q (b'a' ∷ b'b' ∷ [])
      × ((j : ℕ) → 1 ≤ j → j < q → ¬ Reads ab_cab j (b'a' ∷ b'b' ∷ [])))
    ⊎ ((find (some (b'a' ∷ b'b' ∷ [])) text ≡ (false, text))
        × ((j : ℕ) → 1 ≤ j → j + 2 ≤ 6 → ¬ Reads ab_cab j (b'a' ∷ b'b' ∷ [])))
find_lem_example = find_lem (b'a' ∷ b'b' ∷ []) (omega arith) (omega arith) text-IsOpen
