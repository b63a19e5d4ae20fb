-- ===== src/Url/Overflow.antt =====
-- AM_ParseUrl: urls with more slashes than there are elements, and the check against the limit.
use deconz_lib.Base.{
  ℕ, suc, ◌+◌, ◌≤◌, ◌<◌, ◌≡◌, refl, ◌≢◌, Bool, true, false, List, [], ◌∷◌, arith, u8, ◌==◌,
  if◌then◌else◌, get_or, set,
}
use deconz_lib.Url.{UrlParse, Outcome, too_many, out_of_bounds, max_elements, parse_loop, parse_url}

unfoldable pub slashes : List ℕ → ℕ
slashes [] = 0
slashes (c ∷ cs) = let rest = slashes cs in if c == b'/' then suc rest else rest

abbrev refused : Outcome → Bool
refused (too_many t) = true
refused _ = false

parse_loop_overflows :
    (cs : List ℕ) (up : UrlParse)
    → up.element_count < max_elements
    → max_elements ≤ up.element_count + slashes cs
    → parse_loop cs up ≡ out_of_bounds
unfolding parse_loop slashes
parse_loop_overflows [] up h s = absurd (omega arith)
parse_loop_overflows (c ∷ cs) up h s = ground (
  arith,
  parse_loop_overflows cs (record up {
    element_count = up.element_count + 1;
    elements = set up.elements (up.element_count + 1) 0;
  }),
  parse_loop_overflows cs (record up {
    elements = set up.elements up.element_count (u8 (get_or up.elements up.element_count 0 + 1));
  }),
)

-- On every url with sixteen slashes or more `AM_ParseUrl` accesses an element that the array does
-- not have.
pub parse_url_overflows :
    (up : UrlParse) → max_elements ≤ slashes up.url → parse_url up ≡ out_of_bounds
unfolding parse_url
parse_url_overflows up s = ground (
  arith,
  parse_loop_overflows up.url (record up { element_count = 0; elements = set up.elements 0 0 }),
)

parse_loop_never_refuses :
    (cs : List ℕ) (up : UrlParse)
    → up.element_count < max_elements
    → refused (parse_loop cs up) ≡ false
unfolding parse_loop
parse_loop_never_refuses [] up h = refl
parse_loop_never_refuses (c ∷ cs) up h = ground (
  arith,
  parse_loop_never_refuses cs (record up {
    element_count = up.element_count + 1;
    elements = set up.elements (up.element_count + 1) 0;
  }),
  parse_loop_never_refuses cs (record up {
    elements = set up.elements up.element_count (u8 (get_or up.elements up.element_count 0 + 1));
  }),
)

-- The answer for too many elements is never given.
pub parse_url_never_refuses : (up t : UrlParse) → parse_url up ≢ too_many t
unfolding parse_url
parse_url_never_refuses up t e = ground (
  arith,
  parse_loop_never_refuses up.url (record up { element_count = 0; elements = set up.elements 0 0 }),
)
