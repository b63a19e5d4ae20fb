-- ===== src/Url/Elements.antt =====
-- AM_ParseUrl, AM_UrlElementAt: urls with few and short segments.
use deconz_lib.Base.{
  ℕ, zero, suc, ◌+◌, ◌-◌, ◌≤◌, ◌<◌, ◌≡◌, refl, sym, ap, ◌∙◌, ◌⊎◌, inl, inr, true, false, none, some,
  List, [], ◌∷◌, arith, u8, IsByte, ◌==◌, if◌then◌else◌, Bool-cases, lt→leb, length, get_or, set,
  take, drop, store, All, length-set, get_or-set_self, length-map, set-get_or, store-set,
  get_or-store_in,
}
use mathlib.Core.Path.{ap₂}
use native.Mathlib.Decide.{dec_lt}
use native.Mathlib.Numerals.{add-one}
use deconz_lib.Url.{UrlParse, ok, max_elements, parse_loop, parse_url, url_element_at, offset_of}
use deconz_lib.Url.Segments.{segments, grow, sizes, segments_some, join-segments, slice-join}

-- The sizes of the segments, where the first goes on from `e` bytes.
abbrev sizes_from : ℕ → List ℕ → List ℕ
sizes_from e [] = e ∷ []
sizes_from e (c ∷ cs) =
    let next = sizes_from 0 cs in
    let longer = sizes_from (e + 1) cs in if c == b'/' then e ∷ next else longer

abbrev add_first : ℕ → List ℕ → List ℕ
add_first e [] = []
add_first e (n ∷ ns) = (e + n) ∷ ns

sizes-grow :
    (c : ℕ) (ss : List (List ℕ)) (e : ℕ)
    → 0 < length ss
    → add_first e (sizes (grow c ss)) ≡ add_first (e + 1) (sizes ss)
sizes-grow c [] e h = absurd (omega arith)
sizes-grow c (s ∷ ss) e h = ap (λ n. n ∷ sizes ss) (omega arith)

add_first_zero : (ns : List ℕ) → add_first 0 ns ≡ ns
add_first_zero [] = refl
add_first_zero (n ∷ ns) = ap (λ k. k ∷ ns) (omega arith)

sizes_from-sizes : (cs : List ℕ) (e : ℕ) → sizes_from e cs ≡ add_first e (sizes (segments cs))
sizes_from-sizes [] e = ap (λ n. n ∷ []) (omega arith)
sizes_from-sizes (c ∷ cs) e = elim (Bool-cases (c == b'/')) [
  | inl slash ↦
      rw slash
        (ap₂ ◌∷◌ (omega arith) (sizes_from-sizes cs 0 ∙ add_first_zero (sizes (segments cs))))
  | inr other ↦
      rw other (sizes_from-sizes cs (e + 1) ∙ sym (sizes-grow c (segments cs) e (segments_some cs)))
]

sizes_from_some : (cs : List ℕ) (e : ℕ) → 0 < length (sizes_from e cs)
sizes_from_some [] e = omega arith
sizes_from_some (c ∷ cs) e = ground (arith, sizes_from_some cs (e + 1))

-- The first size counts on from `e`.
first-IsByte : (cs : List ℕ) (e : ℕ) → All IsByte (sizes_from e cs) → IsByte e
first-IsByte [] e b = b.0
first-IsByte (c ∷ cs) e b = ground (arith, first-IsByte cs (e + 1))

-- What one byte does, where the array has the element.
parse_slash :
    (c : ℕ) (cs : List ℕ) (up : UrlParse)
    → (c == b'/') ≡ true
    → up.element_count + 1 < max_elements
    → parse_loop (c ∷ cs) up
      ≡ parse_loop cs (record up {
        element_count = up.element_count + 1;
        elements = set up.elements (up.element_count + 1) 0;
      })
unfolding parse_loop
parse_slash c cs up slash h = ground arith

parse_other :
    (c : ℕ) (cs : List ℕ) (up : UrlParse)
    → (c == b'/') ≡ false
    → up.element_count < max_elements
    → parse_loop (c ∷ cs) up
      ≡ parse_loop cs (record up {
        elements =
            set up.elements up.element_count (u8 (get_or up.elements up.element_count 0 + 1));
      })
unfolding parse_loop
parse_other c cs up other h = ground arith

-- With room for all of the segments, and a byte for each size, the loop leaves their sizes.
parse_loop-sizes :
    (cs : List ℕ) (e : ℕ) (up : UrlParse)
    → get_or up.elements up.element_count 0 ≡ e
    → length up.elements ≡ max_elements
    → up.element_count + length (sizes_from e cs) ≤ max_elements
    → All IsByte (sizes_from e cs)
    → parse_loop cs up
      ≡ ok (record up {
        element_count = up.element_count + length (sizes_from e cs) - 1;
        elements = store up.elements up.element_count (sizes_from e cs);
      })
parse_loop-sizes [] e up h l room b =
    unfold parse_loop in ground (arith, set-get_or up.elements up.element_count 0)
parse_loop-sizes (c ∷ cs) e up h l room b = elim (Bool-cases (c == b'/')) [
  | inl slash ↦
      let b' : All IsByte (sizes_from 0 cs) = ground arith in
      let room' : up.element_count + 1 + length (sizes_from 0 cs) ≤ max_elements = ground arith in
      parse_slash c cs up slash (omega (arith, sizes_from_some cs 0))
      ∙ parse_loop-sizes cs 0
          (record up {
            element_count = up.element_count + 1;
            elements = set up.elements (up.element_count + 1) 0;
          })
          (get_or-set_self up.elements (up.element_count + 1) 0 0
            (omega (arith, sizes_from_some cs 0)))
          (length-set up.elements (up.element_count + 1) 0 ∙ l) room' b'
      ∙ ground (
        arith,
        add-one up.element_count,
        sizes_from_some cs 0,
        store-set (sizes_from 0 cs) up.elements (up.element_count + 1) 0,
        set-get_or up.elements up.element_count 0,
      )
  | inr other ↦
      let b' : All IsByte (sizes_from (e + 1) cs) = ground arith in
      let room' : up.element_count + length (sizes_from (e + 1) cs) ≤ max_elements = ground arith in
      parse_other c cs up other (omega (arith, sizes_from_some cs (e + 1)))
      ∙ ap (λ v. parse_loop cs (record up { elements = set up.elements up.element_count v }))
          (ground (arith, first-IsByte cs (e + 1) b'))
      ∙ parse_loop-sizes cs (e + 1)
          (record up { elements = set up.elements up.element_count (e + 1) })
          (get_or-set_self up.elements up.element_count (e + 1) 0
            (omega (arith, sizes_from_some cs (e + 1))))
          (length-set up.elements up.element_count (e + 1) ∙ l) room' b'
      ∙ ground (
        arith,
        sizes_from_some cs (e + 1),
        store-set (sizes_from (e + 1) cs) up.elements up.element_count (e + 1),
      )
]

-- A url of at most sixteen segments, each of at most 255 bytes, over an array of sixteen elements.
pub record IsShort (up : UrlParse) : Type 0 where
  pub array : length up.elements ≡ max_elements
  pub few : length (segments up.url) ≤ max_elements
  pub small : All IsByte (sizes (segments up.url))
  pub some_byte : 0 < length up.url

pub parse_url-sizes :
    {up : UrlParse}
    → IsShort up
    → parse_url up
      ≡ ok (record up {
        element_count = length (segments up.url);
        elements = store up.elements 0 (sizes (segments up.url));
      })
unfolding parse_url
parse_url-sizes {up} s = ground (
  arith,
  parse_loop-sizes up.url 0 (record up { element_count = 0; elements = set up.elements 0 0 })
      (get_or-set_self up.elements 0 0 0 (omega (arith, s.array)))
      (length-set up.elements 0 0 ∙ s.array),
  sizes_from-sizes up.url 0 ∙ add_first_zero (sizes (segments up.url)),
  length-map (length {A = ℕ}) (segments up.url),
  segments_some up.url,
  store-set (sizes (segments up.url)) up.elements 0 0,
)

offset_of-store :
    (vs xs : List ℕ) (i : ℕ)
    → i ≤ length vs
    → length vs ≤ length xs
    → offset_of (store xs 0 vs) i ≡ offset_of vs i
unfolding offset_of
offset_of-store vs xs zero h r = refl
offset_of-store vs xs (suc i) h r =
    ap₂ (λ a b. a + (b + 1)) (offset_of-store vs xs i (omega arith) r)
      (let at : i ≡ 0 + i = omega arith in
        ap (λ k. get_or (store xs 0 vs) k 0) at
        ∙ get_or-store_in vs xs 0 i 0 (omega arith) (omega arith))

get_or-sizes : (ss : List (List ℕ)) (i : ℕ) → get_or (sizes ss) i 0 ≡ length (get_or ss i [])
get_or-sizes [] i = refl
get_or-sizes (s ∷ ss) zero = refl
get_or-sizes (s ∷ ss) (suc i) = get_or-sizes ss i

element_behind :
    (t : UrlParse) (i : ℕ)
    → t.element_count ≤ i
    → url_element_at t i ≡ record { size = 0; offset = none }
unfolding url_element_at
element_behind t i h = ground arith

element_inside :
    (t : UrlParse) (i : ℕ) {n p : ℕ}
    → get_or t.elements (0 + i) 0 ≡ n
    → offset_of t.elements i ≡ p
    → i < t.element_count
    → url_element_at t i ≡ record { size = n; offset = some p }
unfolding url_element_at
element_inside t i e q h =
    let at : i ≡ 0 + i = omega arith in
    rw (lt→leb t.element_count i h)
      (λ j. record { size = (ap (λ k. get_or t.elements k 0) at ∙ e) j; offset = some (q j) })

-- After `AM_ParseUrl` on a url that is not empty and has at most sixteen segments, each of at most
-- 255 bytes, `AM_UrlElementAt` gives at the index of a segment between the slashes its size, and
-- where its bytes stand in the url. At every index behind the last segment it gives the null string.
pub url_element_at-segments :
    (i : ℕ) {up : UrlParse}
    → IsShort up
    → (t : UrlParse) × (parse_url up ≡ ok t)
      × ((length (segments up.url) ≤ i) × (url_element_at t i ≡ record { size = 0; offset = none })
          ⊎ (i < length (segments up.url))
            × (p : ℕ) × (url_element_at t i
                ≡ record { size = length (get_or (segments up.url) i []); offset = some p })
            × (take (length (get_or (segments up.url) i [])) (drop p up.url)
                ≡ get_or (segments up.url) i []))
url_element_at-segments i {up} s = (
  parsed,
  parse_url-sizes s,
  elim (dec_lt i (length (segments up.url))) [
    | no behind ↦ inl (omega arith, at_behind behind)
    | yes inside ↦
        inr (inside, offset_of (sizes (segments up.url)) i, at_segment inside, bytes inside)
  ],
)
  where
    parsed : UrlParse
    parsed = record up {
      element_count = length (segments up.url);
      elements = store up.elements 0 (sizes (segments up.url));
    }

    count : length (sizes (segments up.url)) ≡ length (segments up.url)
    count = length-map (length {A = ℕ}) (segments up.url)

    at_behind :
        ¬ (i < length (segments up.url))
        → url_element_at parsed i ≡ record { size = 0; offset = none }
    at_behind h = element_behind parsed i (omega arith)

    at_segment :
        i < length (segments up.url)
        → url_element_at parsed i ≡ record {
          size = length (get_or (segments up.url) i []);
          offset = some (offset_of (sizes (segments up.url)) i);
        }
    at_segment h =
        element_inside parsed i
          (get_or-store_in (sizes (segments up.url)) up.elements 0 i 0 (omega (arith, count))
              (omega (arith, count, s.few, s.array))
            ∙ get_or-sizes (segments up.url) i)
          (offset_of-store (sizes (segments up.url)) up.elements i (omega (arith, count))
            (omega (arith, count, s.few, s.array)))
          h

    bytes :
        i < length (segments up.url)
        → take
            (length (get_or (segments up.url) i []))
            (drop (offset_of (sizes (segments up.url)) i) up.url)
          ≡ get_or (segments up.url) i []
    bytes h =
        ap₂ (λ n u. take n (drop (offset_of (sizes (segments up.url)) i) u))
          (sym (get_or-sizes (segments up.url) i)) (sym (join-segments up.url))
        ∙ slice-join (segments up.url) i h
