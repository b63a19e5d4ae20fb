-- ===== src/Url.antt =====
-- am_vfs.c, deconz/am_vfs.h: the path elements of a VFS url. The url is the list of its bytes, and
-- an `am_string` into it is an offset and a size. The messages of the actor model are not modelled.
pub mod Segments
pub mod Elements
pub mod Overflow
mod Tests
use deconz_lib.Base.{
  ℕ, zero, suc, ◌+◌, Option, none, some, List, [], ◌∷◌, u8, ltb, leb, ◌==◌, if◌then◌else◌, length,
  get_or, set,
}

-- AM_MAX_URL_ELEMENTS
abbrev pub max_elements : ℕ
max_elements = 16

-- `am_url_parse`; `elements` has `max_elements` entries of one byte.
pub record UrlParse : Type 0 where
  pub url : List ℕ
  pub element_count : ℕ
  pub elements : List ℕ

-- `AM_ParseUrl` returns 1, or it returns 0; `out_of_bounds` is an access to an element that the
-- array does not have.
pub data Outcome : Type 0 where
  ok too_many : UrlParse → Outcome
  out_of_bounds : Outcome

-- The loop, over the bytes that are left.
pub parse_loop : List ℕ → UrlParse → Outcome
parse_loop [] up = ok up
parse_loop (c ∷ cs) up =
    let k = up.element_count in
    let next =
      parse_loop cs (record up { element_count = k + 1; elements = set up.elements (k + 1) 0 }) in
    let longer =
      parse_loop cs
        (record up { elements = set up.elements k (u8 (get_or up.elements k 0 + 1)) }) in
    if c == b'/'
    then if ltb max_elements (k + 1)
      then too_many up
      else if ltb (k + 1) max_elements
      then next
      else out_of_bounds
    else if ltb k max_elements
    then longer
    else out_of_bounds

unfoldable pub parse_url : UrlParse → Outcome
unfolding parse_loop
parse_url up =
    elim (parse_loop up.url (record up { element_count = 0; elements = set up.elements 0 0 })) [
      | ok t ↦
          ok (if length up.url == 0 then t else record t { element_count = t.element_count + 1 })
      | too_many t ↦ too_many t
      | out_of_bounds ↦ out_of_bounds
    ]

-- `am_string`, with its data as an offset into the url.
pub record AmString : Type 0 where
  pub size : ℕ
  pub offset : Option ℕ

-- `pos += up->elements[i] + 1`, for each `i` below the index.
unfoldable pub offset_of : List ℕ → ℕ → ℕ
offset_of elements zero = 0
offset_of elements (suc i) = offset_of elements i + (get_or elements i 0 + 1)

unfoldable pub url_element_at : UrlParse → ℕ → AmString
unfolding offset_of
url_element_at up idx =
    if leb up.element_count idx
    then record { size = 0; offset = none }
    else record { size = get_or up.elements idx 0; offset = some (offset_of up.elements idx) }
