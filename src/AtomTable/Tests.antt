-- ===== src/AtomTable/Tests.antt =====
-- Runs of the atom table, and its theorems at concrete inputs.
use deconz_lib.Base.{ℕ, ◌≡◌, refl, none, some, List, [], ◌∷◌}
use deconz_lib.AtomTable.{
  AtomTable, init, add_atom, get_atom_index, get_atom_by_index, hash, hash_loop, alloc_page_data,
}
use deconz_lib.AtomTable.Lookup.{get_atom_index-add_atom, add_atom-keeps}

abbrev first_name : List ℕ
first_name = b'a' ∷ b'b' ∷ []

abbrev second_name : List ℕ
second_name = b'a' ∷ b'r' ∷ []

-- "ab" and "ar" share their first step in a table of sixteen entries.
abbrev one_atom : AtomTable
one_atom = (add_atom first_name (init 16)).1

-- The first entry is "NUL" from the start, but its probe does not lead there: a second entry gets
-- the same bytes.
nul_added_again :
    (get_atom_by_index 0 (init 16) ≡ b'N' ∷ b'U' ∷ b'L' ∷ [])
    × (get_atom_index (b'N' ∷ b'U' ∷ b'L' ∷ []) (init 16) ≡ none)
    × ((add_atom (b'N' ∷ b'U' ∷ b'L' ∷ []) (init 16)).0 ≡ some 12)
unfolding get_atom_index get_atom_by_index init add_atom hash hash_loop alloc_page_data
nul_added_again = (refl, refl, refl)

get_atom_index-add_atom_example :
    (get_atom_index second_name (add_atom second_name one_atom).1 ≡ some 3)
    × (get_atom_by_index 3 (add_atom second_name one_atom).1 ≡ second_name)
unfolding init add_atom hash
get_atom_index-add_atom_example = get_atom_index-add_atom second_name one_atom 3 refl

add_atom-keeps_example :
    (get_atom_index first_name (add_atom second_name one_atom).1 ≡ some 2)
    × (get_atom_by_index 2 (add_atom second_name one_atom).1 ≡ first_name)
unfolding init add_atom get_atom_index hash
add_atom-keeps_example = add_atom-keeps second_name first_name one_atom 2 refl
