-- ===== src/AtomTable/Count.antt =====
-- AT_AddAtom: the count of the atoms, and the guard that compares it with the size of the table.
use mathlib.Core.Path.{subst}
use deconz_lib.Base.{
  ℕ, zero, suc, ◌+◌, ◌≤◌, ◌<◌, ◌≡◌, refl, sym, ap, ◌∙◌, some, List, [], ◌∷◌, arith, ltb,
  if◌then◌else◌, length, get_or, set, replicate, lt→ltb, le→leb,
}
use deconz_lib.AtomTable.{AtomTable, max_atom_size, add_atom, init, alloc_page_data}
use deconz_lib.AtomTable.AddProbe.{alloc_page_data_lem, add_loop-present}
use deconz_lib.AtomTable.Addition.{refused, known, stored, addition, slot_lt, added-table}
use deconz_lib.AtomTable.Probe.{slot}
use deconz_lib.AtomTable.Lookup.{IsAt, IsAt-add_self}

-- The number of entries that hold an atom.
pub used : List (List ℕ) → ℕ
used [] = 0
used (a ∷ xs) = let rest = used xs in if ltb 0 (length a) then suc rest else rest

used_le : (xs : List (List ℕ)) → used xs ≤ length xs
unfolding used
used_le [] = omega arith
used_le (a ∷ xs) = ground (arith, used_le xs)

used-set :
    (xs : List (List ℕ)) (i : ℕ) (v : List ℕ)
    → i < length xs
    → length (get_or xs i []) ≡ 0
    → 0 < length v
    → used (set xs i v) ≡ suc (used xs)
unfolding used
used-set [] i v l e z = absurd (omega arith)
used-set (a ∷ xs) zero v l e z = ground (arith, e)
used-set (a ∷ xs) (suc i) v l e z = ground (arith, used-set xs i v)

-- The count is the number of entries with an atom, less the first one.
abbrev pub IsCounted : AtomTable → Type 0
IsCounted t = t.count + 1 ≡ used t.table

pub add_atom-IsCounted :
    (bytes : List ℕ) (t : AtomTable) → IsCounted t → IsCounted (add_atom bytes t).1
add_atom-IsCounted bytes t c = elim (addition bytes t) [
  | refused e ↦ subst (λ r. IsCounted r.1) (sym e) c
  | known k atom l h same e ↦ subst (λ r. IsCounted r.1) (sym e) c
  | stored k atom l h free e ↦
      let count = (alloc_page_data_lem (length bytes) t atom.1).2 in
      let filled = used-set t.table _ bytes (slot_lt bytes t (0 + k) k l) free atom.0 in
      subst (λ r. IsCounted r.1) (sym e)
        (rw (added-table bytes (slot bytes t (0 + k)) t atom.1, filled, count) (omega (arith, c)))
]

used-replicate : (n : ℕ) → used (replicate n []) ≡ 0
unfolding used
used-replicate zero = refl
used-replicate (suc n) = used-replicate n

pub init-IsCounted : (n : ℕ) → 0 < n → IsCounted (init n)
unfolding init alloc_page_data used
init-IsCounted zero h = absurd (omega arith)
init-IsCounted (suc n) h = omega (arith, used-replicate n)

add_atom-known :
    {bytes : List ℕ} {u : AtomTable} {i : ℕ}
    → IsCounted u
    → IsAt bytes u i
    → add_atom bytes u ≡ (some i, u)
unfolding add_atom
add_atom-known {bytes} {u} {i} c p =
    let room : u.count < length u.table = omega (arith, used_le u.table, c) in
    rw
      (
        lt→ltb 0 (length bytes) p.atom.0,
        le→leb (length bytes) max_atom_size p.atom.1,
        lt→ltb u.count (length u.table) room,
      )
      (add_loop-present bytes u (length u.table) 0 p.step p.inside p.before p.here
        ∙ ap (λ j. (some j, u)) p.index)

-- An atom that was added may be added again, when the count of the table is right: the index is
-- the same, and the table does not change.
pub add_atom-twice :
    (bytes : List ℕ) (t : AtomTable) (i : ℕ)
    → IsCounted t
    → (add_atom bytes t).0 ≡ some i
    → add_atom bytes (add_atom bytes t).1 ≡ (some i, (add_atom bytes t).1)
add_atom-twice bytes t i c found =
    add_atom-known (add_atom-IsCounted bytes t c) (IsAt-add_self t found)
