-- ===== src/AtomTable/Lookup.antt =====
-- AT_AddAtom, AT_GetAtomIndex, AT_GetAtomByIndex: where the probe for an atom ends, before and
-- behind an addition.
use mathlib.Core.Path.{subst}
use mathlib.Core.Option.{none-ne-some}
use deconz_lib.Base.{
  ℕ, ◌+◌, ◌≤◌, ◌<◌, ◌≡◌, refl, sym, ap, ◌∙◌, inl, inr, ◌&&◌, none, some, List, arith, ltb, leb,
  Bool-cases, length, lt→ltb, le→leb,
}
use deconz_lib.AtomTable.{
  AtomTable, max_atom_size, entry, add_atom, get_atom_index, get_atom_by_index, get_loop,
}
use deconz_lib.AtomTable.Probe.{
  slot, AllPass, exhausted, present, vacant, probe, get_loop-present, get_loop-vacant,
  get_loop-exhausted,
}
use deconz_lib.AtomTable.AddProbe.{added}
use deconz_lib.AtomTable.Addition.{
  IsAtom, refused, known, stored, addition, slot_lt, added-length, entry-added_self,
  entry-added_used, pass-added, slot-added,
}

-- The probe for an atom ends at the index `i`, which has its bytes.
pub record IsAt (bytes : List ℕ) (t : AtomTable) (i : ℕ) : Type 0 where
  pub step : ℕ
  pub atom : IsAtom bytes
  pub inside : step < length t.table
  pub before : AllPass bytes t 0 step
  pub here : entry t (slot bytes t (0 + step)) ≡ bytes
  pub index : slot bytes t (0 + step) ≡ i

lookup_at :
    {bytes : List ℕ} {t : AtomTable} {i : ℕ}
    → IsAt bytes t i
    → (get_atom_index bytes t ≡ some i) × (get_atom_by_index i t ≡ bytes)
unfolding get_atom_index get_atom_by_index
lookup_at {bytes} {t} {i} p =
    let low : i < length t.table =
      subst (λ x. x < length t.table) p.index (slot_lt bytes t (0 + p.step) p.step p.inside) in
    let found = get_loop-present bytes t (length t.table) 0 p.step p.inside p.before p.here in
    (
      rw (lt→ltb 0 (length bytes) p.atom.0, le→leb (length bytes) max_atom_size p.atom.1)
          (found ∙ ap some p.index),
      rw (lt→ltb i (length t.table) low) (subst (λ x. entry t x ≡ bytes) p.index p.here),
    )

IsAt-added :
    (bytes : List ℕ) (idx : ℕ) {other : List ℕ} {t : AtomTable} {i : ℕ}
    → length bytes ≤ max_atom_size
    → length (entry t idx) ≡ 0
    → IsAt other t i
    → IsAt other (added bytes idx t) i
IsAt-added bytes idx {other} {t} {i} small free p =
    let same_slot = slot-added bytes idx t small other (0 + p.step) in
    let used : 0 < length (entry t (slot other t (0 + p.step))) = rw p.here p.atom.0 in
    record {
      step = p.step;
      atom = p.atom;
      inside = rw (added-length bytes idx t small) p.inside;
      before = pass-added bytes idx t small other p.step free p.before;
      here =
          ap (entry (added bytes idx t)) same_slot
          ∙ entry-added_used bytes idx t small _ free used
          ∙ p.here;
      index = same_slot ∙ p.index;
    }

IsAt-add_atom :
    (bytes : List ℕ) {other : List ℕ} {t : AtomTable} {i : ℕ}
    → IsAt other t i
    → IsAt other (add_atom bytes t).1 i
IsAt-add_atom bytes {other} {t} {i} p = elim (addition bytes t) [
  | refused e ↦ subst (λ r. IsAt other r.1 i) (sym e) p
  | known k atom l h same e ↦ subst (λ r. IsAt other r.1 i) (sym e) p
  | stored k atom l h free e ↦
      subst (λ r. IsAt other r.1 i) (sym e) (IsAt-added bytes _ atom.1 free p)
]

IsAt-stored :
    {bytes : List ℕ} (t : AtomTable) {k : ℕ}
    → IsAtom bytes
    → k < length t.table
    → AllPass bytes t 0 k
    → length (entry t (slot bytes t (0 + k))) ≡ 0
    → IsAt bytes (added bytes (slot bytes t (0 + k)) t) (slot bytes t (0 + k))
IsAt-stored {bytes} t {k} atom l h free =
    let idx = slot bytes t (0 + k) in
    let same_slot = slot-added bytes idx t atom.1 bytes (0 + k) in
    record {
      step = k;
      atom = atom;
      inside = rw (added-length bytes idx t atom.1) l;
      before = pass-added bytes idx t atom.1 bytes k free h;
      here =
          ap (entry (added bytes idx t)) same_slot
          ∙ entry-added_self bytes idx t atom.1 (slot_lt bytes t (0 + k) k l);
      index = same_slot;
    }

some-inj : (a b : ℕ) → some a ≡ some b → a ≡ b
some-inj a b e = ap (λ o. elim o [ none ↦ 0 | some x ↦ x ]) e

pub IsAt-add_self :
    {bytes : List ℕ} (t : AtomTable) {i : ℕ}
    → (add_atom bytes t).0 ≡ some i
    → IsAt bytes (add_atom bytes t).1 i
IsAt-add_self {bytes} t {i} found = elim (addition bytes t) [
  | refused e ↦ absurd (none-ne-some i (sym (ap (λ r. r.0) e) ∙ found))
  | known k atom l h same e ↦
      let index = some-inj _ i (sym (ap (λ r. r.0) e) ∙ found) in
      subst (λ r. IsAt bytes r.1 i) (sym e)
        (record { step = k; atom = atom; inside = l; before = h; here = same; index = index })
  | stored k atom l h free e ↦
      let index = some-inj _ i (sym (ap (λ r. r.0) e) ∙ found) in
      subst (λ r. IsAt bytes r.1 i) (sym e)
        (subst (IsAt bytes _) index (IsAt-stored t atom l h free))
]

IsAt-found :
    {bytes : List ℕ} {t : AtomTable} {i : ℕ} → get_atom_index bytes t ≡ some i → IsAt bytes t i
unfolding get_atom_index
IsAt-found {bytes} {t} {i} found =
    elim (Bool-cases (ltb 0 (length bytes) && leb (length bytes) max_atom_size)) [
      | inr e ↦ absurd (none-ne-some i (sym (rw e refl) ∙ found))
      | inl e ↦
          let atom : IsAtom bytes = (ground (arith, e), ground (arith, e)) in
          let looped : get_loop (length t.table) 0 bytes t ≡ some i = sym (rw e refl) ∙ found in
          elim (probe (length t.table) 0 bytes t) [
            | exhausted h ↦
                absurd (none-ne-some i (sym (get_loop-exhausted bytes t _ 0 h) ∙ looped))
            | vacant k l h free ↦
                absurd
                  (none-ne-some i (sym (get_loop-vacant bytes t _ 0 k atom.0 l h free) ∙ looped))
            | present k l h same ↦ record {
              step = k;
              atom = atom;
              inside = l;
              before = h;
              here = same;
              index = some-inj _ i (sym (get_loop-present bytes t _ 0 k l h same) ∙ looped);
            }
          ]
    ]

-- An atom that was added is found at the index that the addition gave, and that index leads back
-- to the atom's bytes.
pub get_atom_index-add_atom :
    (bytes : List ℕ) (t : AtomTable) (i : ℕ)
    → (add_atom bytes t).0 ≡ some i
    → (get_atom_index bytes (add_atom bytes t).1 ≡ some i)
      × (get_atom_by_index i (add_atom bytes t).1 ≡ bytes)
get_atom_index-add_atom bytes t i e = lookup_at (IsAt-add_self t e)

-- Whatever atom is added, the index of an atom that was found before stays its index, and leads to
-- the same bytes.
pub add_atom-keeps :
    (bytes other : List ℕ) (t : AtomTable) (i : ℕ)
    → get_atom_index other t ≡ some i
    → (get_atom_index other (add_atom bytes t).1 ≡ some i)
      × (get_atom_by_index i (add_atom bytes t).1 ≡ other)
add_atom-keeps bytes other t i e = lookup_at (IsAt-add_atom bytes (IsAt-found e))
