-- ===== src/AtomTable/Addition.antt =====
-- AT_AddAtom: the three ways in which an addition ends, and the entries and probes behind it.
use native.Mathlib.Nat.{mod-lt}
use deconz_lib.Base.{
  ℕ, ◌+◌, ◌%◌, ◌≤◌, ◌<◌, ◌≡◌, refl, ap, ◌∙◌, inl, inr, ◌&&◌, none, some, List, [], arith, ltb, leb,
  Bool-cases, length, get_or, set, length-set, get_or-set_self, get_or-set_ne,
}
use deconz_lib.AtomTable.{AtomTable, hash, max_atom_size, entry, add_atom}
use deconz_lib.AtomTable.Probe.{slot, AllPass, exhausted, present, vacant, probe}
use deconz_lib.AtomTable.AddProbe.{
  added, alloc_page_data_lem, add_loop-present, add_loop-vacant, add_loop-exhausted,
}

abbrev pub IsAtom : List ℕ → Type 0
IsAtom bytes = (0 < length bytes) × (length bytes ≤ max_atom_size)

-- How an addition ends.
pub data Addition (bytes : List ℕ) (t : AtomTable) : Type 0 where
  refused : add_atom bytes t ≡ (none, t) → Addition bytes t
  known :
      (k : ℕ)
      → IsAtom bytes
      → k < length t.table
      → AllPass bytes t 0 k
      → entry t (slot bytes t (0 + k)) ≡ bytes
      → add_atom bytes t ≡ (some (slot bytes t (0 + k)), t)
      → Addition bytes t
  stored :
      (k : ℕ)
      → IsAtom bytes
      → k < length t.table
      → AllPass bytes t 0 k
      → length (entry t (slot bytes t (0 + k))) ≡ 0
      → add_atom bytes t ≡ (some (slot bytes t (0 + k)), added bytes (slot bytes t (0 + k)) t)
      → Addition bytes t

pub addition : (bytes : List ℕ) (t : AtomTable) → Addition bytes t
unfolding add_atom
addition bytes t =
    elim (Bool-cases
      (ltb 0 (length bytes) && leb (length bytes) max_atom_size && ltb t.count (length t.table))) [
        | inr e ↦ refused (rw e refl)
        | inl e ↦
            let atom : IsAtom bytes = (ground (arith, e), ground (arith, e)) in
            elim (probe (length t.table) 0 bytes t) [
              | exhausted h ↦ refused (rw e (add_loop-exhausted bytes t _ 0 h))
              | present k l h same ↦
                  known k atom l h same (rw e (add_loop-present bytes t _ 0 k l h same))
              | vacant k l h free ↦
                  stored k atom l h free
                    (rw e (add_loop-vacant bytes t _ 0 k atom.0 atom.1 l h free))
            ]
      ]

module _ (bytes : List ℕ) (idx : ℕ) (t : AtomTable) (small : length bytes ≤ max_atom_size) where
  pub added-table : (added bytes idx t).table ≡ set t.table idx bytes
  added-table = ap (λ x. set x idx bytes) (alloc_page_data_lem (length bytes) t small).1

  pub added-length : length (added bytes idx t).table ≡ length t.table
  added-length = ap length added-table ∙ length-set t.table idx bytes

  pub entry-added_self : idx < length t.table → entry (added bytes idx t) idx ≡ bytes
  entry-added_self l =
      ap (λ x. get_or x idx []) added-table ∙ get_or-set_self t.table idx bytes [] l

  pub entry-added_used :
      (j : ℕ)
      → length (entry t idx) ≡ 0
      → 0 < length (entry t j)
      → entry (added bytes idx t) j ≡ entry t j
  entry-added_used j free used =
      ap (λ x. get_or x j []) added-table
      ∙ get_or-set_ne t.table idx j bytes [] (λ e.
        let same : length (entry t idx) ≡ length (entry t j) = ap (λ x. length (entry t x)) e in
        omega arith)

  -- The probe for an atom goes past the same entries as before the addition.
  pub pass-added :
      (other : List ℕ) (k : ℕ)
      → length (entry t idx) ≡ 0
      → AllPass other t 0 k
      → AllPass other (added bytes idx t) 0 k
  pass-added other k free h j l =
      let p = h j l in rw (added-length, entry-added_used (slot other t (0 + j)) free p.used) p

  pub slot-added : (other : List ℕ) (k : ℕ) → slot other (added bytes idx t) k ≡ slot other t k
  slot-added other k = ap (λ n. (hash other + k) % n) added-length

pub slot_lt :
    (bytes : List ℕ) (t : AtomTable) (n k : ℕ)
    → k < length t.table
    → slot bytes t n < length t.table
slot_lt bytes t n k l = mod-lt (hash bytes + n) (omega arith)
