-- ===== src/AtomTable/AddProbe.antt =====
-- AT_AddAtom, AT_AllocPageData: the ends of the loop of an addition.
use mathlib.Core.Path.{subst}
use deconz_lib.Base.{
  ℕ, zero, suc, ◌+◌, ◌≤◌, ◌<◌, ◌≡◌, refl, ◌∙◌, inl, inr, true, false, none, some, List, arith, ◌==◌,
  Bool-cases, eq→==, length, set,
}
use deconz_lib.AtomTable.{AtomTable, max_atom_size, alloc_page_data, entry, add_loop}
use deconz_lib.AtomTable.Probe.{slot, Passes, AllPass, same_bytes_refl, tail_pass, head_pass}

pub alloc_page_data_lem :
    (size : ℕ) (t : AtomTable)
    → size ≤ max_atom_size
    → ((alloc_page_data size t).0 ≡ true)
      × ((alloc_page_data size t).1.table ≡ t.table)
      × ((alloc_page_data size t).1.count ≡ t.count)
unfolding alloc_page_data
alloc_page_data_lem size t h = (ground arith, ground arith, ground arith)

-- The table with `bytes` put into the entry `idx`.
abbrev pub added : List ℕ → ℕ → AtomTable → AtomTable
added bytes idx t =
    let t1 = (alloc_page_data (length bytes) t).1 in
    record t1 { table = set t1.table idx bytes; count = t1.count + 1 }

module _ (bytes : List ℕ) (t : AtomTable) where
  add_loop-step :
      (n i : ℕ)
      → Passes bytes (entry t (slot bytes t i))
      → add_loop (suc n) i bytes t ≡ add_loop n (i + 1) bytes t
  unfolding add_loop
  add_loop-step n i p =
      let used : (length (entry t (slot bytes t i)) == 0) ≡ false = ground (arith, p.used) in
      elim (Bool-cases (length (entry t (slot bytes t i)) == length bytes)) [
        | inl e ↦ rw (e, p.differs) refl
        | inr e ↦ rw (e, used) refl
      ]

  add_loop-here :
      (n i : ℕ)
      → entry t (slot bytes t i) ≡ bytes
      → add_loop (suc n) i bytes t ≡ (some (slot bytes t i), t)
  unfolding add_loop
  add_loop-here n i e = rw (e, eq→== (length bytes) (length bytes) refl, same_bytes_refl bytes) refl

  add_loop-free :
      (n i : ℕ)
      → 0 < length bytes
      → length bytes ≤ max_atom_size
      → length (entry t (slot bytes t i)) ≡ 0
      → add_loop (suc n) i bytes t ≡ (some (slot bytes t i), added bytes (slot bytes t i) t)
  unfolding add_loop
  add_loop-free n i z small e =
      let other : (length (entry t (slot bytes t i)) == length bytes) ≡ false = ground (arith, e) in
      rw (other, eq→== _ 0 e, (alloc_page_data_lem (length bytes) t small).0) refl

  pub add_loop-present :
      (n i k : ℕ)
      → k < n
      → AllPass bytes t i k
      → entry t (slot bytes t (i + k)) ≡ bytes
      → add_loop n i bytes t ≡ (some (slot bytes t (i + k)), t)
  add_loop-present zero i k l h e = absurd (omega arith)
  add_loop-present (suc n) i zero l h e =
      let at_start : i + 0 ≡ i = omega arith in rw at_start (add_loop-here n i (rw⁻¹ at_start e))
  add_loop-present (suc n) i (suc k) l h e =
      let shift : i + suc k ≡ i + 1 + k = omega arith in
      rw shift (
        add_loop-step n i (head_pass bytes t i k h)
        ∙ add_loop-present n (i + 1) k (omega arith) (tail_pass bytes t i k h)
            (subst (λ x. entry t (slot bytes t x) ≡ bytes) shift e))

  pub add_loop-vacant :
      (n i k : ℕ)
      → 0 < length bytes
      → length bytes ≤ max_atom_size
      → k < n
      → AllPass bytes t i k
      → length (entry t (slot bytes t (i + k))) ≡ 0
      → add_loop n i bytes t ≡ (some (slot bytes t (i + k)), added bytes (slot bytes t (i + k)) t)
  add_loop-vacant zero i k z small l h e = absurd (omega arith)
  add_loop-vacant (suc n) i zero z small l h e =
      let at_start : i + 0 ≡ i = omega arith in
      rw at_start
        (add_loop-free n i z small (subst (λ x. length (entry t (slot bytes t x)) ≡ 0) at_start e))
  add_loop-vacant (suc n) i (suc k) z small l h e =
      let shift : i + suc k ≡ i + 1 + k = omega arith in
      rw shift (
        add_loop-step n i (head_pass bytes t i k h)
        ∙ add_loop-vacant n (i + 1) k z small (omega arith) (tail_pass bytes t i k h)
            (subst (λ x. length (entry t (slot bytes t x)) ≡ 0) shift e))

  pub add_loop-exhausted : (n i : ℕ) → AllPass bytes t i n → add_loop n i bytes t ≡ (none, t)
  unfolding add_loop
  add_loop-exhausted zero i h = refl
  add_loop-exhausted (suc n) i h =
      add_loop-step n i (head_pass bytes t i n h)
      ∙ add_loop-exhausted n (i + 1) (tail_pass bytes t i n h)
