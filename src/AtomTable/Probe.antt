-- ===== src/AtomTable/Probe.antt =====
-- AT_AddAtom, AT_GetAtomIndex: where their loops stop.
use mathlib.Core.Path.{subst}
use deconz_lib.Base.{
  ℕ, zero, suc, ◌+◌, ◌%◌, ◌<◌, ◌≡◌, refl, sym, ap, ◌∙◌, ◌≢◌, inl, inr, true, false, none, some,
  List, [], ◌∷◌, arith, ltb, Bool-cases, eq→==, length, ltb→lt,
}
use deconz_lib.AtomTable.{AtomTable, hash, same_bytes, entry, get_loop}

pub same_bytes_refl : (xs : List ℕ) → same_bytes xs xs ≡ true
unfolding same_bytes
same_bytes_refl [] = refl
same_bytes_refl (x ∷ xs) = ground (arith, same_bytes_refl xs)

same_bytes→eq : (xs ys : List ℕ) → same_bytes xs ys ≡ true → xs ≡ ys
unfolding same_bytes
same_bytes→eq [] [] h = refl
same_bytes→eq [] (y ∷ ys) h = cc
same_bytes→eq (x ∷ xs) [] h = cc
same_bytes→eq (x ∷ xs) (y ∷ ys) h = ground (arith, same_bytes→eq xs ys)

same_bytes-length : (xs ys : List ℕ) → length ys ≢ length xs → same_bytes xs ys ≡ false
same_bytes-length xs ys h = elim (Bool-cases (same_bytes xs ys)) [
  | inl e ↦ absurd (h (ap length (sym (same_bytes→eq xs ys e))))
  | inr e ↦ e
]

-- The entry of step `i` of the probe for `bytes`.
abbrev pub slot : List ℕ → AtomTable → ℕ → ℕ
slot bytes t i = (hash bytes + i) % length t.table

-- An entry that the probe for `bytes` goes past: one of another atom.
pub record Passes (bytes : List ℕ) (a : List ℕ) : Type 0 where
  pub used : 0 < length a
  pub differs : same_bytes bytes a ≡ false

abbrev pub AllPass : List ℕ → AtomTable → ℕ → ℕ → Type 0
AllPass bytes t i k = (j : ℕ) → j < k → Passes bytes (entry t (slot bytes t (i + j)))

-- The end of the probe for `bytes` in the `n` steps from step `i` on: no step stops it, the
-- entry of step `i + k` is the atom, or it is free.
pub data Probe (n i : ℕ) (bytes : List ℕ) (t : AtomTable) : Type 0 where
  exhausted : AllPass bytes t i n → Probe n i bytes t
  present :
      (k : ℕ)
      → k < n
      → AllPass bytes t i k
      → entry t (slot bytes t (i + k)) ≡ bytes
      → Probe n i bytes t
  vacant :
      (k : ℕ)
      → k < n
      → AllPass bytes t i k
      → length (entry t (slot bytes t (i + k))) ≡ 0
      → Probe n i bytes t

shift_pass :
    (bytes : List ℕ) (t : AtomTable) (i k : ℕ)
    → Passes bytes (entry t (slot bytes t i))
    → AllPass bytes t (i + 1) k
    → AllPass bytes t i (suc k)
shift_pass bytes t i k p h zero l =
    let at_start : i ≡ i + 0 = omega arith in
    subst (λ x. Passes bytes (entry t (slot bytes t x))) at_start p
shift_pass bytes t i k p h (suc j) l =
    let shift : i + 1 + j ≡ i + suc j = omega arith in
    subst (λ x. Passes bytes (entry t (slot bytes t x))) shift (h j (omega arith))

shift_entry :
    (bytes : List ℕ) (t : AtomTable) (P : List ℕ → Type 0) (i k : ℕ)
    → P (entry t (slot bytes t (i + 1 + k)))
    → P (entry t (slot bytes t (i + suc k)))
shift_entry bytes t P i k =
    let shift : i + 1 + k ≡ i + suc k = omega arith in
    subst (λ x. P (entry t (slot bytes t x))) shift

here_entry :
    (bytes : List ℕ) (t : AtomTable) (P : List ℕ → Type 0) (i : ℕ)
    → P (entry t (slot bytes t i))
    → P (entry t (slot bytes t (i + 0)))
here_entry bytes t P i =
    let at_start : i ≡ i + 0 = omega arith in subst (λ x. P (entry t (slot bytes t x))) at_start

pub probe : (n i : ℕ) (bytes : List ℕ) (t : AtomTable) → Probe n i bytes t
probe zero i bytes t = exhausted (λ j l. absurd (omega arith))
probe (suc n) i bytes t = elim (Bool-cases (same_bytes bytes (entry t (slot bytes t i)))) [
  | inl same ↦
      present 0 (omega arith) (λ j l. absurd (omega arith))
        (here_entry bytes t (λ a. a ≡ bytes) i (sym (same_bytes→eq bytes _ same)))
  | inr other ↦ elim (Bool-cases (ltb 0 (length (entry t (slot bytes t i))))) [
    | inr free ↦
        vacant 0 (omega arith) (λ j l. absurd (omega arith))
          (here_entry bytes t (λ a. length a ≡ 0) i (ground arith))
    | inl used ↦
        let past : Passes bytes (entry t (slot bytes t i)) = record {
          used = ltb→lt 0 _ used;
          differs = other;
        } in
        elim (probe n (i + 1) bytes t) [
          | exhausted h ↦ exhausted (shift_pass bytes t i n past h)
          | present k l h e ↦
              present (suc k) (omega arith) (shift_pass bytes t i k past h)
                (shift_entry bytes t (λ a. a ≡ bytes) i k e)
          | vacant k l h e ↦
              vacant (suc k) (omega arith) (shift_pass bytes t i k past h)
                (shift_entry bytes t (λ a. length a ≡ 0) i k e)
        ]
  ]
]

pub tail_pass :
    (bytes : List ℕ) (t : AtomTable) (i k : ℕ)
    → AllPass bytes t i (suc k)
    → AllPass bytes t (i + 1) k
tail_pass bytes t i k h j l =
    let shift : i + suc j ≡ i + 1 + j = omega arith in
    subst (λ x. Passes bytes (entry t (slot bytes t x))) shift (h (suc j) (omega arith))

pub head_pass :
    (bytes : List ℕ) (t : AtomTable) (i k : ℕ)
    → AllPass bytes t i (suc k)
    → Passes bytes (entry t (slot bytes t i))
head_pass bytes t i k h =
    let at_start : i + 0 ≡ i = omega arith in
    subst (λ x. Passes bytes (entry t (slot bytes t x))) at_start (h 0 (omega arith))

module _ (bytes : List ℕ) (t : AtomTable) where
  get_loop-step :
      (n i : ℕ)
      → Passes bytes (entry t (slot bytes t i))
      → get_loop (suc n) i bytes t ≡ get_loop n (i + 1) bytes t
  unfolding get_loop
  get_loop-step n i p = ground (arith, p.used, p.differs)

  get_loop-here :
      (n i : ℕ)
      → entry t (slot bytes t i) ≡ bytes
      → get_loop (suc n) i bytes t ≡ some (slot bytes t i)
  unfolding get_loop
  get_loop-here n i e = rw (e, eq→== (length bytes) (length bytes) refl, same_bytes_refl bytes) refl

  get_loop-free :
      (n i : ℕ)
      → 0 < length bytes
      → length (entry t (slot bytes t i)) ≡ 0
      → get_loop (suc n) i bytes t ≡ none
  unfolding get_loop
  get_loop-free n i z e = ground (arith, e)

  pub get_loop-present :
      (n i k : ℕ)
      → k < n
      → AllPass bytes t i k
      → entry t (slot bytes t (i + k)) ≡ bytes
      → get_loop n i bytes t ≡ some (slot bytes t (i + k))
  get_loop-present zero i k l h e = absurd (omega arith)
  get_loop-present (suc n) i zero l h e =
      let at_start : i + 0 ≡ i = omega arith in rw at_start (get_loop-here n i (rw⁻¹ at_start e))
  get_loop-present (suc n) i (suc k) l h e =
      let shift : i + suc k ≡ i + 1 + k = omega arith in
      rw shift (
        get_loop-step n i (head_pass bytes t i k h)
        ∙ get_loop-present n (i + 1) k (omega arith) (tail_pass bytes t i k h)
            (subst (λ x. entry t (slot bytes t x) ≡ bytes) shift e))

  pub get_loop-vacant :
      (n i k : ℕ)
      → 0 < length bytes
      → k < n
      → AllPass bytes t i k
      → length (entry t (slot bytes t (i + k))) ≡ 0
      → get_loop n i bytes t ≡ none
  get_loop-vacant zero i k z l h e = absurd (omega arith)
  get_loop-vacant (suc n) i zero z l h e =
      let at_start : i + 0 ≡ i = omega arith in
      get_loop-free n i z (subst (λ x. length (entry t (slot bytes t x)) ≡ 0) at_start e)
  get_loop-vacant (suc n) i (suc k) z l h e =
      let shift : i + suc k ≡ i + 1 + k = omega arith in
      get_loop-step n i (head_pass bytes t i k h)
      ∙ get_loop-vacant n (i + 1) k z (omega arith) (tail_pass bytes t i k h)
          (subst (λ x. length (entry t (slot bytes t x)) ≡ 0) shift e)

  pub get_loop-exhausted : (n i : ℕ) → AllPass bytes t i n → get_loop n i bytes t ≡ none
  unfolding get_loop
  get_loop-exhausted zero i h = refl
  get_loop-exhausted (suc n) i h =
      get_loop-step n i (head_pass bytes t i n h)
      ∙ get_loop-exhausted n (i + 1) (tail_pass bytes t i n h)
