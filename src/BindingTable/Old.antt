-- ===== src/BindingTable/Old.antt =====
-- BindingTable::clearOldBindings: which bindings stay.
use mathlib.Core.Path.{subst}
use deconz_lib.Base.{
  ℕ, zero, suc, ◌≤◌, ◌≡◌, refl, sym, ap, ◌∙◌, inl, inr, Bool, true, false, Option, none, some, List,
  [], ◌∷◌, arith, if◌then◌else◌, Bool-cases,
}
use deconz_lib.BindingTable.{
  Binding, BindingTable, erase_first, clear_loop, before, clear_old_bindings,
}

-- The bindings that a test does not take, and the number of those that it takes.
abbrev pub keep : (Binding → Bool) → List Binding → List Binding
keep p [] = []
keep p (x ∷ xs) = if p x then keep p xs else x ∷ keep p xs

abbrev pub count : (Binding → Bool) → List Binding → ℕ
count p [] = 0
count p (x ∷ xs) = if p x then suc (count p xs) else count p xs

-- What an erase leaves.
abbrev Erased : (Binding → Bool) → List Binding → Option (List Binding) → Type 0
Erased p xs none = (count p xs ≡ 0) × (keep p xs ≡ xs)
Erased p xs (some ys) = (count p xs ≡ suc (count p ys)) × (keep p ys ≡ keep p xs)

cons_rest : Binding → Option (List Binding) → Option (List Binding)
cons_rest x r = elim r [ none ↦ none | some ys ↦ some (x ∷ ys) ]

erase_first-hit :
    (p : Binding → Bool) (x : Binding) (xs : List Binding)
    → p x ≡ true
    → erase_first p (x ∷ xs) ≡ some xs
unfolding erase_first
erase_first-hit p x xs h = rw h refl

erase_first-pass :
    (p : Binding → Bool) (x : Binding) (xs : List Binding)
    → p x ≡ false
    → erase_first p (x ∷ xs) ≡ cons_rest x (erase_first p xs)
unfolding erase_first cons_rest
erase_first-pass p x xs h = rw h refl

count-hit :
    (p : Binding → Bool) (x : Binding) (xs : List Binding)
    → p x ≡ true
    → count p (x ∷ xs) ≡ suc (count p xs)
count-hit p x xs h = rw h refl

count-pass :
    (p : Binding → Bool) (x : Binding) (xs : List Binding)
    → p x ≡ false
    → count p (x ∷ xs) ≡ count p xs
count-pass p x xs h = rw h refl

keep-hit :
    (p : Binding → Bool) (x : Binding) (xs : List Binding)
    → p x ≡ true
    → keep p (x ∷ xs) ≡ keep p xs
keep-hit p x xs h = rw h refl

keep-pass :
    (p : Binding → Bool) (x : Binding) (xs : List Binding)
    → p x ≡ false
    → keep p (x ∷ xs) ≡ x ∷ keep p xs
keep-pass p x xs h = rw h refl

cons_rest-Erased :
    (p : Binding → Bool) (x : Binding) (xs : List Binding) (r : Option (List Binding))
    → p x ≡ false
    → Erased p xs r
    → Erased p (x ∷ xs) (cons_rest x r)
unfolding cons_rest
cons_rest-Erased p x xs none h (n, k) =
    (count-pass p x xs h ∙ n, keep-pass p x xs h ∙ ap (λ t. x ∷ t) k)
cons_rest-Erased p x xs (some ys) h (n, k) = (
  count-pass p x xs h ∙ n ∙ ap suc (sym (count-pass p x ys h)),
  keep-pass p x ys h ∙ ap (λ t. x ∷ t) k ∙ sym (keep-pass p x xs h),
)

erase_first-Erased : (p : Binding → Bool) (xs : List Binding) → Erased p xs (erase_first p xs)
unfolding erase_first
erase_first-Erased p [] = (refl, refl)
erase_first-Erased p (x ∷ xs) = elim (Bool-cases (p x)) [
  | inl h ↦
      subst (Erased p (x ∷ xs)) (sym (erase_first-hit p x xs h))
        (count-hit p x xs h, sym (keep-hit p x xs h))
  | inr h ↦
      subst (Erased p (x ∷ xs)) (sym (erase_first-pass p x xs h))
        (cons_rest-Erased p x xs (erase_first p xs) h (erase_first-Erased p xs))
]

keep-all : (p : Binding → Bool) (xs : List Binding) → count p xs ≡ 0 → keep p xs ≡ xs
keep-all p [] h = refl
keep-all p (x ∷ xs) h = elim (Bool-cases (p x)) [
  | inl q ↦
      let none_taken : suc (count p xs) ≡ 0 = sym (count-hit p x xs q) ∙ h in
      absurd (omega (arith, none_taken))
  | inr q ↦ keep-pass p x xs q ∙ ap (λ t. x ∷ t) (keep-all p xs (sym (count-pass p x xs q) ∙ h))
]

clear_loop-keep :
    (n : ℕ) (p : Binding → Bool) (xs : List Binding)
    → count p xs ≤ n
    → clear_loop n p xs ≡ keep p xs
unfolding clear_loop
clear_loop-keep zero p xs h = sym (keep-all p xs (omega (arith, h)))
clear_loop-keep (suc n) p xs h =
    by_erase (erase_first p xs) (erase_first-Erased p xs) (clear_loop-keep n p)
  where
    by_erase :
        (r : Option (List Binding))
        → Erased p xs r
        → ((ys : List Binding) → count p ys ≤ n → clear_loop n p ys ≡ keep p ys)
        → elim r as (λ x. List Binding) [ none ↦ xs | some ys ↦ clear_loop n p ys ] ≡ keep p xs
    by_erase none (c, k) rest = sym k
    by_erase (some ys) (c, k) rest = rest ys (omega (arith, c, h)) ∙ k

-- When at most 128 bindings were confirmed before the reference time of the table, clearing removes
-- exactly these, and the others stay in their order.
clear_old_bindings-keep :
    (t : BindingTable)
    → count (λ b. before b.confirmed t.response_index0) t.table ≤ 128
    → (clear_old_bindings t).table ≡ keep (λ b. before b.confirmed t.response_index0) t.table
unfolding clear_old_bindings
clear_old_bindings-keep t h =
    clear_loop-keep 128 (λ b. before b.confirmed t.response_index0) t.table h
