-- ===== src/BindingTable/Order.antt =====
-- The bindings of a table are valid, and no two of them are equal.
use mathlib.Core.Path.{ap₂}
use deconz_lib.Base.{
  ℕ, zero, suc, ◌≡◌, refl, sym, ◌∙◌, inl, inr, Bool, true, false, not, ◌&&◌, Option, none, some,
  List, [], ◌∷◌, ◌++◌, arith, ◌==◌, if-both, Bool-cases, All, All-append,
}
use deconz_lib.Base.Int.{ℤ}
use deconz_lib.BindingTable.{
  Binding, BindingTable, mode_number, same_bit, same_address, same, is_valid, contains, add,
  erase_first, remove, clear_loop, before, clear_old_bindings,
}

==-sym : (a b : ℕ) → (a == b) ≡ (b == a)
==-sym a b = ground arith

same_bit-sym : (a b : Bool) → same_bit a b ≡ same_bit b a
same_bit-sym true true = refl
same_bit-sym true false = refl
same_bit-sym false true = refl
same_bit-sym false false = refl

same-sym : (a b : Binding) → same a b ≡ same b a
unfolding same same_address
same-sym a b =
    ap₂ ◌&&◌
      (ap₂ ◌&&◌ (same_bit-sym a.dst_addr.has_nwk b.dst_addr.has_nwk) (
        ap₂ ◌&&◌ (same_bit-sym a.dst_addr.has_ext b.dst_addr.has_ext) (
          ap₂ ◌&&◌ (same_bit-sym a.dst_addr.has_group b.dst_addr.has_group) (
            ap₂ ◌&&◌ (==-sym a.dst_addr.nwk b.dst_addr.nwk) (
              ap₂ ◌&&◌ (==-sym a.dst_addr.ext b.dst_addr.ext)
                (==-sym a.dst_addr.group b.dst_addr.group))))))
      (ap₂ ◌&&◌ (==-sym (mode_number a.dst_addr_mode) (mode_number b.dst_addr_mode)) (
        ap₂ ◌&&◌ (==-sym a.src_addr b.src_addr) (
          ap₂ ◌&&◌ (==-sym a.src_endpoint b.src_endpoint)
            (ap₂ ◌&&◌ (==-sym a.dst_endpoint b.dst_endpoint) (==-sym a.cluster b.cluster)))))

-- A list of valid bindings without equal ones.
abbrev IsDistinct : List Binding → Type 0
IsDistinct [] = Unit
IsDistinct (x ∷ xs) = (contains xs x ≡ false) × IsDistinct xs

pub record IsTable (t : BindingTable) : Type 0 where
  pub distinct : IsDistinct t.table
  pub valid : All (λ b. is_valid b ≡ true) t.table

contains-cons :
    (x : Binding) (xs : List Binding) (y : Binding)
    → same x y ≡ false
    → contains xs y ≡ false
    → contains (x ∷ xs) y ≡ false
unfolding contains
contains-cons x xs y s c = rw s c

contains-parts :
    (x : Binding) (xs : List Binding) (y : Binding)
    → contains (x ∷ xs) y ≡ false
    → (same x y ≡ false) × (contains xs y ≡ false)
unfolding contains
contains-parts x xs y c = elim (Bool-cases (same x y)) [
  | inl s ↦ let clash : true ≡ false = sym (contains-hit s) ∙ c in absurd cc
  | inr s ↦ (s, sym (contains-pass s) ∙ c)
]
  where
    contains-hit : same x y ≡ true → contains (x ∷ xs) y ≡ true
    contains-hit s = rw (contains, s) refl

    contains-pass : same x y ≡ false → contains (x ∷ xs) y ≡ contains xs y
    contains-pass s = rw (contains, s) refl

contains-append :
    (xs : List Binding) (b y : Binding)
    → contains xs y ≡ false
    → same b y ≡ false
    → contains (xs ++ (b ∷ [])) y ≡ false
contains-append [] b y c s = contains-cons b [] y s c
contains-append (x ∷ xs) b y c s =
    let (h, t) = contains-parts x xs y c in
    contains-cons x (xs ++ (b ∷ [])) y h (contains-append xs b y t s)

append-IsDistinct :
    (xs : List Binding) (b : Binding)
    → IsDistinct xs
    → contains xs b ≡ false
    → IsDistinct (xs ++ (b ∷ []))
unfolding contains
append-IsDistinct [] b d c = (refl, tt)
append-IsDistinct (x ∷ xs) b (n, d) c =
    let (h, t) = contains-parts x xs b c in
    (contains-append xs b x n (same-sym b x ∙ h), append-IsDistinct xs b d t)

and_parts : (a b : Bool) → (a && not b) ≡ true → (a ≡ true) × (b ≡ false)
and_parts true false e = (refl, refl)
and_parts true true e = cc
and_parts false b e = cc

add-IsTable : (b : Binding) (t : BindingTable) → IsTable t → IsTable (add b t).1
unfolding add
add-IsTable b t inv = elim (Bool-cases (is_valid b && not (contains t.table b))) [
  | inr n ↦ rw (add, n) inv
  | inl y ↦
      let (v, c) = and_parts (is_valid b) (contains t.table b) y in
      rw (add, y)
        (record {
          distinct = append-IsDistinct t.table b inv.distinct c;
          valid = All-append (λ x. is_valid x ≡ true) t.table (b ∷ []) inv.valid (v, tt);
        })
]

-- What stays behind an erase.
abbrev Thinner : List Binding → Option (List Binding) → Type 0
Thinner xs none = Unit
Thinner xs (some ys) =
    ((y : Binding) → contains xs y ≡ false → contains ys y ≡ false)
    × (IsDistinct xs → IsDistinct ys)
    × (All (λ b. is_valid b ≡ true) xs → All (λ b. is_valid b ≡ true) ys)

erase_first-Thinner : (p : Binding → Bool) (xs : List Binding) → Thinner xs (erase_first p xs)
unfolding erase_first
erase_first-Thinner p [] = tt
erase_first-Thinner p (x ∷ xs) =
    if-both (Thinner (x ∷ xs)) (p x) ((λ y c. (contains-parts x xs y c).1), (λ d. d.1), (λ v. v.1))
      (by_rest (erase_first p xs) (erase_first-Thinner p xs))
  where
    by_rest :
        (r : Option (List Binding))
        → Thinner xs r
        → Thinner (x ∷ xs) (elim r [ none ↦ none | some ys ↦ some (x ∷ ys) ])
    by_rest none k = tt
    by_rest (some ys) (c, d, v) = (
      (λ y h. contains-cons x ys y (contains-parts x xs y h).0 (c y (contains-parts x xs y h).1)),
      (λ e. (c x e.0, d e.1)),
      (λ e. (e.0, v e.1)),
    )

remove-IsTable : (b : Binding) (t : BindingTable) → IsTable t → IsTable (remove b t).1
unfolding remove
remove-IsTable b t inv =
    by_erase (erase_first (λ x. same x b) t.table) (erase_first-Thinner (λ x. same x b) t.table)
  where
    by_erase :
        (r : Option (List Binding))
        → Thinner t.table r
        → IsTable
            (elim r as (λ x. Bool × BindingTable) [
              | none ↦ (false, t)
              | some xs ↦ (true, record t { table = xs })
            ]).1
    by_erase none k = inv
    by_erase (some xs) (c, d, v) = record { distinct = d inv.distinct; valid = v inv.valid }

clear_loop-IsTable :
    (n : ℕ) (p : Binding → Bool) (t : BindingTable) (xs : List Binding)
    → IsTable (record t { table = xs })
    → IsTable (record t { table = clear_loop n p xs })
unfolding clear_loop
clear_loop-IsTable zero p t xs inv = inv
clear_loop-IsTable (suc n) p t xs inv =
    by_erase (erase_first p xs) (erase_first-Thinner p xs) (clear_loop-IsTable n p t)
  where
    by_erase :
        (r : Option (List Binding))
        → Thinner xs r
        → ((ys : List Binding)
            → IsTable (record t { table = ys })
            → IsTable (record t { table = clear_loop n p ys }))
        → IsTable (record t {
          table = elim r as (λ x. List Binding) [ none ↦ xs | some ys ↦ clear_loop n p ys ];
        })
    by_erase none k rest = inv
    by_erase (some ys) (c, d, v) rest =
        rest ys (record { distinct = d inv.distinct; valid = v inv.valid })

-- The calls that change a table.
pub data Call : Type 0 where
  add_call : Binding → Call
  remove_call : Binding → Call
  clear_call : Call
  set_time : ℤ → Call

abbrev pub run : Call → BindingTable → BindingTable
run (add_call b) t = (add b t).1
run (remove_call b) t = (remove b t).1
run clear_call t = clear_old_bindings t
run (set_time z) t = record t { response_index0 = z }

abbrev pub run_all : List Call → BindingTable → BindingTable
run_all [] t = t
run_all (c ∷ cs) t = run_all cs (run c t)

run-IsTable : (c : Call) (t : BindingTable) → IsTable t → IsTable (run c t)
unfolding clear_old_bindings
run-IsTable (add_call b) t inv = add-IsTable b t inv
run-IsTable (remove_call b) t inv = remove-IsTable b t inv
run-IsTable clear_call t inv =
    clear_loop-IsTable 128 (λ b. before b.confirmed t.response_index0) t t.table inv
run-IsTable (set_time z) t inv = record { distinct = inv.distinct; valid = inv.valid }

-- No sequence of calls on a table whose bindings are valid and pairwise different gives it an invalid
-- binding or two equal ones.
pub run_all-IsTable : (cs : List Call) (t : BindingTable) → IsTable t → IsTable (run_all cs t)
run_all-IsTable [] t inv = inv
run_all-IsTable (c ∷ cs) t inv = run_all-IsTable cs (run c t) (run-IsTable c t inv)
