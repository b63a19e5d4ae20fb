-- ===== src/Base/Array.antt =====
-- C arrays as lists with native indices: one access, a run of writes, and a run of bytes.
use Prim.Native.Nat.{ℕ, zero, suc, ◌+◌, ◌≤◌, ◌<◌}
use mathlib.Core.Path.{◌≡◌, refl, ap, sym, ◌∙◌, subst}
use mathlib.Core.Logic.{◌≢◌}
use mathlib.Core.List.{List, [], ◌∷◌, ◌++◌, map, append_assoc, append-nil}
use native.Mathlib.Omega.{arith}

module _ {ℓ} {A : Type ℓ} where
  abbrev pub length : List A → ℕ
  length [] = 0
  length (_ ∷ xs) = suc (length xs)

  abbrev pub get_or : List A → ℕ → A → A
  get_or [] _ d = d
  get_or (x ∷ _) zero _ = x
  get_or (_ ∷ xs) (suc i) d = get_or xs i d

  -- A write out of bounds changes nothing: the theorems show that the code makes none.
  abbrev pub set : List A → ℕ → A → List A
  set [] _ _ = []
  set (_ ∷ xs) zero v = v ∷ xs
  set (x ∷ xs) (suc i) v = x ∷ set xs i v

  abbrev pub take : ℕ → List A → List A
  take zero _ = []
  take (suc n) [] = []
  take (suc n) (x ∷ xs) = x ∷ take n xs

  abbrev pub drop : ℕ → List A → List A
  drop zero xs = xs
  drop (suc n) [] = []
  drop (suc n) (x ∷ xs) = drop n xs

  abbrev pub replicate : ℕ → A → List A
  replicate zero a = []
  replicate (suc n) a = a ∷ replicate n a

  -- `for (x in xs) mem[i++] = x;`
  abbrev pub store : List A → ℕ → List A → List A
  store mem i [] = mem
  store mem i (x ∷ xs) = store (set mem i x) (suc i) xs

  abbrev pub All {κ} : (A → Type κ) → List A → Type κ
  All P [] = Unit {κ}
  All P (x ∷ xs) = P x × All P xs

module _ {ℓ} {A : Type ℓ} where
  pub length-append : (xs ys : List A) → length (xs ++ ys) ≡ length xs + length ys
  length-append [] ys = omega arith
  length-append (x ∷ xs) ys = omega (arith, length-append xs ys)

  pub length-set : (xs : List A) (i : ℕ) (v : A) → length (set xs i v) ≡ length xs
  length-set [] i v = refl
  length-set (x ∷ xs) zero v = refl
  length-set (x ∷ xs) (suc i) v = ap suc (length-set xs i v)

  pub get_or-set_self :
      (xs : List A) (i : ℕ) (v d : A) → i < length xs → get_or (set xs i v) i d ≡ v
  get_or-set_self [] i v d h = absurd (omega arith)
  get_or-set_self (x ∷ xs) zero v d h = refl
  get_or-set_self (x ∷ xs) (suc i) v d h = get_or-set_self xs i v d (omega arith)

  pub get_or-set_ne :
      (xs : List A) (i j : ℕ) (v d : A) → i ≢ j → get_or (set xs i v) j d ≡ get_or xs j d
  get_or-set_ne [] i j v d h = refl
  get_or-set_ne (x ∷ xs) zero zero v d h = absurd (h refl)
  get_or-set_ne (x ∷ xs) zero (suc j) v d h = refl
  get_or-set_ne (x ∷ xs) (suc i) zero v d h = refl
  get_or-set_ne (x ∷ xs) (suc i) (suc j) v d h = get_or-set_ne xs i j v d (λ e. h (ap suc e))

  pub length-take_le : (n : ℕ) (xs : List A) → n ≤ length xs → length (take n xs) ≡ n
  length-take_le zero xs h = refl
  length-take_le (suc n) [] h = absurd (omega arith)
  length-take_le (suc n) (x ∷ xs) h = ap suc (length-take_le n xs (omega arith))

  pub length-replicate : (n : ℕ) (a : A) → length (replicate n a) ≡ n
  length-replicate zero a = refl
  length-replicate (suc n) a = ap suc (length-replicate n a)

  pub length-map {κ} : {B : Type κ} (f : A → B) (xs : List A) → length (map f xs) ≡ length xs
  length-map f [] = refl
  length-map f (x ∷ xs) = ap suc (length-map f xs)

  -- A write at the end of a prefix extends it.
  pub take-set_end :
      (xs : List A) (i : ℕ) (v : A)
      → i < length xs
      → take (suc i) (set xs i v) ≡ take i xs ++ (v ∷ [])
  take-set_end [] i v h = absurd (omega arith)
  take-set_end (x ∷ xs) zero v h = refl
  take-set_end (x ∷ xs) (suc i) v h = ap (λ t. x ∷ t) (take-set_end xs i v (omega arith))

  -- A write behind a prefix leaves it alone.
  pub take-set_ge : (n : ℕ) (xs : List A) (i : ℕ) (v : A) → n ≤ i → take n (set xs i v) ≡ take n xs
  take-set_ge zero xs i v h = refl
  take-set_ge (suc n) [] i v h = refl
  take-set_ge (suc n) (x ∷ xs) zero v h = absurd (omega arith)
  take-set_ge (suc n) (x ∷ xs) (suc i) v h = ap (λ t. x ∷ t) (take-set_ge n xs i v (omega arith))

  pub length-store : (xs : List A) (i : ℕ) (vs : List A) → length (store xs i vs) ≡ length xs
  length-store xs i [] = refl
  length-store xs i (v ∷ vs) = length-store (set xs i v) (suc i) vs ∙ length-set xs i v

  -- A run of writes at the end of a prefix appends its bytes to it.
  pub take-store :
      (vs xs : List A) (i : ℕ)
      → i + length vs ≤ length xs
      → take (i + length vs) (store xs i vs) ≡ take i xs ++ vs
  take-store [] xs i h =
      subst (λ k. take k xs ≡ take i xs ++ []) (sym plus_zero) (sym (append-nil (take i xs)))
    where
      plus_zero : i + 0 ≡ i
      plus_zero = omega arith
  take-store (v ∷ vs) xs i h =
      ap (λ k. take k (store (set xs i v) (suc i) vs)) shift
      ∙ take-store vs (set xs i v) (suc i) (omega (arith, length-set xs i v))
      ∙ ap (λ t. t ++ vs) (take-set_end xs i v (omega arith))
      ∙ append_assoc (take i xs) (v ∷ []) vs
    where
      shift : i + suc (length vs) ≡ suc i + length vs
      shift = omega arith

  -- A run of writes leaves every index before and behind it alone.
  pub get_or-store_lt :
      (vs xs : List A) (i j : ℕ) (d : A) → j < i → get_or (store xs i vs) j d ≡ get_or xs j d
  get_or-store_lt [] xs i j d h = refl
  get_or-store_lt (v ∷ vs) xs i j d h =
      get_or-store_lt vs (set xs i v) (suc i) j d (omega arith)
      ∙ get_or-set_ne xs i j v d (λ e. absurd (omega arith))

  pub get_or-store_ge :
      (vs xs : List A) (i j : ℕ) (d : A)
      → i + length vs ≤ j
      → get_or (store xs i vs) j d ≡ get_or xs j d
  get_or-store_ge [] xs i j d h = refl
  get_or-store_ge (v ∷ vs) xs i j d h =
      get_or-store_ge vs (set xs i v) (suc i) j d (omega arith)
      ∙ get_or-set_ne xs i j v d (λ e. absurd (omega arith))

  pub store-append :
      (xs ys m : List A) (i : ℕ) → store m i (xs ++ ys) ≡ store (store m i xs) (i + length xs) ys
  store-append [] ys m i = let at_start : i ≡ i + 0 = omega arith in ap (λ k. store m k ys) at_start
  store-append (x ∷ xs) ys m i =
      let shift : suc i + length xs ≡ i + suc (length xs) = omega arith in
      store-append xs ys (set m i x) (suc i)
      ∙ ap (λ k. store (store (set m i x) (suc i) xs) k ys) shift

pub All-append {ℓ κ} :
    {A : Type ℓ} (P : A → Type κ) (xs ys : List A) → All P xs → All P ys → All P (xs ++ ys)
All-append P [] ys a b = b
All-append P (x ∷ xs) ys (h, a) b = (h, All-append P xs ys a b)

module _ {ℓ} {A : Type ℓ} where
  pub set-set : (xs : List A) (i : ℕ) (v w : A) → set (set xs i v) i w ≡ set xs i w
  set-set [] i v w = refl
  set-set (x ∷ xs) zero v w = refl
  set-set (x ∷ xs) (suc i) v w = ap (λ t. x ∷ t) (set-set xs i v w)

  pub set-get_or : (xs : List A) (i : ℕ) (d : A) → i < length xs → set xs i (get_or xs i d) ≡ xs
  set-get_or [] i d h = refl
  set-get_or (x ∷ xs) zero d h = refl
  set-get_or (x ∷ xs) (suc i) d h = ap (λ t. x ∷ t) (set-get_or xs i d (omega arith))

  pub store-set :
      (vs xs : List A) (i : ℕ) (v : A) → 0 < length vs → store (set xs i v) i vs ≡ store xs i vs
  store-set [] xs i v h = absurd (omega arith)
  store-set (w ∷ vs) xs i v h = ap (λ t. store t (suc i) vs) (set-set xs i v w)

  pub get_or-store_in :
      (vs xs : List A) (i j : ℕ) (d : A)
      → j < length vs
      → i + length vs ≤ length xs
      → get_or (store xs i vs) (i + j) d ≡ get_or vs j d
  get_or-store_in [] xs i j d h r = absurd (omega arith)
  get_or-store_in (v ∷ vs) xs i zero d h r =
      let here : i + 0 ≡ i = omega arith in
      ap (λ k. get_or (store (set xs i v) (suc i) vs) k d) here
      ∙ get_or-store_lt vs (set xs i v) (suc i) i d (omega arith)
      ∙ get_or-set_self xs i v d (omega arith)
  get_or-store_in (v ∷ vs) xs i (suc j) d h r =
      let there : i + suc j ≡ suc i + j = omega arith in
      ap (λ k. get_or (store (set xs i v) (suc i) vs) k d) there
      ∙ get_or-store_in vs (set xs i v) (suc i) j d (omega arith) (omega (arith, length-set xs i v))
