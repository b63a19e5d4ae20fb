-- ===== src/Base/Run.antt =====
-- A run of bytes that stands in memory at an index.
use Prim.Native.Nat.{ℕ, zero, suc, ◌+◌, ◌≤◌}
use mathlib.Core.Path.{◌≡◌, refl, ◌∙◌, subst, ap, ap₂}
use mathlib.Core.List.{List, [], ◌∷◌, ◌++◌}
use native.Mathlib.Omega.{arith}
use deconz_lib.Base.Array.{
  get_or, length, set, store, length-set, get_or-set_self, get_or-set_ne, get_or-store_lt,
  get_or-store_ge,
}

abbrev pub Reads : List ℕ → ℕ → List ℕ → Type 0
Reads m p [] = Unit {0}
Reads m p (b ∷ bs) = (get_or m p 0 ≡ b) × Reads m (p + 1) bs

pub Reads-store : (bs m : List ℕ) (p : ℕ) → p + length bs ≤ length m → Reads (store m p bs) p bs
Reads-store [] m p h = tt
Reads-store (b ∷ bs) m p h =
    let shift : suc p ≡ p + 1 = omega arith in
    (
      get_or-store_lt bs (set m p b) (suc p) p 0 (omega arith)
          ∙ get_or-set_self m p b 0 (omega arith),
      subst (λ k. Reads (store (set m p b) (suc p) bs) k bs) shift
          (Reads-store bs (set m p b) (suc p) (omega (arith, length-set m p b))),
    )

pub Reads-shift : (c : ℕ) (m : List ℕ) (p : ℕ) (s : List ℕ) → Reads m p s → Reads (c ∷ m) (suc p) s
Reads-shift c m p [] r = tt
Reads-shift c m p (b ∷ s) (e, r) =
    let shift : suc (p + 1) ≡ suc p + 1 = omega arith in
    (e, subst (λ k. Reads (c ∷ m) k s) shift (Reads-shift c m (p + 1) s r))

-- A text reads at its own start.
pub Reads-front : (s rest : List ℕ) → Reads (s ++ rest) 0 s
Reads-front [] rest = tt
Reads-front (c ∷ s) rest = (refl, Reads-shift c (s ++ rest) 0 s (Reads-front s rest))

-- A write behind the run leaves it.
pub Reads-set :
    (bs m : List ℕ) (p i v : ℕ) → p + length bs ≤ i → Reads m p bs → Reads (set m i v) p bs
Reads-set [] m p i v h r = tt
Reads-set (b ∷ bs) m p i v h (e, r) =
    (get_or-set_ne m i p v 0 (λ q. omega arith) ∙ e, Reads-set bs m (p + 1) i v (omega arith) r)

pub Reads-append :
    (xs ys m : List ℕ) (p : ℕ) → Reads m p (xs ++ ys) → Reads m p xs × Reads m (p + length xs) ys
Reads-append [] ys m p r = let z : p ≡ p + 0 = omega arith in (tt, subst (λ k. Reads m k ys) z r)
Reads-append (x ∷ xs) ys m p (e, r) =
    let shift : p + 1 + length xs ≡ p + suc (length xs) = omega arith in
    let (l, q) = Reads-append xs ys m (p + 1) r in ((e, l), subst (λ k. Reads m k ys) shift q)

-- A run of writes that does not touch the bytes leaves them.
pub Reads-store_behind :
    (bs vs m : List ℕ) (p i : ℕ) → p + length bs ≤ i → Reads m p bs → Reads (store m i vs) p bs
Reads-store_behind [] vs m p i h r = tt
Reads-store_behind (b ∷ bs) vs m p i h (e, r) = (
  get_or-store_lt vs m i p 0 (omega arith) ∙ e,
  Reads-store_behind bs vs m (p + 1) i (omega arith) r,
)

pub Reads-store_before :
    (bs vs m : List ℕ) (p i : ℕ) → i + length vs ≤ p → Reads m p bs → Reads (store m i vs) p bs
Reads-store_before [] vs m p i h r = tt
Reads-store_before (b ∷ bs) vs m p i h (e, r) =
    (get_or-store_ge vs m i p 0 h ∙ e, Reads-store_before bs vs m (p + 1) i (omega arith) r)

-- Two runs side by side.
pub Reads-both :
    (xs ys m : List ℕ) (p : ℕ) → Reads m p xs → Reads m (p + length xs) ys → Reads m p (xs ++ ys)
Reads-both [] ys m p r q = let z : p + 0 ≡ p = omega arith in subst (λ k. Reads m k ys) z q
Reads-both (x ∷ xs) ys m p (e, r) q =
    let shift : p + suc (length xs) ≡ p + 1 + length xs = omega arith in
    (e, Reads-both xs ys m (p + 1) r (subst (λ k. Reads m k ys) shift q))

-- The `n` bytes from an index on.
abbrev pub read : List ℕ → ℕ → ℕ → List ℕ
read m p zero = []
read m p (suc n) = get_or m p 0 ∷ read m (p + 1) n

pub read-Reads : (bs m : List ℕ) (p n : ℕ) → n ≡ length bs → Reads m p bs → read m p n ≡ bs
read-Reads [] m p n e r = ap (read m p) e
read-Reads (b ∷ bs) m p n e (h, r) =
    ap (read m p) e ∙ ap₂ ◌∷◌ h (read-Reads bs m (p + 1) (length bs) refl r)
