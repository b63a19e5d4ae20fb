-- ===== src/Downloader/Host.antt =====
-- n_downloader.c: the loop that copies the host of a url, and the C string that it leaves.
use mathlib.Core.Path.{subst}
use deconz_lib.Base.{
  ℕ, zero, suc, ◌+◌, ◌≤◌, ◌<◌, ◌≡◌, refl, sym, ap, ◌∙◌, inl, inr, false, none, some, List, [], ◌∷◌,
  ◌++◌, arith, ltb, ◌==◌, Bool-cases, length, get_or, set, store, take, replicate, All,
  length-store, length-replicate, take-store, get_or-store_ge, lt→ltb, ltb→lt,
}
use deconz_lib.Base.Text.{IsChar}
use deconz_lib.Downloader.{host_size, copy_host, c_string}

-- The characters of a host, and what stands behind them.
abbrev pub IsHostChar : ℕ → Type 0
IsHostChar c = (0 < c) × ((c == b'/') ≡ false)

abbrev pub IsPath : List ℕ → Type 0
IsPath [] = Unit
IsPath (c ∷ cs) = c ≡ b'/'

copy_host-stop :
    (path : List ℕ) (i : ℕ) (h : List ℕ) → IsPath path → copy_host path i h ≡ some (h, i)
unfolding copy_host
copy_host-stop [] i h p = refl
copy_host-stop (c ∷ cs) i h p = ground (arith, p)

copy_host-step :
    (c : ℕ) (cs : List ℕ) (i : ℕ) (h : List ℕ)
    → IsHostChar c
    → i < host_size
    → copy_host (c ∷ cs) i h ≡ copy_host cs (i + 1) (set h i c)
unfolding copy_host
copy_host-step c cs i h (n, s) l = rw (s, lt→ltb i host_size l) refl

pub copy_host-host :
    (host path : List ℕ) (i : ℕ) (h : List ℕ)
    → All IsHostChar host
    → IsPath path
    → i + length host ≤ host_size
    → copy_host (host ++ path) i h ≡ some (store h i host, i + length host)
copy_host-host [] path i h a p room =
    copy_host-stop path i h p ∙ ap (λ k. some (h, k)) (let z : i ≡ i + 0 = omega arith in z)
copy_host-host (c ∷ cs) path i h (n, a) p room =
    let next : i + 1 ≡ suc i = omega arith in
    let end : suc i + length cs ≡ i + suc (length cs) = omega arith in
    copy_host-step c (cs ++ path) i h n (omega (arith, room))
    ∙ ap (λ k. copy_host (cs ++ path) k (set h i c)) next
    ∙ copy_host-host cs path (suc i) (set h i c) a p (omega (arith, room))
    ∙ ap (λ k. some (store (set h i c) (suc i) cs, k)) end

pub copy_host-over :
    (host path : List ℕ) (i : ℕ) (h : List ℕ)
    → All IsHostChar host
    → i ≤ host_size
    → host_size < i + length host
    → copy_host (host ++ path) i h ≡ none
unfolding copy_host
copy_host-over [] path i h a l over = absurd (omega (arith, l, over))
copy_host-over (c ∷ cs) path i h ((n, s), a) l over = elim (Bool-cases (ltb i host_size)) [
  | inl b ↦
      let more : i < host_size = ltb→lt i host_size b in
      let next : i + 1 ≡ suc i = omega arith in
      copy_host-step c (cs ++ path) i h (n, s) more
      ∙ copy_host-over cs path (i + 1) (set h i c) a (omega (arith, more)) (omega (arith, over))
  | inr b ↦ rw (s, b) refl
]

c_string-take :
    (m : List ℕ) (k : ℕ)
    → All IsChar (take k m)
    → k < length m
    → get_or m k 1 ≡ 0
    → c_string m ≡ some (take k m)
unfolding c_string
c_string-take [] k a l z = absurd (omega (arith, l))
c_string-take (c ∷ m) zero a l z = ground (arith, z)
c_string-take (c ∷ m) (suc k) (n, a) l z = ground (arith, n, c_string-take m k a)

c_string-full : (m : List ℕ) → All IsChar m → c_string m ≡ none
unfolding c_string
c_string-full [] a = refl
c_string-full (c ∷ m) (n, a) = ground (arith, n, c_string-full m a)

get_or-replicate : (n k : ℕ) → k < n → get_or {A = ℕ} (replicate n 0) k 1 ≡ 0
get_or-replicate zero k h = absurd (omega (arith, h))
get_or-replicate (suc n) zero h = refl
get_or-replicate (suc n) (suc k) h = get_or-replicate n k (omega (arith, h))

pub IsHostChar→IsChar : (s : List ℕ) → All IsHostChar s → All IsChar s
IsHostChar→IsChar [] a = tt
IsHostChar→IsChar (c ∷ s) ((n, q), a) = (n, IsHostChar→IsChar s a)

take-array :
    (n : ℕ) (host : List ℕ)
    → length host ≤ n
    → take (length host) (store (replicate n 0) 0 host) ≡ host
take-array n host h =
    ap (λ k. take k (store (replicate n 0) 0 host))
      (let z : length host ≡ 0 + length host = omega arith in z)
    ∙ take-store host (replicate n 0) 0 (omega (arith, h, length-replicate {A = ℕ} n 0))

pub c_string-array :
    (n : ℕ) (host : List ℕ)
    → All IsHostChar host
    → length host < n
    → c_string (store (replicate n 0) 0 host) ≡ some host
c_string-array n host a h =
    let whole = take-array n host (omega (arith, h)) in
    let size = length-store (replicate n 0) 0 host in
    c_string-take (store (replicate n 0) 0 host) (length host)
      (subst (All IsChar) (sym whole) (IsHostChar→IsChar host a))
      (omega (arith, h, size, length-replicate {A = ℕ} n 0))
      (get_or-store_ge host (replicate n 0) 0 (length host) 1 (omega arith)
        ∙ get_or-replicate n (length host) h)
    ∙ ap some whole

take-all : (m : List ℕ) → take (length m) m ≡ m
take-all [] = refl
take-all (c ∷ m) = ap (λ t. c ∷ t) (take-all m)

pub c_string-array_full :
    (n : ℕ) (host : List ℕ)
    → All IsHostChar host
    → length host ≡ n
    → c_string (store (replicate n 0) 0 host) ≡ none
c_string-array_full n host a h =
    let size = length-store (replicate n 0) 0 host in
    let same : length host ≡ length (store (replicate n 0) 0 host) =
      omega (arith, h, size, length-replicate {A = ℕ} n 0) in
    let whole : store (replicate n 0) 0 host ≡ host =
      sym (take-all (store (replicate n 0) 0 host))
      ∙ ap (λ k. take k (store (replicate n 0) 0 host)) (sym same)
      ∙ take-array n host (omega (arith, h)) in
    c_string-full (store (replicate n 0) 0 host)
      (subst (All IsChar) (sym whole) (IsHostChar→IsChar host a))
