-- ===== src/Url/Segments.antt =====
-- A url as its segments between slashes.
use deconz_lib.Base.{
  ℕ, zero, suc, ◌+◌, ◌<◌, ◌≡◌, refl, sym, ap, ◌∙◌, inl, inr, List, [], ◌∷◌, ◌++◌, map, arith, ◌==◌,
  if◌then◌else◌, Bool-cases, length, get_or, take, drop,
}
use deconz_lib.Url.{offset_of}

-- Adds a byte to the first segment.
abbrev pub grow : ℕ → List (List ℕ) → List (List ℕ)
grow c [] = (c ∷ []) ∷ []
grow c (s ∷ ss) = (c ∷ s) ∷ ss

abbrev pub segments : List ℕ → List (List ℕ)
segments [] = [] ∷ []
segments (c ∷ cs) = let rest = segments cs in if c == b'/' then [] ∷ rest else grow c rest

abbrev pub sizes : List (List ℕ) → List ℕ
sizes = map length

abbrev pub join : List (List ℕ) → List ℕ
join [] = []
join (s ∷ []) = s
join (s ∷ t ∷ ss) = s ++ (b'/' ∷ join (t ∷ ss))

-- Segments, written with a slash between two of them, are the url.
join-grow : (c : ℕ) (ss : List (List ℕ)) → join (grow c ss) ≡ c ∷ join ss
join-grow c [] = refl
join-grow c (s ∷ []) = refl
join-grow c (s ∷ t ∷ ss) = refl

grow_some : (c : ℕ) (ss : List (List ℕ)) → 0 < length (grow c ss)
grow_some c [] = omega arith
grow_some c (s ∷ ss) = omega arith

pub segments_some : (cs : List ℕ) → 0 < length (segments cs)
segments_some [] = omega arith
segments_some (c ∷ cs) = ground (arith, grow_some c (segments cs))

join-slash : (ss : List (List ℕ)) → 0 < length ss → join ([] ∷ ss) ≡ b'/' ∷ join ss
join-slash [] h = absurd (omega arith)
join-slash (s ∷ ss) h = refl

pub join-segments : (cs : List ℕ) → join (segments cs) ≡ cs
join-segments [] = refl
join-segments (c ∷ cs) = elim (Bool-cases (c == b'/')) [
  | inl slash ↦
      rw slash (join-slash (segments cs) (segments_some cs) ∙ ground (arith, join-segments cs))
  | inr other ↦ rw other (join-grow c (segments cs) ∙ ap (λ t. c ∷ t) (join-segments cs))
]

take-whole : (xs : List ℕ) → take (length xs) xs ≡ xs
take-whole [] = refl
take-whole (x ∷ xs) = ap (λ t. x ∷ t) (take-whole xs)

drop-append : (xs ys : List ℕ) → drop (length xs) (xs ++ ys) ≡ ys
drop-append [] ys = refl
drop-append (x ∷ xs) ys = drop-append xs ys

take-append : (xs ys : List ℕ) → take (length xs) (xs ++ ys) ≡ xs
take-append [] ys = refl
take-append (x ∷ xs) ys = ap (λ t. x ∷ t) (take-append xs ys)

drop-nil : (n : ℕ) → drop {A = ℕ} n [] ≡ []
drop-nil zero = refl
drop-nil (suc n) = refl

drop-drop : (a b : ℕ) (xs : List ℕ) → drop (a + b) xs ≡ drop b (drop a xs)
drop-drop zero b xs = let e : 0 + b ≡ b = omega arith in ap (λ k. drop k xs) e
drop-drop (suc a) b [] =
    let e : suc a + b ≡ suc (a + b) = omega arith in
    ap (λ k. drop {A = ℕ} k []) e ∙ sym (drop-nil b)
drop-drop (suc a) b (x ∷ xs) =
    let e : suc a + b ≡ suc (a + b) = omega arith in ap (λ k. drop k (x ∷ xs)) e ∙ drop-drop a b xs

-- The first slash and the segment before it do not count for the others.
offset_of-cons : (e : ℕ) (es : List ℕ) (i : ℕ) → offset_of (e ∷ es) (suc i) ≡ e + 1 + offset_of es i
unfolding offset_of
offset_of-cons e es zero = omega arith
offset_of-cons e es (suc i) = omega (arith, offset_of-cons e es i)

drop-segment :
    (s rest : List ℕ) (k : ℕ) → drop (length s + 1 + k) (s ++ (b'/' ∷ rest)) ≡ drop k rest
drop-segment s rest k =
    drop-drop (length s + 1) k (s ++ (b'/' ∷ rest))
    ∙ ap (drop k)
        (drop-drop (length s) 1 (s ++ (b'/' ∷ rest)) ∙ ap (drop 1) (drop-append s (b'/' ∷ rest)))

-- The bytes at a segment's offset, as many as its size, are the segment.
pub slice-join :
    (ss : List (List ℕ)) (i : ℕ)
    → i < length ss
    → take (get_or (sizes ss) i 0) (drop (offset_of (sizes ss) i) (join ss)) ≡ get_or ss i []
unfolding offset_of
slice-join [] i h = absurd (omega arith)
slice-join (s ∷ []) zero h = take-whole s
slice-join (s ∷ []) (suc i) h = absurd (omega arith)
slice-join (s ∷ t ∷ ss) zero h = take-append s (b'/' ∷ join (t ∷ ss))
slice-join (s ∷ t ∷ ss) (suc i) h =
    ap (λ k. take (get_or (sizes (t ∷ ss)) i 0) (drop k (s ++ (b'/' ∷ join (t ∷ ss)))))
      (offset_of-cons (length s) (sizes (t ∷ ss)) i)
    ∙ ap (take (get_or (sizes (t ∷ ss)) i 0))
        (drop-segment s (join (t ∷ ss)) (offset_of (sizes (t ∷ ss)) i))
    ∙ slice-join (t ∷ ss) i (omega arith)
