-- ===== src/DataStream/Short.antt =====
-- How many bytes a reader takes, and the status of the stream behind it.
use deconz_lib.Base.{
  ℕ, zero, suc, ◌≡◌, refl, ◌||◌, List, [], ◌∷◌, ◌++◌, ◌+◌, ◌-◌, arith, length, ltb, ◌∙◌, sym, ap,
  take, drop, length-take_le, Bool-cases, inl, inr, ltb→lt,
}
use deconz_lib.DataStream.{StreamApi, IsStream, Reader, ◌>>=◌, give}

take-drop : (n : ℕ) (bs : List ℕ) → bs ≡ take n bs ++ drop n bs
take-drop zero bs = refl
take-drop (suc n) [] = refl
take-drop (suc n) (b ∷ bs) = ap (λ t. b ∷ t) (take-drop n bs)

length-drop : (n : ℕ) (bs : List ℕ) → length (drop n bs) ≡ length bs - n
length-drop zero bs = omega arith
length-drop (suc n) [] = omega arith
length-drop (suc n) (b ∷ bs) = omega (arith, length-drop n bs)

module _ (q : StreamApi) (laws : IsStream q) where
  open q use {Stream, get, past_end}
  open laws use {rest}

  -- The bytes that are left.
  abbrev pub left : Stream → ℕ
  left s = length (rest s)

  -- `m` takes `n` bytes, and the status tells if there were fewer.
  pub record Takes {A : Type 0} (n : ℕ) (m : Reader Stream A) : Type 0 where
    pub status : (s : Stream) → past_end (m s).1 ≡ (past_end s || ltb (left s) n)
    pub leaves : (s : Stream) → left (m s).1 ≡ left s - n

  pub Takes-give : {A : Type 0} (a : A) → Takes 0 (give a)
  unfolding give
  Takes-give a = record { status = λ s. ground arith; leaves = λ s. ground arith }

  get_status : (n : ℕ) (s : Stream) → past_end (get n s).1 ≡ (past_end s || ltb (left s) n)
  get_status n s = elim (Bool-cases (ltb (left s) n)) [
    | inl few ↦ laws.short_status s n (ltb→lt (left s) n few) ∙ rw few (ground arith)
    | inr enough ↦
        ap (λ (l : ℕ). past_end (get l s).1)
          (sym (length-take_le {A = ℕ} n (rest s) (ground arith)))
        ∙ laws.get_status s (take n (rest s)) (drop n (rest s)) (take-drop n (rest s))
        ∙ rw enough (ground arith)
  ]

  get_leaves : (n : ℕ) (s : Stream) → left (get n s).1 ≡ left s - n
  get_leaves n s = elim (Bool-cases (ltb (left s) n)) [
    | inl few ↦
        let short = ltb→lt (left s) n few in
        ap (λ l. length l) (laws.short_rest s n short) ∙ omega arith
    | inr enough ↦
        ap (λ (l : ℕ). left (get l s).1) (sym (length-take_le {A = ℕ} n (rest s) (ground arith)))
        ∙ ap (λ l. length l)
            (laws.get_rest s (take n (rest s)) (drop n (rest s)) (take-drop n (rest s)))
        ∙ length-drop n (rest s)
  ]

  pub Takes-get : (n : ℕ) → Takes n (get n)
  Takes-get n = record { status = get_status n; leaves = get_leaves n }

  pub Takes->>= :
      {A B : Type 0} {n k : ℕ} {m : Reader Stream A} (f : A → Reader Stream B)
      → Takes n m
      → ((a : A) → Takes k (f a))
      → Takes (n + k) (m >>= f)
  unfolding ◌>>=◌
  Takes->>= {m} f first next = record {
    status =
        λ s. (next (m s).0).status (m s).1 ∙ rw (first.status s, first.leaves s) (ground arith);
    leaves = λ s. (next (m s).0).leaves (m s).1 ∙ omega (arith, first.leaves s);
  }
