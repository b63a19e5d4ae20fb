-- ===== src/Sstream/Search/Find.antt =====
-- U_sstream_starts_with, U_sstream_find: the places where the characters stand.
use deconz_lib.Base.{
  ℕ, zero, suc, ◌+◌, ◌-◌, ◌≤◌, ◌<◌, ◌≡◌, refl, ap, ◌⊎◌, inl, inr, true, false, ◌&&◌, Option, none,
  some, List, [], ◌∷◌, arith, ltb, leb, ◌==◌, Bool-cases, length, take, All, Reads,
}
use mathlib.Core.Logic.{◌↔◌}
use mathlib.Core.Path.{subst}
use native.Mathlib.Decide.{ℕ_discrete}
use deconz_lib.Base.Text.{strlen-length, IsChar}
use deconz_lib.Sstream.{Sstream, IsOpen}
use deconz_lib.Sstream.Search.{matches, match_count, starts_with, find_loop, find}

take-length : (s : List ℕ) → take (length s) s ≡ s
take-length [] = refl
take-length (c ∷ s) = ap (λ t. c ∷ t) (take-length s)

matches→Reads : (s m : List ℕ) (p : ℕ) → matches m p s ≡ true → Reads m p s
unfolding matches
matches→Reads [] m p h = tt
matches→Reads (c ∷ s) m p h = (ground arith, matches→Reads s m (p + 1) (ground arith))

Reads→matches : (s m : List ℕ) (p : ℕ) → Reads m p s → matches m p s ≡ true
unfolding matches
Reads→matches [] m p r = refl
Reads→matches (c ∷ s) m p (e, r) = ground (arith, Reads→matches s m (p + 1) r)

match_count-le : (s m : List ℕ) (p : ℕ) → match_count m p s ≤ length s
unfolding match_count
match_count-le [] m p = omega arith
match_count-le (c ∷ s) m p = ground (arith, match_count-le s m (p + 1))

count→Reads : (s m : List ℕ) (p : ℕ) → match_count m p s ≡ length s → Reads m p s
unfolding match_count
count→Reads [] m p h = tt
count→Reads (c ∷ s) m p h = (ground arith, count→Reads s m (p + 1) (ground arith))

Reads→count : (s m : List ℕ) (p : ℕ) → Reads m p s → match_count m p s ≡ length s
unfolding match_count
Reads→count [] m p r = refl
Reads→count (c ∷ s) m p (e, r) = ground (arith, Reads→count s m (p + 1) r)

-- On an open text with its cursor before the end, `U_sstream_starts_with` answers for a C string
-- that is not empty exactly whether its characters stand at the cursor, within the text.
pub starts_with_iff :
    (s : List ℕ) {m : List ℕ} {ss : Sstream}
    → All IsChar s
    → 0 < length s
    → IsOpen m ss
    → ss.pos < ss.len
    → (starts_with (some s) ss ≡ true) ↔ ((ss.pos + length s ≤ ss.len) × Reads m ss.pos s)
unfolding starts_with
starts_with_iff s {m} {ss} cs ne o h = (
  (λ e. (
    ground (arith, strlen-length s cs),
    matches→Reads s m ss.pos (ground (arith, strlen-length s cs, take-length s)),
  )),
  (λ r. ground (arith, strlen-length s cs, take-length s, Reads→matches s m ss.pos r.1)),
)

-- What the loop of `U_sstream_find` answers from `p` on.
abbrev FoundFrom : List ℕ → ℕ → List ℕ → ℕ → Option ℕ → Type 0
FoundFrom m len s p none = (j : ℕ) → p ≤ j → j + length s ≤ len → ¬ Reads m j s
FoundFrom m len s p (some q) =
    (p ≤ q) × (q + length s ≤ len) × Reads m q s × ((j : ℕ) → p ≤ j → j < q → ¬ Reads m j s)

find_loop_lem :
    (k : ℕ) (m : List ℕ) (len p : ℕ) (s : List ℕ)
    → 0 < length s
    → len ≤ p + k
    → FoundFrom m len s p (find_loop k m len p s)
unfolding find_loop
find_loop_lem zero m len p s ne h = λ j a b. absurd (omega arith)
find_loop_lem (suc k) m len p s ne h = elim (Bool-cases (ltb p len && leb (length s) (len - p))) [
  | inl room ↦ rw room (elim (Bool-cases (match_count m p s == length s)) [
    | inl hit ↦
        rw hit (
          omega arith,
          ground arith,
          count→Reads s m p (ground arith),
          λ j a b. absurd (omega arith),
        )
    | inr miss ↦ rw miss (
        later (find_loop k m len (p + 1) s) (λ r. ground (arith, Reads→count s m p r))
          (find_loop_lem k m len (p + 1) s ne (omega arith)))
  ])
  | inr none_left ↦ rw none_left (λ j a b. absurd (ground arith))
]
  where
    later : (o : Option ℕ) → ¬ Reads m p s → FoundFrom m len s (p + 1) o → FoundFrom m len s p o
    later none miss f = λ j a b. elim (ℕ_discrete p j) [
      | yes e ↦ subst (λ i. ¬ Reads m i s) e miss
      | no ne' ↦ f j (omega arith) b
    ]
    later (some q) miss (a, b, r, f) = (
      omega arith,
      b,
      r,
      λ j c d. elim (ℕ_discrete p j) [
        | yes e ↦ subst (λ i. ¬ Reads m i s) e miss
        | no ne' ↦ f j (omega arith) d
      ],
    )

module _ (s : List ℕ) where
  find-none :
      {m : List ℕ} {ss : Sstream}
      → All IsChar s
      → 0 < length s
      → IsOpen m ss
      → find_loop (ss.len - ss.pos) m ss.len ss.pos s ≡ none
      → find (some s) ss ≡ (false, ss)
  unfolding find
  find-none {m} {ss} cs ne o e = ground (arith, strlen-length s cs, take-length s)

  find-some :
      (q : ℕ) {m : List ℕ} {ss : Sstream}
      → All IsChar s
      → 0 < length s
      → IsOpen m ss
      → ss.pos < ss.len
      → find_loop (ss.len - ss.pos) m ss.len ss.pos s ≡ some q
      → find (some s) ss ≡ (true, record ss { pos = q })
  unfolding find
  find-some q {m} {ss} cs ne o h e = ground (arith, strlen-length s cs, take-length s)

-- `U_sstream_find` for a C string that is not empty, on an open text: either it answers yes and
-- moves the cursor to the first position from the cursor on where the characters stand within the
-- text, or it answers no, leaves the stream, and they stand at no such position.
pub find_lem :
    (s : List ℕ) {m : List ℕ} {ss : Sstream}
    → All IsChar s
    → 0 < length s
    → IsOpen m ss
    → ((q : ℕ) × (find (some s) ss ≡ (true, record ss { pos = q }))
        × (ss.pos ≤ q)
        × (q + length s ≤ ss.len)
        × Reads m q s
        × ((j : ℕ) → ss.pos ≤ j → j < q → ¬ Reads m j s))
      ⊎ ((find (some s) ss ≡ (false, ss))
          × ((j : ℕ) → ss.pos ≤ j → j + length s ≤ ss.len → ¬ Reads m j s))
find_lem s {m} {ss} cs ne o =
    by_loop (find_loop (ss.len - ss.pos) m ss.len ss.pos s) refl
      (find_loop_lem (ss.len - ss.pos) m ss.len ss.pos s ne (omega arith))
  where
    by_loop :
        (r : Option ℕ)
        → find_loop (ss.len - ss.pos) m ss.len ss.pos s ≡ r
        → FoundFrom m ss.len s ss.pos r
        → ((q : ℕ) × (find (some s) ss ≡ (true, record ss { pos = q }))
            × (ss.pos ≤ q)
            × (q + length s ≤ ss.len)
            × Reads m q s
            × ((j : ℕ) → ss.pos ≤ j → j < q → ¬ Reads m j s))
          ⊎ ((find (some s) ss ≡ (false, ss))
              × ((j : ℕ) → ss.pos ≤ j → j + length s ≤ ss.len → ¬ Reads m j s))
    by_loop none e f = inr (find-none s cs ne o e, f)
    by_loop (some q) e (a, b, r, f) = inl (q, find-some s q cs ne o (omega arith) e, a, b, r, f)
