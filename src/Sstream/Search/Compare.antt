-- ===== src/Sstream/Search/Compare.antt =====
-- U_sstream_compare and the lexicographic order.
use deconz_lib.Base.{
  ℕ, zero, suc, ◌+◌, ◌≡◌, refl, ◌≢◌, some, List, [], ◌∷◌, arith, ltb, ◌==◌, if◌then◌else◌, length,
  All, Reads,
}
use deconz_lib.Base.Int.{ℤ, pos, negsuc}
use deconz_lib.Base.Text.{IsChar}
use deconz_lib.Sstream.{Sstream, IsOpen}
use deconz_lib.Sstream.Search.{difference, compare_loop, compare_text}

-- The order of C strings, as the sign of a number: the first differing character decides, and a
-- proper prefix comes first.
pub data Order : Type 0 where
  less equal greater : Order

abbrev pub order_of : ℤ → Order
order_of (pos zero) = equal
order_of (pos (suc n)) = greater
order_of (negsuc n) = less

pub lexicographic : List ℕ → List ℕ → Order
lexicographic [] [] = equal
lexicographic [] (c ∷ s) = less
lexicographic (b ∷ t) [] = greater
lexicographic (b ∷ t) (c ∷ s) =
    let rest = lexicographic t s in if b == c then rest else if ltb b c then less else greater

order_of-difference :
    (a b : ℕ) → a ≢ b → order_of (difference a b) ≡ (if ltb a b then less else greater)
order_of-difference a b ne = ground arith

compare_loop-lexicographic :
    (t s m : List ℕ) (i : ℕ)
    → All IsChar t
    → All IsChar s
    → Reads m i t
    → order_of (compare_loop (length t) m i s) ≡ lexicographic t s
unfolding compare_loop lexicographic
compare_loop-lexicographic [] [] m i ct cs r = refl
compare_loop-lexicographic [] (c ∷ s) m i ct cs r = ground (arith, order_of-difference 0 c)
compare_loop-lexicographic (b ∷ t) [] m i ct cs r = ground arith
compare_loop-lexicographic (b ∷ t) (c ∷ s) m i (hb, ct) (hc, cs) (e, r) =
    ground (arith, order_of-difference b c, compare_loop-lexicographic t s m (i + 1) ct cs r)

-- On an open stream whose text up to the cursor is `t`, `U_sstream_compare` with a C string gives a
-- number whose sign is the lexicographic order of the two.
compare_text-lexicographic :
    (t s : List ℕ) {m : List ℕ} {ss : Sstream}
    → All IsChar t
    → All IsChar s
    → IsOpen m ss
    → ss.pos ≡ length t
    → Reads m 0 t
    → order_of (compare_text (some s) ss) ≡ lexicographic t s
unfolding compare_text
compare_text-lexicographic t s {m} {ss} ct cs o e r =
    ground (arith, compare_loop-lexicographic t s m 0 ct cs r)
