-- ===== src/BufferPool/Dirt.antt =====
-- BP_LoadPage: the dirty pages, which each round makes fewer.
use deconz_lib.Base.{
  ℕ, zero, suc, ◌+◌, ◌≤◌, ◌<◌, ◌≡◌, refl, ap, Bool, true, false, List, [], ◌∷◌, arith,
  if◌then◌else◌, length, set,
}
use deconz_lib.BufferPool.{Page}
use deconz_lib.BufferPool.View.{page_at}
use deconz_lib.BufferPool.Sweep.{SameDirt}

-- The number of pages that are dirty.
abbrev pub dirty_count : List Page → ℕ
dirty_count [] = 0
dirty_count (g ∷ gs) = (if g.dirty then 1 else 0) + dirty_count gs

pub dirty_count-SameDirt :
    (ps qs : List Page) → length qs ≡ length ps → SameDirt ps qs → dirty_count qs ≡ dirty_count ps
dirty_count-SameDirt [] [] l d = refl
dirty_count-SameDirt [] (h ∷ qs) l d = absurd (omega (arith, l))
dirty_count-SameDirt (g ∷ ps) [] l d = absurd (omega (arith, l))
dirty_count-SameDirt (g ∷ ps) (h ∷ qs) l d =
    let rest = dirty_count-SameDirt ps qs (omega (arith, l)) (λ i. d (suc i)) in
    let one_or_zero : Bool → ℕ = λ b. if b then 1 else 0 in
    let first : one_or_zero h.dirty ≡ one_or_zero g.dirty = ap one_or_zero (d 0) in
    omega (arith, rest, first)

pub dirty_count-clean :
    (ps : List Page) (i : ℕ) (g : Page)
    → i < length ps
    → (page_at ps i).dirty ≡ true
    → g.dirty ≡ false
    → dirty_count (set ps i g) + 1 ≡ dirty_count ps
dirty_count-clean [] i g l d c = absurd (omega arith)
dirty_count-clean (h ∷ ps) zero g l d c = rw (d, c) (omega arith)
dirty_count-clean (h ∷ ps) (suc i) g l d c =
    omega (arith, dirty_count-clean ps i g (omega arith) d c)

pub dirty_count_le : (ps : List Page) → dirty_count ps ≤ length ps
dirty_count_le [] = omega arith
dirty_count_le (g ∷ ps) = ground (arith, dirty_count_le ps)
