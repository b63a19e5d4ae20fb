-- ===== src/Timer/Queue.antt =====
-- U_TimerInsertTimer, U_TimerReleaseTimer: the active timers as a queue by their trigger times.
use mathlib.Core.List.{Perm}
use mathlib.Core.List.Perm
use deconz_lib.Base.{
  ℕ, ◌≤◌, ◌≡◌, refl, inl, inr, false, ◌&&◌, none, some, List, [], ◌∷◌, arith, leb, ◌==◌, Bool-cases,
  All, leb→le, ◌++◌, ap,
}
use deconz_lib.Timer.{Timer, insert, take_out}

-- The trigger times do not decrease along the list.
abbrev pub IsSorted : List Timer → Type 0
IsSorted [] = Unit
IsSorted (t ∷ ts) = All (λ u. t.trigger_at ≤ u.trigger_at) ts × IsSorted ts

pub All-map :
    {P Q : Timer → Type 0} (f : (t : Timer) → P t → Q t) (ts : List Timer) → All P ts → All Q ts
All-map f [] h = tt
All-map f (t ∷ ts) (p, h) = (f t p, All-map f ts h)

pub insert-All :
    (P : Timer → Type 0) (t : Timer) (ts : List Timer) → P t → All P ts → All P (insert t ts)
unfolding insert
insert-All P t [] p h = (p, tt)
insert-All P t (u ∷ ts) p (q, h) = elim (Bool-cases (leb t.trigger_at u.trigger_at)) [
  | inl e ↦ rw e (p, (q, h))
  | inr e ↦ rw e (q, insert-All P t ts p h)
]

pub insert-IsSorted : (t : Timer) (ts : List Timer) → IsSorted ts → IsSorted (insert t ts)
unfolding insert
insert-IsSorted t [] s = (tt, tt)
insert-IsSorted t (u ∷ ts) (a, s) = elim (Bool-cases (leb t.trigger_at u.trigger_at)) [
  | inl before ↦
      rw before
        (((leb→le t.trigger_at u.trigger_at before), All-map (λ v h. ground (arith)) ts a), (a, s))
  | inr behind ↦ rw behind (insert-All _ t ts (ground arith) a, insert-IsSorted t ts s)
]

pub insert-Perm : (t : Timer) (ts : List Timer) → Perm (insert t ts) (t ∷ ts)
unfolding insert
insert-Perm t [] = Perm.refl (t ∷ [])
insert-Perm t (u ∷ ts) = elim (Bool-cases (leb t.trigger_at u.trigger_at)) [
  | inl e ↦ rw e (Perm.refl (t ∷ u ∷ ts))
  | inr e ↦ rw e (Perm.trans (Perm.cons u (insert-Perm t ts)) (Perm.swap t u ts))
]

abbrev pub Differs : ℕ → ℕ → Timer → Type 0
Differs actor_id timer_id t = ((t.actor_id == actor_id) && (t.timer_id == timer_id)) ≡ false

-- What the search for a timer ends with: no timer has the two ids, or `tmr` has them, and none
-- of the timers before it does.
pub data Found (actor_id timer_id : ℕ) (ts : List Timer) : Type 0 where
  absent :
      All (Differs actor_id timer_id) ts
      → take_out actor_id timer_id ts ≡ none
      → Found actor_id timer_id ts
  first :
      (before : List Timer) (tmr : Timer) (after : List Timer)
      → ts ≡ before ++ tmr ∷ after
      → All (Differs actor_id timer_id) before
      → tmr.actor_id ≡ actor_id
      → tmr.timer_id ≡ timer_id
      → take_out actor_id timer_id ts ≡ some (tmr, before ++ after)
      → Found actor_id timer_id ts

-- The search finds the first timer with the two ids, and takes only that one out of the list.
pub take_out_lem : (actor_id timer_id : ℕ) (ts : List Timer) → Found actor_id timer_id ts
unfolding take_out
take_out_lem a i [] = absent tt refl
take_out_lem a i (t ∷ ts) = elim (Bool-cases ((t.actor_id == a) && (t.timer_id == i))) [
  | inl same ↦ first [] t ts refl tt (ground arith) (ground arith) (rw same refl)
  | inr other ↦ elim (take_out_lem a i ts) [
    | absent h e ↦ absent (other, h) (rw other (rw e refl))
    | first before tmr after split h ea ei e ↦
        first (t ∷ before) tmr after (ap (λ l. t ∷ l) split) (other, h) ea ei (rw other (rw e refl))
  ]
]

pub All-omit :
    (P : Timer → Type 0) (before : List Timer) (tmr : Timer) (after : List Timer)
    → All P (before ++ tmr ∷ after)
    → All P (before ++ after)
All-omit P [] tmr after (p, h) = h
All-omit P (t ∷ before) tmr after (p, h) = (p, All-omit P before tmr after h)

pub IsSorted-omit :
    (before : List Timer) (tmr : Timer) (after : List Timer)
    → IsSorted (before ++ tmr ∷ after)
    → IsSorted (before ++ after)
IsSorted-omit [] tmr after (a, s) = s
IsSorted-omit (t ∷ before) tmr after (a, s) =
    (All-omit _ before tmr after a, IsSorted-omit before tmr after s)
