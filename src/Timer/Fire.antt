-- ===== src/Timer/Fire.antt =====
-- U_TimerTick: which timer fires, what is sent, and how often a timer fires.
use mathlib.Core.List.{Perm}
use mathlib.Core.Path.{subst}
use deconz_lib.Base.{
  zero, le→leb, ◌∙◌, ℕ, suc, ◌+◌, ◌-◌, ◌⊎◌, ==→eq, ◌≤◌, ◌<◌, ◌≡◌, refl, sym, inl, inr, false, some,
  List, [], ◌∷◌, arith, leb, ◌==◌, Bool-cases, All, length, ◌≢◌, if◌then◌else◌,
}
use deconz_lib.Base.Int.{ℤ, pos, negsuc}
use deconz_lib.Timer.{
  Timer, Timers, ActorApi, Message, insert, rearm, advance, send_timeout, tick_at, tick,
  timeout_notify, timers_actor, repeat_infinite,
}
use deconz_lib.Timer.Queue.{IsSorted, All-map, insert-Perm}

-- The repetitions that are left after one of them: as many if they have no end, else one less.
abbrev pub IsLeft : ℕ → ℕ → Type 0
IsLeft repeat left =
    (repeat ≡ repeat_infinite) × (left ≡ repeat) ⊎ (repeat ≢ repeat_infinite) × (repeat ≡ suc left)

-- The time that a tick adds.
abbrev pub passed : ℤ → ℕ
passed (pos d) = d
passed (negsuc d) = 0

advance-passed : (diff : ℤ) (total : ℕ) → advance diff total ≡ total + passed diff
unfolding advance
advance-passed (pos d) total = refl
advance-passed (negsuc d) total = omega arith

rearm-IsLeft :
    (now : ℕ) (tmr : Timer)
    → tmr.repeat ≢ 0
    → (left : ℕ) × IsLeft tmr.repeat left
      × (rearm now tmr ≡ record tmr { repeat = left; trigger_at = now + tmr.timeout })
unfolding rearm
rearm-IsLeft now tmr some_left = elim (Bool-cases (tmr.repeat == repeat_infinite)) [
  | inl endless ↦ (tmr.repeat, inl (==→eq _ _ endless, refl), rw endless refl)
  | inr less ↦
      (tmr.repeat - 1, inr ((λ q. ground (arith, q, less)), omega (arith, some_left)), rw less refl)
]

module _ {api : ActorApi} where
  -- The message to the actor of a timer.
  abbrev pub notice : api.Payload → Timer → Message api
  notice m tmr = record {
    dst = tmr.actor_id;
    src = timers_actor;
    id = timeout_notify;
    payload = api.put_u32 (api.put_u16 m 0) tmr.timer_id;
  }

  -- What a tick at the time `now` with the message `m` makes of `s`.
  pub data Ticked (now : ℕ) (m : api.Payload) (s t : Timers api) : Type 0 where
    waits : All (λ u. now < u.trigger_at) s.active → t ≡ record s { total = now } → Ticked now m s t
    ends :
        (tmr : Timer) (next : List Timer)
        → s.active ≡ tmr ∷ next
        → tmr.trigger_at ≤ now
        → All (λ u. tmr.trigger_at ≤ u.trigger_at) next
        → tmr.repeat ≡ 0
        → t
          ≡ record { active = next; free = tmr ∷ s.free; total = now; sent = notice m tmr ∷ s.sent }
        → Ticked now m s t
    repeats :
        (tmr : Timer) (next : List Timer) (left : ℕ)
        → s.active ≡ tmr ∷ next
        → tmr.trigger_at ≤ now
        → All (λ u. tmr.trigger_at ≤ u.trigger_at) next
        → tmr.repeat ≢ 0
        → t.free ≡ s.free
        → t.total ≡ now
        → t.sent ≡ notice m tmr ∷ s.sent
        → IsLeft tmr.repeat left
        → Perm t.active (record tmr { repeat = left; trigger_at = now + tmr.timeout } ∷ next)
        → Ticked now m s t

  -- A tick of a queue in order, at the time of the queue and the difference if this is not negative:
  -- when no timer is due only the time goes on; otherwise one timer fires, the first due, its actor
  -- is sent its id, and the timer is freed if no repetition is left, or stays with one less, unless
  -- they have no end, and with its timeout behind the time as the next trigger time, while the
  -- other timers stay.
  pub tick_lem :
      (diff : ℤ) (m : api.Payload) {s : Timers api}
      → IsSorted s.active
      → Ticked (s.total + passed diff) m s (tick api diff (some m) s)
  unfolding tick
  tick_lem diff m {s} sorted =
      subst (λ now. Ticked now m s (tick api diff (some m) s)) (advance-passed diff s.total)
        (on s.active refl sorted)
    where
      on :
          (ts : List Timer)
          → s.active ≡ ts
          → IsSorted ts
          → Ticked (advance diff s.total) m s (
              tick_at api
                (advance diff s.total)
                (some m)
                ts
                (record s { total = advance diff s.total }))
      on [] e o = waits (subst (All _) (sym e) tt) refl
      on (tmr ∷ next) e (a, o) = elim (Bool-cases (leb tmr.trigger_at (advance diff s.total))) [
        | inr early ↦ rw early (
            waits (subst (All _) (sym e) (ground arith, All-map (λ v h. ground arith) next a)) refl)
        | inl due ↦ rw due (elim (Bool-cases (tmr.repeat == 0)) [
          | inl last ↦ rw last (ends tmr next e (ground arith) a (ground arith) refl)
          | inr again ↦ rw again (
              let (left, is_left, same) =
                rearm-IsLeft (advance diff s.total) tmr (λ z. ground arith) in
              repeats tmr next left e (ground arith) a (λ z. ground arith) refl refl refl is_left
                (subst (λ u. Perm (insert (rearm (advance diff s.total) tmr) next) (u ∷ next)) same
                  (insert-Perm _ next)))
        ])
      ]

  -- `n` ticks, each `d` later.
  pub ticks : ℕ → ℕ → api.Payload → Timers api → Timers api
  ticks zero d m s = s
  ticks (suc n) d m s = ticks n d m (tick api (pos d) (some m) s)

  fires :
      (d : ℕ) (m : api.Payload) (tmr : Timer) (s : Timers api)
      → s.active ≡ tmr ∷ []
      → tmr.trigger_at ≤ s.total + d
      → tick api (pos d) (some m) s ≡ record s {
        total = s.total + d;
        sent = notice m tmr ∷ s.sent;
        active = if tmr.repeat == 0 then [] else rearm (s.total + d) tmr ∷ [];
        free = if tmr.repeat == 0 then tmr ∷ s.free else s.free;
      }
  unfolding tick tick_at advance insert send_timeout
  fires d m tmr s e h =
      rw (e, le→leb tmr.trigger_at (s.total + d) h)
        (elim (Bool-cases (tmr.repeat == 0)) [
          | inl last ↦ rw last refl
          | inr again ↦ rw again refl
        ])

  ticks-suc :
      (n d : ℕ) (m : api.Payload) (s : Timers api)
      → ticks (suc n) d m s ≡ ticks n d m (tick api (pos d) (some m) s)
  unfolding ticks
  ticks-suc n d m s = refl

  -- A timer that is alone and is started with `repeat` below the infinite fires `repeat + 1`
  -- times, when each tick is at least its timeout after the last one: then it is not active any
  -- more, and its record is free.
  pub ticks-repeat :
      (r d : ℕ) (m : api.Payload) (tmr : Timer) (s : Timers api)
      → s.active ≡ tmr ∷ []
      → tmr.repeat ≡ r
      → r < repeat_infinite
      → tmr.timeout ≤ d
      → tmr.trigger_at ≤ s.total + d
      → ((ticks (suc r) d m s).active ≡ [])
        × (length (ticks (suc r) d m s).sent ≡ suc r + length s.sent)
        × (length (ticks (suc r) d m s).free ≡ suc (length s.free))
  ticks-repeat zero d m tmr s e z small h due =
      unfold ticks in rw (fires d m tmr s e due, z) (refl, omega arith, refl)
  ticks-repeat (suc r) d m tmr s e z small h due =
      let next = rearm (s.total + d) tmr in
      let t : Timers api = record s {
        total = s.total + d;
        sent = notice m tmr ∷ s.sent;
        active = next ∷ [];
      } in
      let soon : tmr.timeout ≤ d = h in
      let due_again : s.total + d + tmr.timeout ≤ s.total + d + d = omega arith in
      let (a, b, c) =
        ticks-repeat r d m next t refl (unfold rearm in ground arith) (omega arith)
          (unfold rearm in soon) (unfold rearm in due_again) in
      let again : (tmr.repeat == 0) ≡ false = ground (arith, z) in
      rw (ticks-suc (suc r) d m s, fires d m tmr s e due, again) (a, b ∙ omega arith, c)
