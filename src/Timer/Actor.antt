-- ===== src/Timer/Actor.antt =====
-- U_TimerStartTimerRequest, U_TimerStopTimerRequest, U_Timers_MessageCallback: the messages to the
-- timer actor, and runs of messages and ticks.
use mathlib.Core.Path.{subst}
use deconz_lib.Base.{
  sym, ℕ, ◌+◌, ◌^◌, ◌≤◌, ◌<◌, ◌≡◌, refl, inl, inr, Option, none, some, List, [], ◌∷◌, arith, leb,
  ◌==◌, Bool-cases, All,
}
use deconz_lib.Base.Int.{ℤ, pos, negsuc}
use deconz_lib.Timer.{
  Timer, Timers, ActorApi, Message, unsupported, CbStatus, rearm, advance, release, send_timeout,
  start_request, stop_request, callback, tick_at, tick, start_timer_req, stop_timer_req,
  timeout_notify, other,
}
use deconz_lib.Timer.Queue.{
  IsSorted, All-map, All-omit, insert-All, insert-IsSorted, take_out_lem, IsSorted-omit, absent,
  first,
}

-- A timer's trigger time is at most its timeout ahead.
abbrev pub IsTimely : ℕ → Timer → Type 0
IsTimely now t = (t.timeout < 2 ^ 32) × (t.trigger_at ≤ now + t.timeout)

-- The active timers are in the order of their trigger times, and each is due within its timeout.
pub record IsQueue {api : ActorApi} (s : Timers api) : Type 0 where
  pub sorted : IsSorted s.active
  pub timely : All (IsTimely s.total) s.active

later : (a b : ℕ) → a ≤ b → (t : Timer) → IsTimely a t → IsTimely b t
later a b h t (w, d) = (w, omega arith)

advance_le : (d : ℤ) (n : ℕ) → n ≤ advance d n
unfolding advance
advance_le (pos d) n = omega arith
advance_le (negsuc d) n = omega arith

-- What happens to the timer actor: a message is delivered, or the core's loop ticks.
pub data Event (api : ActorApi) : Type 0 where
  deliver : Message api → Event api
  elapse : ℤ → Option api.Payload → Event api

module _ {api : ActorApi} where
  start_request-IsQueue :
      (word : (m : api.Payload) → (api.get_u32 m).0 < 2 ^ 32) (msg : api.Payload) {s : Timers api}
      → IsQueue s
      → IsQueue (start_request api msg s).1
  unfolding start_request
  start_request-IsQueue word msg {s} q =
      let m1 = (api.get_u16 msg).1 in
      let m2 = (api.get_u32 m1).1 in
      let m3 = (api.get_u32 m2).1 in
      let m4 = (api.get_u32 m3).1 in
      elim (Bool-cases (api.status_ok (api.get_u32 m4).1)) [
        | inl fine ↦ rw fine (record {
          sorted = insert-IsSorted _ s.active q.sorted;
          timely = insert-All _ _ s.active (word m3, omega arith) q.timely;
        })
        | inr bad ↦ rw bad q
      ]

  release-IsQueue : (a i : ℕ) {s : Timers api} → IsQueue s → IsQueue (release api a i s).1
  unfolding release
  release-IsQueue a i {s} q = elim (take_out_lem a i s.active) [
    | absent h e ↦ rw (release, e) q
    | first before tmr after split h ea ei e ↦
        rw (release, e)
          (record {
            sorted = IsSorted-omit before tmr after (subst IsSorted split q.sorted);
            timely = All-omit _ before tmr after (subst (All (IsTimely s.total)) split q.timely);
          })
  ]

  stop_request-IsQueue :
      (msg : api.Payload) {s : Timers api} → IsQueue s → IsQueue (stop_request api msg s).1
  unfolding stop_request
  stop_request-IsQueue msg {s} q =
      let m1 = (api.get_u16 msg).1 in
      let m2 = (api.get_u32 m1).1 in
      elim (Bool-cases (api.status_ok (api.get_u32 m2).1)) [
        | inl fine ↦ rw fine (release-IsQueue (api.get_u32 m1).0 (api.get_u32 m2).0 q)
        | inr bad ↦ rw bad q
      ]

  send_timeout-active :
      (m : Option api.Payload) (tmr : Timer) (s : Timers api)
      → ((send_timeout api m tmr s).active ≡ s.active)
        × ((send_timeout api m tmr s).total ≡ s.total)
  unfolding send_timeout
  send_timeout-active none tmr s = (refl, refl)
  send_timeout-active (some m) tmr s = (refl, refl)

  tick_at-IsQueue :
      (now : ℕ) (m : Option api.Payload) (ts : List Timer) {s : Timers api}
      → s.active ≡ ts
      → s.total ≡ now
      → IsQueue s
      → IsQueue (tick_at api now m ts s)
  unfolding tick_at
  tick_at-IsQueue now m [] e z q = q
  tick_at-IsQueue now m (tmr ∷ next) {s} e z q =
      let (a, sorted) = subst IsSorted e q.sorted in
      let ((w, due), timely) = subst (All (IsTimely s.total)) e q.timely in
      let (same, time) = send_timeout-active m tmr s in
      elim (Bool-cases (leb tmr.trigger_at now)) [
        | inr early ↦ rw early q
        | inl over ↦ rw over (elim (Bool-cases (tmr.repeat == 0)) [
          | inl last ↦ rw last (record {
            sorted = sorted;
            timely = subst (λ n. All (IsTimely n) next) (sym time) timely;
          })
          | inr again ↦ rw again (record {
            sorted = insert-IsSorted _ next sorted;
            timely =
                unfold rearm in
                insert-All _ _ next (w, ground arith)
                  (subst (λ n. All (IsTimely n) next) (sym time) timely);
          })
        ])
      ]

  tick-IsQueue :
      (diff : ℤ) (m : Option api.Payload) {s : Timers api} → IsQueue s → IsQueue (tick api diff m s)
  unfolding tick
  tick-IsQueue diff m {s} q = tick_at-IsQueue (advance diff s.total) m s.active refl refl (record {
    sorted = q.sorted;
    timely =
        All-map (later s.total (advance diff s.total) (advance_le diff s.total)) s.active q.timely;
  })

  pub run : List (Event api) → Timers api → Timers api
  run [] s = s
  run (deliver msg ∷ es) s = run es (callback api msg s).1
  run (elapse diff m ∷ es) s = run es (tick api diff m s)

  callback-IsQueue :
      (word : (m : api.Payload) → (api.get_u32 m).0 < 2 ^ 32) (msg : Message api) {s : Timers api}
      → IsQueue s
      → IsQueue (callback api msg s).1
  unfolding callback
  callback-IsQueue word msg {s} q =
      elim msg.id
        as (λ i.
          IsQueue
            (elim i as (λ _. CbStatus × Timers api) [
              | start_timer_req ↦ start_request api msg.payload s
              | stop_timer_req ↦ stop_request api msg.payload s
              | _ ↦ (unsupported, s)
            ]).1) [
              | start_timer_req ↦ start_request-IsQueue word msg.payload q
              | stop_timer_req ↦ stop_request-IsQueue msg.payload q
              | timeout_notify ↦ q
              | other ↦ q
            ]

  -- Whatever messages and ticks come, the active timers stay in the order of their trigger times,
  -- and none is due later than its timeout from now, which is a 32 bit word, when the words of
  -- the messages are.
  pub run-IsQueue :
      (word : (m : api.Payload) → (api.get_u32 m).0 < 2 ^ 32) (es : List (Event api))
      {s : Timers api}
      → IsQueue s
      → IsQueue (run es s)
  unfolding run
  run-IsQueue word [] q = q
  run-IsQueue word (deliver msg ∷ es) q = run-IsQueue word es (callback-IsQueue word msg q)
  run-IsQueue word (elapse diff m ∷ es) q = run-IsQueue word es (tick-IsQueue diff m q)
