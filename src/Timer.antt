-- ===== src/Timer.antt =====
-- u_timer.c: the timer actor. A list of records is a chain of `next` pointers. The actor library
-- (`am_api_functions`, `struct am_message`) is the parameter `api`; the result of each `msg_alloc`
-- is an argument. `total` and `trigger_at` are 64 bit numbers of the source that only grow from
-- zero; the timeouts that are added are 32 bit words of a message.
pub mod Queue
pub mod Actor
pub mod Fire
mod Tests
use deconz_lib.Base.{
  ℕ, ◌+◌, ◌-◌, Bool, true, false, ◌&&◌, Option, none, some, List, [], ◌∷◌, leb, ◌==◌, if◌then◌else◌,
}
use deconz_lib.Base.Int.{ℤ, pos, negsuc}

-- UTimer
pub record Timer : Type 0 where
  pub actor_id : ℕ
  pub timer_id : ℕ
  pub timeout : ℕ
  pub repeat : ℕ
  pub trigger_at : ℕ

-- U_TIMER_REPEAT_INFINITE
abbrev pub repeat_infinite : ℕ
repeat_infinite = 0xffffffff

-- AM_ACTOR_ID_TIMERS
abbrev pub timers_actor : ℕ
timers_actor = 8

-- The `id` of a message.
pub data MessageId : Type 0 where
  start_timer_req stop_timer_req timeout_notify other : MessageId

-- AM_CB_STATUS_OK, AM_CB_STATUS_INVALID, AM_CB_STATUS_UNSUPPORTED
pub data CbStatus : Type 0 where
  ok invalid unsupported : CbStatus

-- The functions of the actor library that put and get the parameters of a message; a get returns
-- the message with the parameter taken, `status_ok` is `msg->status == AM_MSG_STATUS_OK`.
pub record ActorApi : Type 1 where
  pub Payload : Type 0
  pub put_u16 : Payload → ℕ → Payload
  pub put_u32 : Payload → ℕ → Payload
  pub get_u16 : Payload → ℕ × Payload
  pub get_u32 : Payload → ℕ × Payload
  pub status_ok : Payload → Bool

-- `struct am_message`
pub record Message (api : ActorApi) : Type 0 where
  pub dst : ℕ
  pub src : ℕ
  pub id : MessageId
  pub payload : api.Payload

-- `u_active_timers`, `u_free_timers`, `t_total`, and the messages that were sent, the last first.
pub record Timers (api : ActorApi) : Type 0 where
  pub active : List Timer
  pub free : List Timer
  pub total : ℕ
  pub sent : List (Message api)

-- `U_TimerInsertTimer`, on the list that it inserts into.
pub insert : Timer → List Timer → List Timer
insert tmr [] = tmr ∷ []
insert tmr (cur ∷ next) =
    let rest = insert tmr next in
    if leb tmr.trigger_at cur.trigger_at then tmr ∷ cur ∷ next else cur ∷ rest

-- The loop of `U_TimerReleaseTimer`: the record that is found, and the list without it.
pub take_out : ℕ → ℕ → List Timer → Option (Timer × List Timer)
take_out actor_id timer_id [] = none
take_out actor_id timer_id (cur ∷ next) =
    let rest = take_out actor_id timer_id next in
    if (cur.actor_id == actor_id) && (cur.timer_id == timer_id)
    then some (cur, next)
    else elim rest [ none ↦ none | some (tmr, left) ↦ some (tmr, cur ∷ left) ]

-- An active timer after it fired at the time `now`, when it has repetitions left.
pub rearm : ℕ → Timer → Timer
rearm now tmr =
    let repeat = if tmr.repeat == repeat_infinite then tmr.repeat else tmr.repeat - 1 in
    record tmr { repeat = repeat; trigger_at = now + tmr.timeout }

-- `if (0 < diff) t_total += diff;`
pub advance : ℤ → ℕ → ℕ
advance (pos d) total = total + d
advance (negsuc d) total = total

module _ (api : ActorApi) where
  pub release : ℕ → ℕ → Timers api → Bool × Timers api
  unfolding take_out
  release actor_id timer_id s = elim (take_out actor_id timer_id s.active) [
    | none ↦ (false, s)
    | some (tmr, left) ↦ (true, record s { active = left; free = tmr ∷ s.free })
  ]

  -- `m` is the message of `msg_alloc`, none when there was no memory for it.
  pub send_timeout : Option api.Payload → Timer → Timers api → Timers api
  send_timeout none tmr s = s
  send_timeout (some m) tmr s =
      let payload = api.put_u32 (api.put_u16 m 0) tmr.timer_id in
      record s {
        sent =
            record {
              dst = tmr.actor_id;
              src = timers_actor;
              id = timeout_notify;
              payload = payload;
            }
            ∷ s.sent;
      }

  -- A record of the free list is used again; without one, memory for a record is allocated.
  pub start_request : api.Payload → Timers api → CbStatus × Timers api
  unfolding insert
  start_request msg s =
      let (tag, m1) = api.get_u16 msg in
      let (actor_id, m2) = api.get_u32 m1 in
      let (timer_id, m3) = api.get_u32 m2 in
      let (timeout, m4) = api.get_u32 m3 in
      let (repeat, m5) = api.get_u32 m4 in
      let tmr : Timer = record {
        actor_id = actor_id;
        timer_id = timer_id;
        timeout = timeout;
        repeat = repeat;
        trigger_at = s.total + timeout;
      } in
      if api.status_ok m5
      then (
        ok,
        record s { active = insert tmr s.active; free = elim s.free [ [] ↦ [] | _ ∷ next ↦ next ] },
      )
      else (invalid, s)

  pub stop_request : api.Payload → Timers api → CbStatus × Timers api
  unfolding release
  stop_request msg s =
      let (tag, m1) = api.get_u16 msg in
      let (actor_id, m2) = api.get_u32 m1 in
      let (timer_id, m3) = api.get_u32 m2 in
      if api.status_ok m3
      then (let (found, t) = release actor_id timer_id s in (if found then ok else invalid, t))
      else (invalid, s)

  -- `U_Timers_MessageCallback`
  pub callback : Message api → Timers api → CbStatus × Timers api
  unfolding start_request stop_request
  callback msg s = elim msg.id [
    | start_timer_req ↦ start_request msg.payload s
    | stop_timer_req ↦ stop_request msg.payload s
    | _ ↦ (unsupported, s)
  ]

  -- `U_TimerTick` at the time `now`, on the list of the active timers.
  pub tick_at : ℕ → Option api.Payload → List Timer → Timers api → Timers api
  unfolding insert rearm send_timeout
  tick_at now m [] s = s
  tick_at now m (tmr ∷ next) s =
      let t = send_timeout m tmr s in
      if leb tmr.trigger_at now
      then if tmr.repeat == 0
        then record t { active = next; free = tmr ∷ t.free }
        else record t { active = insert (rearm now tmr) next }
      else s

  pub tick : ℤ → Option api.Payload → Timers api → Timers api
  unfolding advance tick_at
  tick diff m s =
      let now = advance diff s.total in tick_at now m s.active (record s { total = now })

  -- `U_TimerInit`: the lists keep what they hold.
  abbrev init : Timers api → Timers api
  init s = record s { total = 0 }

  -- `U_TimerDestroy`: the records of both lists are freed.
  abbrev destroy : Timers api → Timers api
  destroy s = record s { active = []; free = [] }

  -- The message that `U_TimerStart` sends, when there is memory for it.
  abbrev start_message : Option api.Payload → ℕ → ℕ → ℕ → ℕ → Option (Message api)
  start_message none actor_id timer_id timeout repeat = none
  start_message (some m) actor_id timer_id timeout repeat =
      let m1 = api.put_u32 (api.put_u32 (api.put_u16 m 0) actor_id) timer_id in
      some (record {
        dst = timers_actor;
        src = timers_actor;
        id = start_timer_req;
        payload = api.put_u32 (api.put_u32 m1 timeout) repeat;
      })

  abbrev stop_message : Option api.Payload → ℕ → ℕ → Option (Message api)
  stop_message none actor_id timer_id = none
  stop_message (some m) actor_id timer_id = some (record {
    dst = timers_actor;
    src = timers_actor;
    id = stop_timer_req;
    payload = api.put_u32 (api.put_u32 (api.put_u16 m 0) actor_id) timer_id;
  })
