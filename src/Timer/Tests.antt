-- ===== src/Timer/Tests.antt =====
-- Runs of the timer actor, and its theorems at concrete inputs, with a message as the list of its
-- parameters.
use deconz_lib.Base.{
  ◌+◌, ℕ, ◌%◌, ◌^◌, ◌<◌, ◌≡◌, refl, true, none, some, List, [], ◌∷◌, ◌++◌, arith, length,
}
use deconz_lib.Base.Int.{pos}
use deconz_lib.Timer.{Timer, Timers, ActorApi, start_timer_req, stop_timer_req, tick}
use deconz_lib.Timer.Actor.{IsQueue, Event, deliver, elapse, run, run-IsQueue}
use deconz_lib.Timer.Fire.{Ticked, tick_lem, ticks, ticks-repeat}

abbrev first_of : List ℕ → ℕ × List ℕ
first_of [] = (0, [])
first_of (x ∷ xs) = (x % 2 ^ 32, xs)

abbrev list_api : ActorApi
list_api = record {
  Payload = List ℕ;
  put_u16 = λ m x. m ++ x % 2 ^ 16 ∷ [];
  put_u32 = λ m x. m ++ x % 2 ^ 32 ∷ [];
  get_u16 = first_of;
  get_u32 = first_of;
  status_ok = λ m. true;
}

first_of-word : (m : List ℕ) → (first_of m).0 < 2 ^ 32
first_of-word [] = omega arith
first_of-word (x ∷ xs) = omega arith

abbrev blink : Timer
blink = record { actor_id = 1; timer_id = 7; timeout = 50; repeat = 2; trigger_at = 50 }

abbrev poll : Timer
poll = record { actor_id = 2; timer_id = 9; timeout = 80; repeat = 0; trigger_at = 80 }

abbrev idle : Timers list_api
idle = record { active = []; free = []; total = 0; sent = [] }

abbrev two : Timers list_api
two = record { active = blink ∷ poll ∷ []; free = []; total = 0; sent = [] }

abbrev one : Timers list_api
one = record { active = blink ∷ []; free = []; total = 0; sent = [] }

idle-IsQueue : IsQueue idle
idle-IsQueue = record { sorted = tt; timely = tt }

abbrev story : List (Event list_api)
story =
    deliver (record { dst = 8; src = 8; id = start_timer_req; payload = 0 ∷ 1 ∷ 7 ∷ 50 ∷ 2 ∷ [] })
    ∷ elapse (pos 20) none
    ∷ elapse (pos 40) (some [])
    ∷ deliver (record { dst = 8; src = 8; id = stop_timer_req; payload = 0 ∷ 1 ∷ 7 ∷ [] })
    ∷ []

run-IsQueue_example : IsQueue (run story idle)
run-IsQueue_example = run-IsQueue first_of-word story idle-IsQueue

tick_lem_example : Ticked (0 + 60) [] two (tick list_api (pos 60) (some []) two)
tick_lem_example = tick_lem (pos 60) [] ((omega arith, tt), (tt, tt))

ticks-repeat_example :
    ((ticks 3 60 [] one).active ≡ [])
    × (length (ticks 3 60 [] one).sent ≡ 3)
    × (length (ticks 3 60 [] one).free ≡ 1)
ticks-repeat_example =
    ticks-repeat 2 60 [] blink one refl refl (omega arith) (omega arith) (omega arith)
