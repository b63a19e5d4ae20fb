-- ===== src/Downloader/Thread/Run.antt =====
-- n_downloader.c: the calls and the thread in any order, each under the mutex.
use deconz_lib.Base.{ℕ, zero, suc, ◌<◌, ◌^◌, ◌≡◌, Bool, Option, none, some, List, [], ◌∷◌, ◌++◌}
use deconz_lib.Base.Int.{ℤ, pos, negsuc}
use deconz_lib.Downloader.{NetApi, Dl}
use deconz_lib.Downloader.Entries.{Ticket}
use deconz_lib.Downloader.Thread.{
  Outcome, thread_round, download_init, shut_down, joined, download_step, download,
}

-- What a caller sees: a download that was asked for, or one that was reported: its callback is
-- called with its handle and its user, or it has no callback and is freed.
pub data Event : Type 0 where
  quiet : Event
  asked : Ticket → Event
  told : Ticket → Event

abbrev pub report_event : Outcome → Event
report_event o = elim o.freed [
  | none ↦ quiet
  | some e ↦ elim o.called [
    | none ↦ told (record { handle = e.handle; callback = none; user = e.user })
    | some c ↦ told (record { handle = c.1.handle; callback = some c.0; user = c.1.user })
  ]
]

-- The event of `N_Download`, by its result.
abbrev pub ask_event : ℤ → Option ℕ → ℕ → Event
ask_event (pos zero) cb user = quiet
ask_event (pos (suc n)) cb user =
    asked (record { handle = pos (suc n); callback = cb; user = user })
ask_event (negsuc n) cb user = asked (record { handle = negsuc n; callback = cb; user = user })

pub data Step (api : NetApi) : Dl api → Event → Dl api → Type 0 where
  round : {dl dl' : Dl api} → thread_round api dl ≡ some dl' → Step api dl quiet dl'
  report :
      {dl : Dl api} → Step api dl (report_event (download_step api dl).0) (download_step api dl).1
  ask :
      {dl dl' : Dl api} {h : ℤ} (allocated : Bool) (url : List ℕ) (maxsize : ℕ) (cb : Option ℕ)
      (user : ℕ)
      → maxsize < 2 ^ 32
      → download api allocated url maxsize cb user dl ≡ some (h, dl')
      → Step api dl (ask_event h cb user) dl'
  begin : {dl : Dl api} → Step api dl quiet (download_init api dl)
  stop : {dl : Dl api} → Step api dl quiet (shut_down api dl)
  join : {dl : Dl api} → Step api dl quiet (joined api dl)

-- What the lists stand for: the downloads that wait, in order, and those that are to be reported.
pub record Pending : Type 0 where
  pub waiting : List Ticket
  pub finished : List Ticket

pub data SpecStep : Pending → Event → Pending → Type 0 where
  idle : {p : Pending} → SpecStep p quiet p
  finish :
      {t : Ticket} {ts us : List Ticket}
      → SpecStep
          (record { waiting = t ∷ ts; finished = us })
          quiet
          (record { waiting = ts; finished = t ∷ us })
  enqueue :
      {p : Pending} (t : Ticket)
      → SpecStep p (asked t) (record p { waiting = p.waiting ++ (t ∷ []) })
  tell :
      {t : Ticket} {ts us : List Ticket}
      → SpecStep
          (record { waiting = us; finished = t ∷ ts })
          (told t)
          (record { waiting = us; finished = ts })

-- What was asked for, and what was reported, the last first.
abbrev pub asks : Event → List Ticket → List Ticket
asks quiet ts = ts
asks (asked t) ts = t ∷ ts
asks (told t) ts = ts

abbrev pub tells : Event → List Ticket → List Ticket
tells quiet ts = ts
tells (asked t) ts = ts
tells (told t) ts = t ∷ ts

-- A run from `s`, with the downloads asked for and those reported.
pub data Run {api : NetApi} (s : Dl api) : Dl api → List Ticket → List Ticket → Type 0 where
  here : Run s s [] []
  next :
      {dl dl' : Dl api} {ev : Event} {us ts : List Ticket}
      → Run s dl us ts
      → Step api dl ev dl'
      → Run s dl' (asks ev us) (tells ev ts)
