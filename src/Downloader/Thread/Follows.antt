-- ===== src/Downloader/Thread/Follows.antt =====
-- n_downloader.c: the code as a queue of downloads.
use mathlib.Core.Path.{subst}
use mathlib.Core.List.{map-append}
use deconz_lib.Base.{
  ℕ, zero, suc, ◌+◌, ◌<◌, ◌^◌, ◌≡◌, refl, sym, Bool, Option, none, some, List, [], ◌∷◌, ◌++◌, arith,
  leb, if◌then◌else◌, if-both, All, All-append, map, length-replicate,
}
use deconz_lib.Base.Int.{ℤ, pos, negsuc}
use deconz_lib.Base.Text.{strlen}
use deconz_lib.Downloader.{Entry, NetApi, Dl}
use deconz_lib.Downloader.Entries.{ticket_of, IsNet}
use deconz_lib.Downloader.Thread.{
  Outcome, outcome_of, data_of, no_outcome, usable, new_entry, next_handle, alloc_size, entry_size,
  is_down, is_initial, download_init, shut_down, joined, download_step, download,
}
use deconz_lib.Downloader.Thread.Run.{
  Event, quiet, asked, told, report_event, ask_event, Step, round, report, ask, begin, stop, join,
  SpecStep, idle, enqueue, tell,
}
use deconz_lib.Downloader.Thread.Round.{IsSelf, pending, IsDl, Follows, FollowsIf, round-Follows}

new_entry-IsSelf :
    (h : ℤ) (url : List ℕ) (maxsize : ℕ) (cb : Option ℕ) (user : ℕ)
    → maxsize < 2 ^ 32
    → IsSelf (new_entry h url maxsize cb user)
new_entry-IsSelf h url maxsize cb user small = record {
  ticket = refl;
  whole = length-replicate maxsize 0;
  small = small;
  filled = omega arith;
  header = omega arith;
  long = omega arith;
  complete = λ q. cc;
}

ask_event-usable :
    (z : ℤ) (cb : Option ℕ) (user : ℕ)
    → ask_event (usable z) cb user
      ≡ asked (record { handle = usable z; callback = cb; user = user })
ask_event-usable (pos zero) cb user = refl
ask_event-usable (pos (suc n)) cb user = refl
ask_event-usable (negsuc n) cb user = refl

told-ticket_of : (e : Entry) → report_event (outcome_of e) ≡ told (ticket_of e)
unfolding data_of
told-ticket_of e = by_callback e.callback
  where
    by_callback :
        (cb : Option ℕ)
        → report_event (record {
          called = elim cb [ none ↦ none | some f ↦ some (f, data_of e) ];
          freed = some e;
        })
          ≡ told (record { handle = e.handle; callback = cb; user = e.user })
    by_callback none = refl
    by_callback (some f) = refl

module _ {api : NetApi} where
  report-Follows :
      (dl : Dl api)
      → IsDl dl
      → Follows dl (report_event (download_step api dl).0) (download_step api dl).1
  unfolding download_step
  report-Follows dl inv =
      if-both (λ (r : Outcome × Dl api). Follows dl (report_event r.0) r.1) (is_initial dl.state)
        (inv, idle) (by_done dl.done_list refl)
    where
      by_done :
          (l : List Entry)
          → dl.done_list ≡ l
          → (λ (r : Outcome × Dl api). Follows dl (report_event r.0) r.1)
              (elim l [
                | [] ↦ (no_outcome, dl)
                | e ∷ rest ↦ (outcome_of e, record dl { done_list = rest })
              ])
      by_done [] q = (inv, idle)
      by_done (e ∷ rest) q =
          let reported = subst (All IsSelf) q inv.reported in
          (
            record { busy = inv.busy; reported = reported.1 },
            subst (λ ev. SpecStep (pending dl) ev (pending (record dl { done_list = rest })))
                (sym (told-ticket_of e))
                (subst
                  (λ l.
                    SpecStep
                      (record { waiting = map ticket_of dl.busy_list; finished = map ticket_of l })
                      (told (ticket_of e))
                      (record {
                        waiting = map ticket_of dl.busy_list;
                        finished = map ticket_of rest;
                      }))
                  (sym q) tell),
          )

  abbrev FollowsAsk : Option ℕ → ℕ → Dl api → Option (ℤ × Dl api) → Type 0
  FollowsAsk cb user dl none = Unit
  FollowsAsk cb user dl (some r) = Follows dl (ask_event r.0 cb user) r.1

  ask-Follows :
      (allocated : Bool) (url : List ℕ) (maxsize : ℕ) (cb : Option ℕ) (user : ℕ) (dl : Dl api)
      → maxsize < 2 ^ 32
      → IsDl dl
      → FollowsAsk cb user dl (download api allocated url maxsize cb user dl)
  unfolding download
  ask-Follows allocated url maxsize cb user dl small inv =
      if-both (FollowsAsk cb user dl) (is_down dl.state) (inv, idle)
        (by_size (alloc_size maxsize (strlen url)))
    where
      h : ℤ
      h = usable dl.handle

      e : Entry
      e = new_entry h url maxsize cb user

      queued : Dl api
      queued = record dl { handle = next_handle h; busy_list = dl.busy_list ++ (e ∷ []) }

      taken : Follows dl (ask_event h cb user) queued
      taken = (
        record {
          busy =
              All-append IsSelf dl.busy_list (e ∷ []) inv.busy
                (new_entry-IsSelf h url maxsize cb user small, tt);
          reported = inv.reported;
        },
        subst (λ ev. SpecStep (pending dl) ev (pending queued))
            (sym (ask_event-usable dl.handle cb user))
            (subst
              (λ l.
                SpecStep (pending dl) (asked (ticket_of e))
                  (record { waiting = l; finished = map ticket_of dl.done_list }))
              (sym (map-append ticket_of dl.busy_list (e ∷ []))) (enqueue (ticket_of e))),
      )

      by_size :
          (r : Option ℕ)
          → FollowsAsk cb user dl (elim r [
            | none ↦ none
            | some size ↦
                if allocated
                then if leb (entry_size + strlen url + 1 + maxsize) size
                  then some (h, queued)
                  else none
                else some (pos 0, dl)
          ])
      by_size none = tt
      by_size (some size) =
          if-both (FollowsAsk cb user dl) allocated
            (if-both (FollowsAsk cb user dl) (leb (entry_size + strlen url + 1 + maxsize) size)
              taken tt)
            (inv, idle)

  begin-Follows : (dl : Dl api) → IsDl dl → Follows dl quiet (download_init api dl)
  unfolding download_init
  begin-Follows dl inv =
      if-both (Follows dl quiet) (is_initial dl.state)
        (record { busy = inv.busy; reported = inv.reported }, idle) (inv, idle)

  -- Each step of the code, of the thread or of a caller, keeps the entries well formed and is a step
  -- of a queue: the thread ends the first download that waits, a caller adds one at the end, and
  -- `N_DownloadStep` reports the one that ended last: it calls its callback with its handle and its
  -- user, or none if it has none.
  pub Step-Follows :
      (law : IsNet api) {dl dl' : Dl api} {ev : Event}
      → Step api dl ev dl'
      → IsDl dl
      → Follows dl ev dl'
  unfolding shut_down joined
  Step-Follows law {dl} (round q) inv = subst (FollowsIf dl) q (round-Follows law dl inv)
  Step-Follows law report inv = report-Follows _ inv
  Step-Follows law {dl} (ask allocated url maxsize cb user small q) inv =
      subst (FollowsAsk cb user dl) q (ask-Follows allocated url maxsize cb user dl small inv)
  Step-Follows law begin inv = begin-Follows _ inv
  Step-Follows law stop inv = (record { busy = inv.busy; reported = inv.reported }, idle)
  Step-Follows law join inv = (record { busy = inv.busy; reported = inv.reported }, idle)
