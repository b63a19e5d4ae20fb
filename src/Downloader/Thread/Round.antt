-- ===== src/Downloader/Thread/Round.antt =====
-- n_downloader.c: a round of the thread as a step of a queue of downloads.
use mathlib.Core.Path.{subst}
use deconz_lib.Base.{
  ◌≡◌, refl, sym, ap, ◌∙◌, ◌≢◌, Option, none, some, List, [], ◌∷◌, if-both, All, map,
}
use deconz_lib.Downloader.{
  Entry, EntryState, initial, tcp_connected, ssl_handshake, ssl_connected, wait_reply, entry_done,
  done, NetApi, Dl,
}
use deconz_lib.Downloader.Entries.{
  Ticket, ticket_of, IsEntry, IsNet, Kept, connect-Kept, send_request-Kept,
  ssl_handshake_step-IsEntry,
}
use deconz_lib.Downloader.Response.Keeps.{read_response-IsEntry}
use deconz_lib.Downloader.Thread.{is_shutdown, advance, is_entry_done, work, thread_round}
use deconz_lib.Downloader.Thread.Run.{Event, quiet, Pending, SpecStep, idle, finish}

abbrev pub IsSelf : Entry → Type 0
IsSelf e = IsEntry (ticket_of e) e

same : {p q : Pending} → p ≡ q → SpecStep p quiet q
same {p} e = subst (λ q. SpecStep p quiet q) e idle

self : {t : Ticket} {e : Entry} → IsEntry t e → IsSelf e
self {t} {e} inv = subst (λ s. IsEntry s e) (sym inv.ticket) inv

not_done : {t : Ticket} {e : Entry} → IsEntry t e → e.state ≢ entry_done → e.status ≢ done
not_done inv n h = n (inv.complete h).0

module _ {api : NetApi} where
  abbrev pub pending : Dl api → Pending
  pending dl = record {
    waiting = map ticket_of dl.busy_list;
    finished = map ticket_of dl.done_list;
  }

  pub record IsDl (dl : Dl api) : Type 0 where
    pub busy : All IsSelf dl.busy_list
    pub reported : All IsSelf dl.done_list

  -- A step of the code that keeps the entries and is a step of the queue.
  abbrev pub Follows : Dl api → Event → Dl api → Type 0
  Follows dl ev dl' = IsDl dl' × SpecStep (pending dl) ev (pending dl')

  abbrev pub FollowsIf : Dl api → Option (Dl api) → Type 0
  FollowsIf dl none = Unit
  FollowsIf dl (some dl') = Follows dl quiet dl'

  module _ (law : IsNet api) where
    advance-Kept :
        (st : EntryState) (e : Entry) (net : api.Net)
        → e.state ≡ st
        → IsSelf e
        → Kept api (ticket_of e) (advance api st e net)
    unfolding advance
    advance-Kept initial e net q inv = connect-Kept api e net (not_done inv (λ h. cc)) inv
    advance-Kept tcp_connected e net q inv = send_request-Kept api e net inv
    advance-Kept ssl_connected e net q inv = send_request-Kept api e net inv
    advance-Kept wait_reply e net q inv =
        read_response-IsEntry api law e net (not_done inv (λ h. cc)) inv
    advance-Kept ssl_handshake e net q inv =
        ssl_handshake_step-IsEntry api e net (not_done inv (λ h. cc)) inv
    advance-Kept entry_done e net q inv = inv

    work-Follows :
        (e : Entry) (rest : List Entry) (dl : Dl api)
        → dl.busy_list ≡ e ∷ rest
        → IsDl dl
        → FollowsIf dl (work api e rest dl)
    unfolding work
    work-Follows e rest dl q inv =
        let busy = subst (All IsSelf) q inv.busy in
        let waiting : map ticket_of dl.busy_list ≡ map ticket_of (e ∷ rest) =
          ap (map ticket_of) q in
        if-both (FollowsIf dl) (is_entry_done e.state)
          (
            record { busy = busy.1; reported = (busy.0, inv.reported) },
            subst
                (λ l.
                  SpecStep (record { waiting = l; finished = map ticket_of dl.done_list }) quiet
                    (record {
                      waiting = map ticket_of rest;
                      finished = map ticket_of (e ∷ dl.done_list);
                    }))
                (sym waiting) finish,
          )
          (by_advance (advance api e.state e dl.net) busy
            (advance-Kept e.state e dl.net refl busy.0))
      where
        by_advance :
            (r : Option (Entry × api.Net))
            → All IsSelf (e ∷ rest)
            → Kept api (ticket_of e) r
            → FollowsIf dl (elim r [
              | none ↦ none
              | some r ↦ some (record dl { net = r.1; busy_list = r.0 ∷ rest })
            ])
        by_advance none busy k = tt
        by_advance (some r) busy k = (
          record { busy = (self k, busy.1); reported = inv.reported },
          same (
              ap (λ l. record { waiting = l; finished = map ticket_of dl.done_list })
                (ap (map ticket_of) q ∙ ap (λ t. t ∷ map ticket_of rest) (sym k.ticket))),
        )

    pub round-Follows : (dl : Dl api) → IsDl dl → FollowsIf dl (thread_round api dl)
    unfolding thread_round
    round-Follows dl inv =
        if-both (FollowsIf dl) (is_shutdown dl.state) (inv, idle) (by_busy dl.busy_list refl)
      where
        by_busy :
            (l : List Entry)
            → dl.busy_list ≡ l
            → FollowsIf dl (elim l [ [] ↦ some dl | e ∷ rest ↦ work api e rest dl ])
        by_busy [] q = (inv, idle)
        by_busy (e ∷ rest) q = work-Follows e rest dl q inv
