-- ===== src/Downloader/Entries.antt =====
-- n_downloader.c: what holds of an entry at every time, and the branches of the thread.
use deconz_lib.Base.{
  ℕ, zero, suc, ◌+◌, ◌≤◌, ◌<◌, ◌^◌, ◌≡◌, ◌≢◌, Option, none, some, List, [], arith, if-both, length,
  take, drop, replicate, length-replicate,
}
use deconz_lib.Base.Int.{ℤ, pos, negsuc, InRange}
use deconz_lib.Sstream.{memory}
use deconz_lib.Downloader.{
  Entry, EntryState, entry_done, DownloadStatus, done, starting, error, NetApi, handshake_failed,
  send_request_failed, ssl_connected, host_size, request, Scheme, scheme_of, copy_host, c_string,
  open_socket, connect_to, connect_host, connect, ssl_handshake_step, write_request, send_text,
  send_request,
}
use deconz_lib.Downloader.Response.{total_size}

-- Who asked for a download, and who is told.
pub record Ticket : Type 0 where
  pub handle : ℤ
  pub callback : Option ℕ
  pub user : ℕ

abbrev pub ticket_of : Entry → Ticket
ticket_of e = record { handle = e.handle; callback = e.callback; user = e.user }

-- The entry belongs to the ticket. The data lies in the buffer, the header in the data, and a download is done when both sizes give
-- the size of the data.
pub record IsEntry (t : Ticket) (e : Entry) : Type 0 where
  pub ticket : ticket_of e ≡ t
  pub whole : length e.buf ≡ e.bufsize
  pub small : e.bufsize < 2 ^ 32
  pub filled : e.bufpos ≤ e.bufsize
  pub header : e.hdr_length ≤ e.bufpos
  pub long : InRange 63 e.content_length
  pub complete :
      e.status ≡ done
      → (e.state ≡ entry_done) × (total_size e.hdr_length e.content_length ≡ pos e.bufpos)

-- The documented behaviour of a read: no more bytes than there is room for.
abbrev pub bytes_of : Option (List ℕ) → List ℕ
bytes_of none = []
bytes_of (some bs) = bs

pub record IsNet (api : NetApi) : Type 0 where
  pub tcp_fits : (n : api.Net) (room : ℕ) → length (bytes_of (api.tcp_read n room).0) ≤ room
  pub ssl_fits : (n : api.Net) (room : ℕ) → length (bytes_of (api.ssl_read n room).0) ≤ room

-- A change of state and status that does not report success.
pub restate-IsEntry :
    {t : Ticket} (e : Entry) (st : EntryState) (s : DownloadStatus)
    → s ≢ done
    → IsEntry t e
    → IsEntry t (record e { status = s; state = st })
restate-IsEntry e st s n inv = record {
  ticket = inv.ticket;
  whole = inv.whole;
  small = inv.small;
  filled = inv.filled;
  header = inv.header;
  long = inv.long;
  complete = λ h. absurd (n h);
}

module _ (api : NetApi) where
  -- The entry of a result, if there is one.
  abbrev pub Kept : Ticket → Option (Entry × api.Net) → Type 0
  Kept t none = Unit
  Kept t (some r) = IsEntry t r.0

  connect_to-Kept :
      {t : Ticket} (s : Scheme) (host : Option (List ℕ)) (e : Entry) (net : api.Net)
      → IsEntry t e
      → Kept t (connect_to api s host e net)
  unfolding connect_to
  connect_to-Kept s none e net inv = tt
  connect_to-Kept {t} s (some host) e net inv = by_answer (open_socket api s host net)
    where
      by_answer :
          (r : Option EntryState × api.Net)
          → Kept t (elim r.0 [
            | none ↦ some (record e { status = error; state = entry_done }, r.1)
            | some st ↦ some (record e { status = starting; state = st }, r.1)
          ])
      by_answer (none, n) = restate-IsEntry e entry_done error (λ q. cc) inv
      by_answer (some st, n) = restate-IsEntry e st starting (λ q. cc) inv

  connect_host-Kept :
      {t : Ticket} (s : Scheme) (e : Entry) (net : api.Net)
      → e.status ≢ done
      → IsEntry t e
      → Kept t (connect_host api s e net)
  unfolding connect_host
  connect_host-Kept {t} s e net n inv =
      by_copy (copy_host (drop s.at e.url) 0 (replicate host_size 0))
    where
      by_copy :
          (r : Option (List ℕ × ℕ))
          → Kept t (elim r [
            | none ↦ none
            | some r ↦
                connect_to api s
                  (c_string r.0)
                  (record e { ssl = s.ssl; host = r.0; urlpath = s.at + r.1 })
                  net
          ])
      by_copy none = tt
      by_copy (some r) =
          let e' = record e { ssl = s.ssl; host = r.0; urlpath = s.at + r.1 } in
          connect_to-Kept s (c_string r.0) e' net (record {
            ticket = inv.ticket;
            whole = inv.whole;
            small = inv.small;
            filled = inv.filled;
            header = inv.header;
            long = inv.long;
            complete = λ h. absurd (n h);
          })

  pub connect-Kept :
      {t : Ticket} (e : Entry) (net : api.Net)
      → e.status ≢ done
      → IsEntry t e
      → Kept t (connect api e net)
  unfolding connect
  connect-Kept {t} e net n inv = by_scheme (scheme_of e.url)
    where
      by_scheme :
          (r : Option Scheme)
          → Kept t (elim r [
            | none ↦
                some (
                  record e { host = replicate host_size 0; status = error; state = entry_done },
                  net,
                )
            | some s ↦ connect_host api s e net
          ])
      by_scheme none = record {
        ticket = inv.ticket;
        whole = inv.whole;
        small = inv.small;
        filled = inv.filled;
        header = inv.header;
        long = inv.long;
        complete = λ h. cc;
      }
      by_scheme (some s) = connect_host-Kept s e net n inv

  pub send_request-Kept :
      {t : Ticket} (e : Entry) (net : api.Net) → IsEntry t e → Kept t (send_request api e net)
  unfolding send_request send_text
  send_request-Kept {t} e net inv = by_host (c_string e.host)
    where
      by_host :
          (host : Option (List ℕ))
          → Kept t (elim host [
            | none ↦ none
            | some host ↦ some (send_text api (request (drop e.urlpath e.url) host) e net)
          ])
      by_host none = tt
      by_host (some host) =
          let ss = request (drop e.urlpath e.url) host in
          let (sent, n) = write_request api e.state (take ss.pos (memory ss)) net in
          if-both {A = Entry × api.Net} (λ r. IsEntry t r.0) sent
            (record {
              ticket = inv.ticket;
              whole = length-replicate e.bufsize 0;
              small = inv.small;
              filled = inv.filled;
              header = omega arith;
              long = inv.long;
              complete = λ h. cc;
            })
            (restate-IsEntry e entry_done send_request_failed (λ q. cc) inv)

  pub ssl_handshake_step-IsEntry :
      {t : Ticket} (e : Entry) (net : api.Net)
      → e.status ≢ done
      → IsEntry t e
      → IsEntry t (ssl_handshake_step api e net).0
  unfolding ssl_handshake_step
  ssl_handshake_step-IsEntry {t} e net n inv = by_answer (api.handshake net)
    where
      by_answer :
          (r : ℤ × api.Net)
          → IsEntry t
              (elim r.0 as (λ x. Entry × api.Net) [
                | negsuc _ ↦ (record e { status = handshake_failed; state = entry_done }, r.1)
                | pos zero ↦ (e, r.1)
                | pos (suc _) ↦ (record e { state = ssl_connected }, r.1)
              ]).0
      by_answer (negsuc k, m) = restate-IsEntry e entry_done handshake_failed (λ q. cc) inv
      by_answer (pos zero, m) = inv
      by_answer (pos (suc k), m) = restate-IsEntry e ssl_connected e.status n inv
