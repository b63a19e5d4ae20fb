-- ===== src/Downloader/Response/Keeps.antt =====
-- n_downloader.c: `ndl_read_response` keeps what holds of an entry.
use deconz_lib.Base.{
  ℕ, ◌+◌, ◌-◌, ◌≤◌, ◌<◌, ◌≡◌, refl, ◌∙◌, ◌≢◌, inl, inr, Bool, true, false, Option, none, some, List,
  [], ◌∷◌, arith, ltb, ◌==◌, ◌&&◌, if◌then◌else◌, if-both, Bool-cases, length, set, take,
  length-set, length-store,
}
use deconz_lib.Base.Int.{ℤ, pos, negsuc}
use deconz_lib.Downloader.{Entry, DownloadStatus, done, size_mismatch, NetApi}
use deconz_lib.Downloader.Response.{
  equals, is_running, scan, parse_header, look_for_header, receive, close_response, handle_read,
  read_ssl, read_tcp, read_response,
}
use deconz_lib.Downloader.Response.Chunks.{scan-within}
use deconz_lib.Downloader.Response.Header.{header_of_lem}
use deconz_lib.Downloader.Entries.{Ticket, IsEntry, IsNet, bytes_of}

parse_header-IsEntry :
    {t : Ticket} (i : ℕ) (e : Entry)
    → i + 4 ≤ e.bufpos
    → e.status ≢ done
    → IsEntry t e
    → IsEntry t (parse_header i e)
unfolding parse_header
parse_header-IsEntry {t} i e h n inv =
    let facts = header_of_lem (take (i + 4) (set e.buf i 0)) (i + 4) e.bufsize e.status n in
    record {
      ticket = inv.ticket;
      whole = length-set e.buf i 0 ∙ inv.whole;
      small = inv.small;
      filled = inv.filled;
      header = h;
      long = facts.1;
      complete = λ s. absurd (facts.0 s);
    }

look_for_header-IsEntry :
    {t : Ticket} (e : Entry) → e.status ≢ done → IsEntry t e → IsEntry t (look_for_header e)
unfolding look_for_header
look_for_header-IsEntry {t} e n inv = elim (Bool-cases (e.hdr_length == 0 && ltb 16 e.bufpos)) [
  | inr s ↦ rw s inv
  | inl s ↦ rw s (by_scan (scan (e.bufpos - 4) e.buf 0) refl (ground (arith, s)))
]
  where
    by_scan :
        (r : Option ℕ)
        → scan (e.bufpos - 4) e.buf 0 ≡ r
        → 16 < e.bufpos
        → IsEntry t (elim r [ none ↦ e | some i ↦ parse_header i e ])
    by_scan none f h = inv
    by_scan (some i) f h =
        let (l, u) = scan-within (e.bufpos - 4) e.buf 0 i f in
        parse_header-IsEntry i e (omega (arith, u, h)) n inv

receive-IsEntry :
    {t : Ticket} (bytes : List ℕ) (e : Entry)
    → length bytes ≤ e.bufsize - e.bufpos
    → e.status ≢ done
    → IsEntry t e
    → IsEntry t (receive bytes e)
unfolding receive
receive-IsEntry {t} bytes e h n inv =
    let room = inv.filled in
    look_for_header-IsEntry _ n (record {
      ticket = inv.ticket;
      whole = length-store e.buf e.bufpos bytes ∙ inv.whole;
      small = inv.small;
      filled = omega (arith, h, room, inv.small);
      header = omega (arith, h, room, inv.small, inv.header);
      long = inv.long;
      complete = λ s. absurd (n s);
    })

only_complete :
    (r c : Bool) (s : DownloadStatus)
    → s ≢ done
    → (if r then (if c then done else size_mismatch) else s) ≡ done
    → c ≡ true
only_complete true true s n e = refl
only_complete true false s n e = cc
only_complete false c s n e = absurd (n e)

equals-pos : (n : ℕ) (z : ℤ) → equals n z ≡ true → z ≡ pos n
equals-pos n (pos k) e = ground (arith, e)
equals-pos n (negsuc k) e = cc

close_response-IsEntry :
    {t : Ticket} (e : Entry) → e.status ≢ done → IsEntry t e → IsEntry t (close_response e)
unfolding close_response
close_response-IsEntry {t} e n inv = record {
  ticket = inv.ticket;
  whole = inv.whole;
  small = inv.small;
  filled = inv.filled;
  header = inv.header;
  long = inv.long;
  complete =
      λ s. (refl, equals-pos e.bufpos _ (only_complete (is_running e.status) _ e.status n s));
}

handle_read-IsEntry :
    {t : Ticket} (bytes : List ℕ) (e : Entry)
    → length bytes ≤ e.bufsize - e.bufpos
    → e.status ≢ done
    → IsEntry t e
    → IsEntry t (handle_read bytes e)
unfolding handle_read
handle_read-IsEntry {t} [] e h n inv = close_response-IsEntry e n inv
handle_read-IsEntry {t} (b ∷ bs) e h n inv = receive-IsEntry (b ∷ bs) e h n inv

module _ (api : NetApi) (law : IsNet api) where
  read_ssl-IsEntry :
      {t : Ticket} (e : Entry) (net : api.Net)
      → e.status ≢ done
      → IsEntry t e
      → IsEntry t (read_ssl api e net).0
  unfolding read_ssl
  read_ssl-IsEntry {t} e net n inv =
      let (ready, n1) = api.ssl_can_read net in
      if-both {A = Entry × api.Net} (λ r. IsEntry t r.0) ready
        (by_answer (api.ssl_read n1 (e.bufsize - e.bufpos)).0
          (law.ssl_fits n1 (e.bufsize - e.bufpos)))
        inv
    where
      by_answer :
          (answer : Option (List ℕ))
          → length (bytes_of answer) ≤ e.bufsize - e.bufpos
          → IsEntry t (elim answer [ none ↦ e | some bytes ↦ handle_read bytes e ])
      by_answer none h = inv
      by_answer (some bytes) h = handle_read-IsEntry bytes e h n inv

  read_tcp-IsEntry :
      {t : Ticket} (e : Entry) (net : api.Net)
      → e.status ≢ done
      → IsEntry t e
      → IsEntry t (read_tcp api e net).0
  unfolding read_tcp
  read_tcp-IsEntry {t} e net n inv =
      let (ready, n1) = api.tcp_can_read net in
      if-both {A = Entry × api.Net} (λ r. IsEntry t r.0) ready
        (by_answer (api.tcp_read n1 (e.bufsize - e.bufpos)).0
          (law.tcp_fits n1 (e.bufsize - e.bufpos)))
        inv
    where
      by_answer :
          (answer : Option (List ℕ))
          → length (bytes_of answer) ≤ e.bufsize - e.bufpos
          → IsEntry t (elim answer [ none ↦ close_response e | some bytes ↦ handle_read bytes e ])
      by_answer none h = close_response-IsEntry e n inv
      by_answer (some bytes) h = handle_read-IsEntry bytes e h n inv

  pub read_response-IsEntry :
      {t : Ticket} (e : Entry) (net : api.Net)
      → e.status ≢ done
      → IsEntry t e
      → IsEntry t (read_response api e net).0
  unfolding read_response
  read_response-IsEntry {t} e net n inv =
      if-both {A = Entry × api.Net} (λ r. IsEntry t r.0) e.ssl (read_ssl-IsEntry e net n inv)
        (read_tcp-IsEntry e net n inv)
