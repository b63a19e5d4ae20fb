-- ===== src/Downloader.antt =====
-- n_downloader.c, deconz/n_downloader.h: downloads over HTTP, one at a time, by a thread. The sockets
-- (`N_Tcp*`, `N_Ssl*`) are the parameter `api`, whose state stands for `dl->ssl` and the proxy. A
-- section under the mutex is one step. A linked list is a list; `url` lists the characters before
-- the NUL, and a pointer into it or into `buf` is an index. A result `none` is an access outside of
-- an array. The assertions are not modelled.
pub mod Response
pub mod Thread
mod Tests
pub mod Entries
pub mod Text
mod Host
mod Prefix
pub mod Connect
use deconz_lib.Base.{
  ℕ, zero, suc, Bool, true, false, Option, none, some, List, [], ◌∷◌, ltb, ◌==◌, if◌then◌else◌,
  replicate, set, drop, take, ◌+◌,
}
use deconz_lib.Base.Int.{ℤ, pos, negsuc}
use deconz_lib.Base.Text.{strlen}
use deconz_lib.Sstream.{Sstream, init, seek, memory}
use deconz_lib.Sstream.Put.{put_str}
use deconz_lib.Sstream.Search.{starts_with}

-- `enum ndl_entry_state`
pub data EntryState : Type 0 where
  initial tcp_connected ssl_handshake ssl_connected wait_reply entry_done : EntryState

-- `N_DownloadStatus`
pub data DownloadStatus : Type 0 where
  starting running done error not_found size_mismatch send_request_failed : DownloadStatus
  handshake_failed too_large : DownloadStatus

-- `enum ndl_state`
pub data DlState : Type 0 where
  dl_initial dl_shutdown dl_running dl_idle : DlState

-- `N_DownloadEntry`; `callback` is a function pointer or null.
pub record Entry : Type 0 where
  pub handle : ℤ
  pub ssl : Bool
  pub status : DownloadStatus
  pub state : EntryState
  pub callback : Option ℕ
  pub host : List ℕ
  pub url : List ℕ
  pub urlpath : ℕ
  pub hdr_length : ℕ
  pub content_length : ℤ
  pub buf : List ℕ
  pub bufpos : ℕ
  pub bufsize : ℕ
  pub user : ℕ

-- The functions of the sockets. A read is given the room and returns the bytes, none of them at the
-- end of the data, or nothing when it returns a negative number.
pub record NetApi : Type 1 where
  pub Net : Type 0
  pub ssl_client_init : Net → List ℕ → ℕ → Bool × Net
  pub tcp_init : Net → Bool × Net
  pub tcp_connect : Net → List ℕ → ℕ → Bool × Net
  pub tcp_close : Net → Net
  pub ssl_close : Net → Net
  pub handshake : Net → ℤ × Net
  pub tcp_write : Net → List ℕ → Bool × Net
  pub ssl_write : Net → List ℕ → Bool × Net
  pub tcp_can_read : Net → Bool × Net
  pub ssl_can_read : Net → Bool × Net
  pub tcp_read : Net → ℕ → Option (List ℕ) × Net
  pub ssl_read : Net → ℕ → Option (List ℕ) × Net

-- `N_dl`, but for its thread and mutex.
pub record Dl (api : NetApi) : Type 0 where
  pub handle : ℤ
  pub state : DlState
  pub net : api.Net
  pub busy_list : List Entry
  pub done_list : List Entry

-- sizeof(entry->host)
abbrev pub host_size : ℕ
host_size = 256

-- "https://"
abbrev pub https_prefix : List ℕ
https_prefix = b'h' ∷ b't' ∷ b't' ∷ b'p' ∷ b's' ∷ b':' ∷ b'/' ∷ b'/' ∷ []

-- "http://"
abbrev pub http_prefix : List ℕ
http_prefix = b'h' ∷ b't' ∷ b't' ∷ b'p' ∷ b':' ∷ b'/' ∷ b'/' ∷ []

-- The scheme of a url: the cursor behind it, `entry->ssl` and the port.
pub record Scheme : Type 0 where
  pub at : ℕ
  pub ssl : Bool
  pub port : ℕ

pub scheme_of : List ℕ → Option Scheme
scheme_of url =
    let ss = init (some url) (strlen url) in
    if starts_with (some https_prefix) ss
    then some (record { at = (seek 8 ss).pos; ssl = true; port = 443 })
    else if starts_with (some http_prefix) ss
    then some (record { at = (seek 7 ss).pos; ssl = false; port = 80 })
    else none

-- The loop that copies the host, with the characters from `hostlen` on and `hostlen - ss.pos`; the
-- host and that index at its end.
pub copy_host : List ℕ → ℕ → List ℕ → Option (List ℕ × ℕ)
copy_host [] i host = some (host, i)
copy_host (c ∷ cs) i host =
    let rest = copy_host cs (i + 1) (set host i c) in
    if c == b'/' then some (host, i) else if ltb i host_size then rest else none

-- The C string in an array; `none` when no NUL ends it.
pub c_string : List ℕ → Option (List ℕ)
c_string [] = none
c_string (c ∷ cs) =
    let rest = c_string cs in
    if c == 0 then some [] else elim rest [ none ↦ none | some s ↦ some (c ∷ s) ]

-- "GET "
abbrev pub get_word : List ℕ
get_word = b'G' ∷ b'E' ∷ b'T' ∷ 0x20 ∷ []

-- " HTTP/1.1\r\n"
abbrev pub version : List ℕ
version = 0x20 ∷ b'H' ∷ b'T' ∷ b'T' ∷ b'P' ∷ b'/' ∷ b'1' ∷ b'.' ∷ b'1' ∷ 0x0d ∷ 0x0a ∷ []

-- "Host: "
abbrev pub host_word : List ℕ
host_word = b'H' ∷ b'o' ∷ b's' ∷ b't' ∷ b':' ∷ 0x20 ∷ []

-- "\r\n"
abbrev pub line_end : List ℕ
line_end = 0x0d ∷ 0x0a ∷ []

-- "Accept: *.*\r\n"
abbrev pub accept_line : List ℕ
accept_line =
    b'A' ∷ b'c' ∷ b'c' ∷ b'e' ∷ b'p' ∷ b't' ∷ b':' ∷ 0x20 ∷ b'*' ∷ b'.' ∷ b'*' ∷ 0x0d ∷ 0x0a ∷ []

-- "Connection: close\r\n"
abbrev pub close_line : List ℕ
close_line =
    b'C' ∷ b'o' ∷ b'n' ∷ b'n' ∷ b'e' ∷ b'c' ∷ b't' ∷ b'i' ∷ b'o' ∷ b'n' ∷ b':' ∷ 0x20 ∷ b'c' ∷ b'l'
    ∷ b'o' ∷ b's' ∷ b'e' ∷ 0x0d ∷ 0x0a ∷ []

-- "\r\n\r\n"
abbrev pub request_end : List ℕ
request_end = 0x0d ∷ 0x0a ∷ 0x0d ∷ 0x0a ∷ []

-- `char buf[1024]`: what stands in it before is overwritten where it is sent.
abbrev pub request_size : ℕ
request_size = 1024

-- The stream of `ndl_send_request` behind its puts.
pub request : List ℕ → List ℕ → Sstream
request urlpath host = put_str (some request_end) (
    put_str (some close_line) (
      put_str (some accept_line) (
        put_str (some line_end) (
          put_str (some host) (
            put_str (some host_word) (
              put_str (some version) (
                put_str (some urlpath) (
                  put_str (some get_word)
                    (init (some (replicate request_size 0)) request_size)))))))))

module _ (api : NetApi) where
  -- The calls that open the socket of `dl->ssl`, with the state of the entry when they succeed.
  pub open_socket : Scheme → List ℕ → api.Net → Option EntryState × api.Net
  open_socket s host net =
      let (secured, n1) = api.ssl_client_init net host s.port in
      let (made, n2) = api.tcp_init net in
      let (connected, n3) = api.tcp_connect n2 host s.port in
      if s.ssl
      then ((if secured then some ssl_handshake else none), n1)
      else if made
      then (if connected then (some tcp_connected, n3) else (none, api.tcp_close n3))
      else (none, n2)

  -- The part of `ndl_connect` behind the host: `urlpath` is set, and the socket is opened.
  pub connect_to : Scheme → Option (List ℕ) → Entry → api.Net → Option (Entry × api.Net)
  connect_to s none e net = none
  connect_to s (some host) e net =
      let (opened, n) = open_socket s host net in
      elim opened [
        | none ↦ some (record e { status = error; state = entry_done }, n)
        | some st ↦ some (record e { status = starting; state = st }, n)
      ]

  -- The part of `ndl_connect` behind the scheme.
  pub connect_host : Scheme → Entry → api.Net → Option (Entry × api.Net)
  connect_host s e net = elim (copy_host (drop s.at e.url) 0 (replicate host_size 0)) [
    | none ↦ none
    | some r ↦
        connect_to s (c_string r.0) (record e { ssl = s.ssl; host = r.0; urlpath = s.at + r.1 }) net
  ]

  -- `ndl_connect`
  pub connect : Entry → api.Net → Option (Entry × api.Net)
  connect e net = elim (scheme_of e.url) [
    | none ↦
        some (record e { host = replicate host_size 0; status = error; state = entry_done }, net)
    | some s ↦ connect_host s e net
  ]

  -- `ndl_ssl_handhsake`
  pub ssl_handshake_step : Entry → api.Net → Entry × api.Net
  ssl_handshake_step e net =
      let (answer, n) = api.handshake net in
      elim answer [
        | negsuc _ ↦ (record e { status = handshake_failed; state = entry_done }, n)
        | pos zero ↦ (e, n)
        | pos (suc _) ↦ (record e { state = ssl_connected }, n)
      ]

  -- `N_TcpWrite` or `N_SslWrite`, by the state.
  pub write_request : EntryState → List ℕ → api.Net → Bool × api.Net
  write_request tcp_connected bytes net = api.tcp_write net bytes
  write_request ssl_connected bytes net = api.ssl_write net bytes
  write_request _ bytes net = (false, net)

  -- What `ndl_send_request` does with the text of the request.
  pub send_text : Sstream → Entry → api.Net → Entry × api.Net
  send_text ss e net =
      let (ok, n) = write_request e.state (take ss.pos (memory ss)) net in
      if ok
      then (
        record e {
          hdr_length = 0;
          buf = replicate e.bufsize 0;
          state = wait_reply;
          status = running;
        },
        n,
      )
      else (record e { status = send_request_failed; state = entry_done }, n)

  -- `ndl_send_request`; the host is read up to its NUL.
  pub send_request : Entry → api.Net → Option (Entry × api.Net)
  send_request e net = elim (c_string e.host) [
    | none ↦ none
    | some host ↦ some (send_text (request (drop e.urlpath e.url) host) e net)
  ]
