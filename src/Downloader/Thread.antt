-- ===== src/Downloader/Thread.antt =====
-- n_downloader.c: the thread, and the functions that start a download and report it.
mod Tests
pub mod Run
mod Round
pub mod Follows
pub mod Reports
pub mod Size
use deconz_lib.Base.{
  ℕ, zero, suc, ◌+◌, ◌*◌, Bool, true, false, not, Option, none, some, List, [], ◌∷◌, ◌++◌, u32, ltb,
  leb, ◌==◌, if◌then◌else◌, replicate,
}
use deconz_lib.Base.Int.{ℤ, pos, negsuc, to_bits, of_bits}
use deconz_lib.Base.Text.{strlen}
use deconz_lib.Downloader.{
  Entry, EntryState, initial, tcp_connected, ssl_handshake, ssl_connected, wait_reply, entry_done,
  DownloadStatus, starting, done, DlState, dl_initial, dl_shutdown, dl_idle, NetApi, Dl, host_size,
  connect, ssl_handshake_step, send_request,
}
use deconz_lib.Downloader.Response.{read_response}

-- `N_DownloadData`; `hdr` and `data` are pointers into the buffer of the entry.
pub record DownloadData : Type 0 where
  pub handle : ℤ
  pub user : ℕ
  pub status : DownloadStatus
  pub hdr : Option ℕ
  pub hdr_size : ℕ
  pub data_at : Option ℕ
  pub data_size : ℕ

-- What `N_DownloadStep` does with an entry: the callback and its argument, and the entry it frees.
pub record Outcome : Type 0 where
  pub called : Option (ℕ × DownloadData)
  pub freed : Option Entry

abbrev pub is_zero : ℤ → Bool
is_zero (pos n) = n == 0
is_zero (negsuc n) = false

abbrev pub is_done : DownloadStatus → Bool
is_done done = true
is_done _ = false

-- The argument of the callback.
pub data_of : Entry → DownloadData
data_of e =
    let has_data = if is_done e.status then not (is_zero e.content_length) else false in
    record {
      handle = e.handle;
      user = e.user;
      status = e.status;
      hdr = if e.hdr_length == 0 then none else some 0;
      hdr_size = e.hdr_length;
      data_at = if has_data then some e.hdr_length else none;
      data_size = if has_data then to_bits 32 e.content_length else 0;
    }

abbrev pub no_outcome : Outcome
no_outcome = record { called = none; freed = none }

abbrev pub outcome_of : Entry → Outcome
outcome_of e = record {
  called = elim e.callback [ none ↦ none | some f ↦ some (f, data_of e) ];
  freed = some e;
}

-- `ndl_.handle <= 0`
abbrev pub usable : ℤ → ℤ
usable (pos zero) = pos 1
usable (pos (suc n)) = pos (suc n)
usable (negsuc n) = pos 1

-- `ndl_.handle++` on `int`; an overflow is taken to wrap.
abbrev pub next_handle : ℤ → ℤ
next_handle h = of_bits 31 (u32 (to_bits 32 h + 1))

-- The loop that rounds the size up to 128 bytes, with `fuel` rounds: `mul`.
pub round_up : ℕ → ℕ → ℕ → Option ℕ
round_up zero size mul = none
round_up (suc fuel) size mul =
    let rest = round_up fuel size (u32 (mul + 1)) in
    if ltb (u32 (mul * 128)) size then rest else some mul

-- sizeof(N_DownloadEntry), on a machine of 64 bits.
abbrev pub entry_size : ℕ
entry_size = 344

-- The number of bytes that `N_Download` allocates; `none` when its loop does not end. The loop
-- starts at 8 and needs no more rounds than `size`.
pub alloc_size : ℕ → ℕ → Option ℕ
alloc_size maxsize urllen =
    let size = u32 (u32 (entry_size + maxsize) + u32 (urllen + 1)) in
    elim (round_up (size + 1) size 8) [ none ↦ none | some mul ↦ some (u32 (mul * 128)) ]

-- The entry that `N_Download` sets up.
abbrev pub new_entry : ℤ → List ℕ → ℕ → Option ℕ → ℕ → Entry
new_entry h url maxsize cb user = record {
  handle = h;
  ssl = false;
  status = starting;
  state = initial;
  callback = cb;
  host = replicate host_size 0;
  url = url;
  urlpath = 0;
  hdr_length = 0;
  content_length = pos 0;
  buf = replicate maxsize 0;
  bufpos = 0;
  bufsize = maxsize;
  user = user;
}

abbrev pub is_initial : DlState → Bool
is_initial dl_initial = true
is_initial _ = false

-- `ndl_.state < N_DL_RUNNING`
abbrev pub is_down : DlState → Bool
is_down dl_initial = true
is_down dl_shutdown = true
is_down _ = false

abbrev pub is_entry_done : EntryState → Bool
is_entry_done entry_done = true
is_entry_done _ = false

abbrev pub is_shutdown : DlState → Bool
is_shutdown dl_shutdown = true
is_shutdown _ = false

module _ (api : NetApi) where
  -- `N_DL_ENTRY_DONE` in the thread: the socket is closed.
  pub close_socket : Bool → api.Net → api.Net
  close_socket true net = api.ssl_close net
  close_socket false net = api.tcp_close net

  -- The entry and the network behind the branch of the thread that the state takes.
  pub advance : EntryState → Entry → api.Net → Option (Entry × api.Net)
  advance initial e net = connect api e net
  advance tcp_connected e net = send_request api e net
  advance ssl_connected e net = send_request api e net
  advance wait_reply e net = some (read_response api e net)
  advance ssl_handshake e net = some (ssl_handshake_step api e net)
  advance entry_done e net = some (e, net)

  -- The thread with the first entry of `busy_list`; the entries behind it.
  pub work : Entry → List Entry → Dl api → Option (Dl api)
  work e rest dl =
      let moved = record dl {
        net = close_socket e.ssl dl.net;
        busy_list = rest;
        done_list = e ∷ dl.done_list;
      } in
      if is_entry_done e.state then some moved else elim (advance e.state e dl.net) [
        | none ↦ none
        | some r ↦ some (record dl { net = r.1; busy_list = r.0 ∷ rest })
      ]

  -- One round of `ndl_thread`; on a shutdown, which ends the loop, it does nothing.
  pub thread_round : Dl api → Option (Dl api)
  thread_round dl =
      if is_shutdown dl.state
      then some dl
      else elim dl.busy_list [ [] ↦ some dl | e ∷ rest ↦ work e rest dl ]

  -- `N_DownloadInit`
  pub download_init : Dl api → Dl api
  download_init dl =
      if is_initial dl.state then record dl { handle = pos 1; state = dl_idle } else dl

  -- `N_DownloadShutDown` up to the join, which waits for the thread to see the state.
  pub shut_down : Dl api → Dl api
  shut_down dl = record dl { state = elim dl.state [ dl_idle ↦ dl_shutdown | s ↦ s ] }

  -- `N_DownloadShutDown` behind the join.
  pub joined : Dl api → Dl api
  joined dl = record dl { state = dl_initial }

  -- `N_DownloadStep`
  pub download_step : Dl api → Outcome × Dl api
  download_step dl = if is_initial dl.state then (no_outcome, dl) else elim dl.done_list [
    | [] ↦ (no_outcome, dl)
    | e ∷ rest ↦ (outcome_of e, record dl { done_list = rest })
  ]

  -- `N_Download` with the answer of `U_Alloc`: its result and the state, or `none` when the rounding
  -- does not end or the block is too small for the entry, the url and the buffer.
  pub download : Bool → List ℕ → ℕ → Option ℕ → ℕ → Dl api → Option (ℤ × Dl api)
  download allocated url maxsize cb user dl =
      let h = usable dl.handle in
      let e = new_entry h url maxsize cb user in
      let queued = record dl { handle = next_handle h; busy_list = dl.busy_list ++ (e ∷ []) } in
      if is_down dl.state then some (pos 0, dl) else elim (alloc_size maxsize (strlen url)) [
        | none ↦ none
        | some size ↦
            if allocated
            then if leb (entry_size + strlen url + 1 + maxsize) size then some (h, queued) else none
            else some (pos 0, dl)
      ]
