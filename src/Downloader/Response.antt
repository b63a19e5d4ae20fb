-- ===== src/Downloader/Response.antt =====
-- n_downloader.c: `ndl_read_response`, the header of a reply.
pub mod Chunks
pub mod Header
pub mod Keeps
use deconz_lib.Base.{
  ℕ, zero, suc, ◌+◌, ◌-◌, ◌%◌, ◌^◌, Bool, true, false, ◌&&◌, Option, none, some, List, [], ◌∷◌, u32,
  ltb, ◌==◌, if◌then◌else◌, set, take, store, length, get_or,
}
use deconz_lib.Base.Int.{ℤ, pos, negsuc, to_bits, of_bits}
use deconz_lib.Sstream.{Sstream, init}
use deconz_lib.Sstream.Parse.{get_long}
use deconz_lib.Sstream.Search.{find}
use deconz_lib.Downloader.{
  Entry, DownloadStatus, running, done, error, not_found, size_mismatch, too_large, entry_done,
  NetApi,
}

-- `U_memcmp(&entry->buf[i], "\r\n\r\n", 4) == 0`
abbrev pub ends_here : List ℕ → ℕ → Bool
ends_here m i =
    get_or m i 0 == 0x0d
    && get_or m (i + 1) 0 == 0x0a
    && get_or m (i + 2) 0 == 0x0d
    && get_or m (i + 3) 0 == 0x0a

-- The loop over the start of the data, with `n` rounds left: where the header ends.
unfoldable pub scan : ℕ → List ℕ → ℕ → Option ℕ
scan zero m i = none
scan (suc n) m i = let rest = scan n m (i + 1) in if ends_here m i then some i else rest

-- `" "`
abbrev pub blank : List ℕ
blank = 0x20 ∷ []

-- `"Content-Length:"`
abbrev pub length_field : List ℕ
length_field =
    b'C' ∷ b'o' ∷ b'n' ∷ b't' ∷ b'e' ∷ b'n' ∷ b't' ∷ b'-' ∷ b'L' ∷ b'e' ∷ b'n' ∷ b'g' ∷ b't' ∷ b'h'
    ∷ b':' ∷ []

-- `":"`
abbrev pub colon : List ℕ
colon = b':' ∷ []

-- `entry->hdr_length + entry->content_length`, which is a `long`; an overflow is taken to wrap.
abbrev pub total_size : ℕ → ℤ → ℤ
total_size hdr_length content_length =
    of_bits 63 ((hdr_length + to_bits 64 content_length) % 2 ^ 64)

-- `n < z`, and `n == z`, with the `unsigned` cast to `long`
abbrev pub below : ℕ → ℤ → Bool
below n (pos k) = ltb n k
below n (negsuc k) = false

abbrev pub equals : ℕ → ℤ → Bool
equals n (pos k) = n == k
equals n (negsuc k) = false

abbrev pub is_ok_code : ℤ → Bool
is_ok_code (pos n) = n == 200
is_ok_code (negsuc n) = false

abbrev pub is_missing_code : ℤ → Bool
is_missing_code (pos n) = n == 404
is_missing_code (negsuc n) = false

-- The length after `Content-Length:`, from the stream that stands before this field.
unfoldable pub content_length_of : Sstream → ℤ
content_length_of ss =
    let s1 = (find (some colon) ss).1 in (get_long (record s1 { pos = u32 (s1.pos + 1) })).0

-- `entry->status` and `entry->content_length`, by the number in the status line and the length field.
unfoldable pub judge : ℤ → Bool → ℤ → ℕ → ℕ → DownloadStatus → DownloadStatus × ℤ
judge code has_length size hdr_length bufsize status =
    if is_ok_code code
    then if has_length
      then ((if below bufsize (total_size hdr_length size) then too_large else status), size)
      else (status, pos 0)
    else ((if is_missing_code code then not_found else error), pos 0)

-- What the header says.
unfoldable pub header_of : List ℕ → ℕ → ℕ → DownloadStatus → DownloadStatus × ℤ
header_of header hdr_length bufsize status =
    let s1 = (find (some blank) (init (some header) hdr_length)).1 in
    let code = get_long s1 in
    let field = find (some length_field) code.1 in
    judge code.0 field.0 (content_length_of field.1) hdr_length bufsize status

-- What the loop does where the header ends, at the index `i`. The stream has `hdr_length` bytes.
unfoldable pub parse_header : ℕ → Entry → Entry
parse_header i e =
    let buf' = set e.buf i 0 in
    let (status', size) = header_of (take (i + 4) buf') (i + 4) e.bufsize e.status in
    record e { buf = buf'; hdr_length = i + 4; status = status'; content_length = size }

-- `if (entry->hdr_length == 0 && 16 < entry->bufpos) …`
unfoldable pub look_for_header : Entry → Entry
look_for_header e =
    let found = scan (e.bufpos - 4) e.buf 0 in
    if e.hdr_length == 0 && ltb 16 e.bufpos
    then elim found [ none ↦ e | some i ↦ parse_header i e ]
    else e

-- The branch of a read that gave bytes.
unfoldable pub receive : List ℕ → Entry → Entry
receive bytes e =
    look_for_header
      (record e { buf = store e.buf e.bufpos bytes; bufpos = u32 (e.bufpos + length bytes) })

abbrev pub is_running : DownloadStatus → Bool
is_running running = true
is_running _ = false

-- The branch of a read that gave none.
unfoldable pub close_response : Entry → Entry
close_response e =
    let complete = equals e.bufpos (total_size e.hdr_length e.content_length) in
    let status' =
      if is_running e.status then (if complete then done else size_mismatch) else e.status in
    record e { state = entry_done; status = status' }

-- `if (didread) …`, with the bytes that were read.
unfoldable pub handle_read : List ℕ → Entry → Entry
handle_read [] e = close_response e
handle_read (b ∷ bs) e = receive (b ∷ bs) e

module _ (api : NetApi) where
  -- `N_SslRead` answers a negative number: nothing was read. `N_TcpRead` does: the end.
  pub read_ssl : Entry → api.Net → Entry × api.Net
  read_ssl e net =
      let (ready, n1) = api.ssl_can_read net in
      let (answer, n2) = api.ssl_read n1 (e.bufsize - e.bufpos) in
      if ready then (elim answer [ none ↦ e | some bytes ↦ handle_read bytes e ], n2) else (e, n1)

  unfoldable pub read_tcp : Entry → api.Net → Entry × api.Net
  read_tcp e net =
      let (ready, n1) = api.tcp_can_read net in
      let (answer, n2) = api.tcp_read n1 (e.bufsize - e.bufpos) in
      if ready
      then (elim answer [ none ↦ close_response e | some bytes ↦ handle_read bytes e ], n2)
      else (e, n1)

  -- `ndl_read_response`
  unfoldable pub read_response : Entry → api.Net → Entry × api.Net
  read_response e net = if e.ssl then read_ssl e net else read_tcp e net
