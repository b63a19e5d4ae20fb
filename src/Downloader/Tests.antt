-- ===== src/Downloader/Tests.antt =====
-- The theorems of the downloads at concrete inputs, with a socket that gives the parts of a reply.
use deconz_lib.Base.{
  ℕ, ◌+◌, ◌≤◌, ◌<◌, ◌%◌, ◌≡◌, refl, ◌⊎◌, true, false, Option, none, some, List, [], ◌∷◌, ◌++◌,
  arith, leb, if◌then◌else◌, length, drop, replicate,
}
use deconz_lib.Base.Int.{pos}
use deconz_lib.Downloader.{EntryState, Entry, NetApi, connect}
use deconz_lib.Downloader.Entries.{IsNet, bytes_of}
use deconz_lib.Downloader.Connect.{split_entry, Dials, dialled, connect-split}
use deconz_lib.Downloader.Response.{receive}
use deconz_lib.Downloader.Response.Chunks.{receive_all, joined_bytes, receive_all-joined}
use deconz_lib.Downloader.Thread.{new_entry, alloc_size, round_up}
use deconz_lib.Downloader.Thread.Size.{needed, alloc_size_lem}

abbrev read_part : List (List ℕ) → ℕ → Option (List ℕ) × List (List ℕ)
read_part [] room = (some [], [])
read_part (c ∷ cs) room = ((if leb (length c) room then some c else some []), cs)

-- The state of the socket is what it still gives.
abbrev pub script : NetApi
script = record {
  Net = List (List ℕ);
  ssl_client_init = λ n host port. (true, n);
  tcp_init = λ n. (true, n);
  tcp_connect = λ n host port. (true, n);
  tcp_close = λ n. n;
  ssl_close = λ n. n;
  handshake = λ n. (pos 1, n);
  tcp_write = λ n bytes. (true, n);
  ssl_write = λ n bytes. (true, n);
  tcp_can_read = λ n. (true, n);
  ssl_can_read = λ n. (true, n);
  tcp_read = read_part;
  ssl_read = read_part;
}

read_part-fits : (n : List (List ℕ)) (room : ℕ) → length (bytes_of (read_part n room).0) ≤ room
read_part-fits [] room = omega arith
read_part-fits (c ∷ cs) room = ground arith

pub script-IsNet : IsNet script
script-IsNet = record { tcp_fits = read_part-fits; ssl_fits = read_part-fits }

abbrev pub status_line : List ℕ
status_line =
    b'H' ∷ b'T' ∷ b'T' ∷ b'P' ∷ b'/' ∷ b'1' ∷ b'.' ∷ b'1' ∷ 0x20 ∷ b'2' ∷ b'0' ∷ b'0' ∷ 0x20 ∷ b'O'
    ∷ b'K' ∷ 0x0d ∷ 0x0a ∷ []

abbrev pub field : List ℕ
field =
    b'C' ∷ b'o' ∷ b'n' ∷ b't' ∷ b'e' ∷ b'n' ∷ b't' ∷ b'-' ∷ b'L' ∷ b'e' ∷ b'n' ∷ b'g' ∷ b't' ∷ b'h'
    ∷ b':' ∷ 0x20 ∷ b'2' ∷ 0x0d ∷ 0x0a ∷ 0x0d ∷ []

abbrev pub body : List ℕ
body = 0x0a ∷ b'h' ∷ b'i' ∷ []

abbrev host : List ℕ
host = b'd' ∷ b'e' ∷ []

abbrev path : List ℕ
path = b'/' ∷ b'x' ∷ []

abbrev pub url : List ℕ
url = b'h' ∷ b't' ∷ b't' ∷ b'p' ∷ b':' ∷ b'/' ∷ b'/' ∷ b'd' ∷ b'e' ∷ b'/' ∷ b'x' ∷ []

abbrev entry : Entry
entry = new_entry (pos 1) url 64 (some 5) 7

receive_all-joined_example :
    receive_all (status_line ∷ field ∷ body ∷ []) entry
    ≡ receive (joined_bytes (status_line ∷ field ∷ body ∷ [])) entry
receive_all-joined_example = receive_all-joined status_line (field ∷ body ∷ []) entry (omega arith)

connect-split_example :
    (r : Option EntryState × List (List ℕ)) × Dials script host [] false r
    × (connect script entry [] ≡ some (dialled r.0 (split_entry false host entry), r.1))
    × (drop (split_entry false host entry).urlpath url ≡ path)
connect-split_example =
    connect-split script false host path entry [] refl (ground arith) (ground arith) refl
      (omega arith) (omega arith)

abbrev long_host : List ℕ
long_host = replicate 300 b'a'

abbrev long_url : List ℕ
long_url = b'h' ∷ b't' ∷ b't' ∷ b'p' ∷ b':' ∷ b'/' ∷ b'/' ∷ long_host ++ []

alloc_size_lem_example :
    ((needed 4096 20 + 128 ≤ 4294967296)
      × (n : ℕ) × (alloc_size 4096 20 ≡ some n)
      × (n < 4294967296)
      × (needed 4096 20 ≤ n)
      × (n % 128 ≡ 0)
      × ((n ≡ 1024) ⊎ (n < needed 4096 20 + 128)))
    ⊎ (4294967296 < needed 4096 20 + 128)
      × (alloc_size 4096 20 ≡ none)
      × (round_up 9 (needed 4096 20) 8 ≡ none)
alloc_size_lem_example = alloc_size_lem 9 4096 20 (omega arith)
