-- ===== src/Downloader/Response/Header.antt =====
-- n_downloader.c: the range of the lengths and the status that a reply leaves.
use deconz_lib.Base.{ℕ, ◌+◌, ◌-◌, ◌≤◌, ◌<◌, ◌^◌, ◌≡◌, ◌≢◌, Bool, some, List, arith, if-both, u32}
use deconz_lib.Base.Int.{ℤ, pos, negsuc, InRange}
use deconz_lib.Sstream.{init}
use deconz_lib.Sstream.Parse.{get_long}
use deconz_lib.Sstream.Parse.Range.{get_long-InRange}
use deconz_lib.Sstream.Search.{find}
use deconz_lib.Downloader.{DownloadStatus, done, error, not_found, too_large}
use deconz_lib.Downloader.Response.{
  is_ok_code, is_missing_code, below, blank, length_field, colon, judge, total_size,
  content_length_of, header_of,
}

judge_lem :
    (code : ℤ) (has_length : Bool) (size : ℤ) (hdr_length bufsize : ℕ) (status : DownloadStatus)
    → InRange 63 size
    → status ≢ done
    → ((judge code has_length size hdr_length bufsize status).0 ≢ done)
      × InRange 63 (judge code has_length size hdr_length bufsize status).1
unfolding judge
judge_lem code has_length size hdr_length bufsize status r n =
    let failed : error ≢ done = λ e. cc in
    let missing : not_found ≢ done = λ e. cc in
    let large : too_large ≢ done = λ e. cc in
    let Fine : DownloadStatus × ℤ → Type 0 = λ t. (t.0 ≢ done) × InRange 63 t.1 in
    if-both Fine (is_ok_code code)
      (if-both Fine has_length
        (if-both (λ t. t ≢ done) (below bufsize (total_size hdr_length size)) large n, r)
        (n, omega arith))
      (if-both (λ t. t ≢ done) (is_missing_code code) missing failed, omega arith)

-- A header never gives the status `done`, and gives a length of the type `long`.
pub header_of_lem :
    (header : List ℕ) (hdr_length bufsize : ℕ) (status : DownloadStatus)
    → status ≢ done
    → ((header_of header hdr_length bufsize status).0 ≢ done)
      × InRange 63 (header_of header hdr_length bufsize status).1
unfolding header_of content_length_of
header_of_lem header hdr_length bufsize status n =
    let s1 = (find (some blank) (init (some header) hdr_length)).1 in
    let field = find (some length_field) (get_long s1).1 in
    let s2 = (find (some colon) field.1).1 in
    judge_lem (get_long s1).0 field.0 (content_length_of field.1) hdr_length bufsize status
      (get_long-InRange (record s2 { pos = u32 (s2.pos + 1) })) n

-- A sum of a header within the data and a length that gives the size of the data did not wrap.
pub total_size-exact :
    (hdr_length n : ℕ) (z : ℤ)
    → InRange 63 z
    → hdr_length ≤ n
    → n < 2 ^ 32
    → total_size hdr_length z ≡ pos n
    → z ≡ pos (n - hdr_length)
total_size-exact hdr_length n (pos k) r h s e = ground (arith, e)
total_size-exact hdr_length n (negsuc k) r h s e = ground (arith, e)
