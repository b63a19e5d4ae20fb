-- ===== src/Downloader/Thread/Tests.antt =====
-- A whole download, step by step, and the theorems about runs on it.
use mathlib.Core.List.{Perm}
use deconz_lib.Base.{ℕ, ◌≡◌, refl, true, some, List, [], ◌∷◌, ◌++◌, arith, replicate, store, set}
use deconz_lib.Base.Int.{pos}
use deconz_lib.Base.Text.{strlen}
use deconz_lib.Sstream.{init, seek}
use deconz_lib.Sstream.Parse.{get_long}
use deconz_lib.Sstream.Search.{find, starts_with}
use deconz_lib.Downloader.{
  Entry, entry_done, wait_reply, tcp_connected, running, done, Dl, dl_initial, dl_idle, connect,
  connect_host, connect_to, open_socket, host_size, scheme_of, copy_host, c_string, send_request,
  send_text, write_request,
}
use deconz_lib.Downloader.Entries.{Ticket}
use deconz_lib.Downloader.Tests.{script, script-IsNet, status_line, field, body, url}
use deconz_lib.Downloader.Response.{
  read_response, read_tcp, handle_read, close_response, receive, look_for_header, parse_header,
  header_of, judge, content_length_of, scan,
}
use deconz_lib.Downloader.Thread.{
  data_of, new_entry, download, alloc_size, round_up, thread_round, work, advance, close_socket,
  download_init, download_step,
}
use deconz_lib.Downloader.Thread.Run.{round, report, ask, begin, report_event, Run, here, next}
use deconz_lib.Downloader.Thread.Round.{IsDl, Follows, pending}
use deconz_lib.Downloader.Thread.Follows.{Step-Follows}
use deconz_lib.Downloader.Thread.Reports.{open_tickets, Run-Perm, IsInside, download_step-IsInside}

abbrev net : List (List ℕ)
net = (status_line ++ field ++ body) ∷ [] ∷ []

abbrev off : Dl script
off = record { handle = pos 0; state = dl_initial; net = net; busy_list = []; done_list = [] }

abbrev asked_entry : Entry
asked_entry = new_entry (pos 1) url 64 (some 5) 7

abbrev ticket : Ticket
ticket = record { handle = pos 1; callback = some 5; user = 7 }

abbrev queued : Dl script
queued = record {
  handle = pos 2;
  state = dl_idle;
  net = net;
  busy_list = asked_entry ∷ [];
  done_list = [];
}

asks_url : download script true url 64 (some 5) 7 (download_init script off) ≡ some (pos 1, queued)
unfolding download download_init alloc_size round_up strlen
asks_url = refl

abbrev working : Entry → List (List ℕ) → Dl script
working e n = record queued { net = n; busy_list = e ∷ [] }

abbrev connected_entry : Entry
connected_entry = record asked_entry {
  host = set (set (replicate host_size 0) 0 b'd') 1 b'e';
  urlpath = 9;
  state = tcp_connected;
}

abbrev waiting_entry : Entry
waiting_entry = record connected_entry { status = running; state = wait_reply }

abbrev reply_entry : Entry
reply_entry = record waiting_entry {
  buf = set (store (replicate 64 0) 0 (status_line ++ field ++ body)) 34 0;
  bufpos = 40;
  hdr_length = 38;
  content_length = pos 2;
}

abbrev done_entry : Entry
done_entry = record reply_entry { status = done; state = entry_done }

abbrev finished : Dl script
finished = record queued { net = []; busy_list = []; done_list = done_entry ∷ [] }

connects : thread_round script queued ≡ some (working connected_entry net)
unfolding thread_round work advance connect connect_host connect_to open_socket scheme_of copy_host
    c_string starts_with init seek strlen
connects = refl

sends : thread_round script (working connected_entry net) ≡ some (working waiting_entry net)
unfolding thread_round work advance send_request send_text write_request c_string
sends = refl

reads : thread_round script (working waiting_entry net) ≡ some (working reply_entry ([] ∷ []))
unfolding thread_round work advance read_response read_tcp handle_read receive look_for_header
    parse_header header_of judge content_length_of scan find get_long init strlen
reads = refl

closes : thread_round script (working reply_entry ([] ∷ [])) ≡ some (working done_entry [])
unfolding thread_round work advance read_response read_tcp handle_read close_response
closes = refl

moves : thread_round script (working done_entry []) ≡ some finished
unfolding thread_round work close_socket
moves = refl

download-Run : Run off finished (ticket ∷ []) []
download-Run =
    next
      (next
        (next
          (next
            (next (next (next here begin) (ask true url 64 (some 5) 7 (omega arith) asks_url))
              (round connects))
            (round sends))
          (round reads))
        (round closes))
      (round moves)

abbrev reported : Dl script
reported = record finished { done_list = [] }

report-Run : Run off reported (ticket ∷ []) (ticket ∷ [])
unfolding download_step data_of
report-Run = next download-Run report

Run-Perm_example :
    IsDl reported × Perm (ticket ∷ []) ((ticket ∷ []) ++ open_tickets (pending reported))
Run-Perm_example = Run-Perm script-IsNet refl refl report-Run

Step-Follows_example :
    Follows finished
      (report_event (download_step script finished).0)
      (download_step script finished).1
Step-Follows_example =
    Step-Follows script-IsNet report (Run-Perm script-IsNet refl refl download-Run).0

reports : (download_step script finished).0.freed ≡ some done_entry
unfolding download_step
reports = refl

calls : (download_step script finished).0.called ≡ some (5, data_of done_entry)
unfolding download_step
calls = refl

download_step-IsInside_example : IsInside done_entry (data_of done_entry)
download_step-IsInside_example =
    download_step-IsInside script-IsNet done_entry 5 (data_of done_entry) refl refl download-Run
      reports calls
