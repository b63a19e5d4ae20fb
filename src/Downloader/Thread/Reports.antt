-- ===== src/Downloader/Thread/Reports.antt =====
-- n_downloader.c: what is reported in a run, and where the reported data lies.
use mathlib.Core.Path.{subst, ap₂}
use mathlib.Core.List.{Perm, perm_middle, perm_append_singleton, append_assoc}
use mathlib.Core.List.Perm
use mathlib.Core.Option.{some-injective}
use deconz_lib.Base.{
  ℕ, ◌+◌, ◌-◌, ◌≤◌, ◌<◌, ◌^◌, ◌≡◌, refl, sym, ap, ◌∙◌, Bool, true, false, not, Option, none, some,
  List, [], ◌∷◌, ◌++◌, arith, if◌then◌else◌, if-both, length, All, map,
}
use deconz_lib.Base.Int.{ℤ, pos, to_bits}
use deconz_lib.Downloader.{Entry, NetApi, Dl, DownloadStatus, done}
use deconz_lib.Downloader.Entries.{Ticket, ticket_of, IsNet}
use deconz_lib.Downloader.Response.Header.{total_size-exact}
use deconz_lib.Downloader.Thread.{
  DownloadData, Outcome, data_of, is_done, is_zero, outcome_of, no_outcome, is_initial,
  download_step,
}
use deconz_lib.Downloader.Thread.Run.{
  Event, asks, tells, Run, here, next, Pending, SpecStep, idle, finish, enqueue, tell,
}
use deconz_lib.Downloader.Thread.Round.{IsDl, IsSelf, pending}
use deconz_lib.Downloader.Thread.Follows.{Step-Follows}

-- All downloads that wait or are to be reported.
abbrev pub open_tickets : Pending → List Ticket
open_tickets p = p.finished ++ p.waiting

SpecStep-Perm :
    {p q : Pending} {ev : Event} (us ts : List Ticket)
    → SpecStep p ev q
    → Perm us (ts ++ open_tickets p)
    → Perm (asks ev us) (tells ev ts ++ open_tickets q)
SpecStep-Perm us ts idle h = h
SpecStep-Perm us ts (finish {ts = ws} {us = fs}) h =
    Perm.trans h (Perm.append (Perm.refl ts) (perm_middle fs ws))
SpecStep-Perm us ts (enqueue {p} t) h =
    let all = ts ++ open_tickets p in
    let at_end : all ++ (t ∷ []) ≡ ts ++ (p.finished ++ (p.waiting ++ (t ∷ []))) =
      append_assoc ts (open_tickets p) (t ∷ [])
      ∙ ap (λ l. ts ++ l) (append_assoc p.finished p.waiting (t ∷ [])) in
    subst (λ l. Perm (t ∷ us) l) at_end
      (Perm.trans (Perm.cons t h) (Perm.symm (perm_append_singleton t all)))
SpecStep-Perm us ts (tell {ts = fs} {us = ws}) h = Perm.trans h (perm_middle ts (fs ++ ws))

nothing_open :
    {api : NetApi} (s : Dl api)
    → s.busy_list ≡ []
    → s.done_list ≡ []
    → open_tickets (pending s) ≡ []
nothing_open s b d = ap₂ (λ fs ws. map ticket_of fs ++ map ticket_of ws) d b

-- In every run from a downloader without downloads, the downloads that were asked for are, as often,
-- those that were reported and those that still wait or are to be reported: none is lost, and none is
-- reported twice. A download is reported by a call of its callback with its handle and its user, or
-- freed without a call if it has no callback. All entries are well formed.
pub Run-Perm :
    {api : NetApi} (law : IsNet api) {s dl : Dl api} {us ts : List Ticket}
    → s.busy_list ≡ []
    → s.done_list ≡ []
    → Run s dl us ts
    → IsDl dl × Perm us (ts ++ open_tickets (pending dl))
Run-Perm law {s} b d here = (
  record { busy = subst (All IsSelf) (sym b) tt; reported = subst (All IsSelf) (sym d) tt },
  subst (λ l. Perm [] l) (sym (nothing_open s b d)) (Perm.refl []),
)
Run-Perm law b d (next {ts = ts} r st) =
    let (inv, perm) = Run-Perm law b d r in
    let (inv', sp) = Step-Follows law st inv in (inv', SpecStep-Perm _ _ sp perm)

-- The data that a callback is told to read lies in the part of the buffer that was received.
pub record IsInside (e : Entry) (d : DownloadData) : Type 0 where
  pub header : d.hdr_size ≤ e.bufpos
  pub received : e.bufpos ≤ length e.buf
  pub body :
      (q : ℕ)
      → d.data_at ≡ some q
      → (q ≡ d.hdr_size) × (0 < d.data_size) × (q + d.data_size ≡ e.bufpos)

if_none : (b : Bool) (q n : ℕ) → (if b then some n else none) ≡ some q → (b ≡ true) × (q ≡ n)
if_none true q n h = (refl, sym (some-injective _ _ h))
if_none false q n h = cc

if_false : (a b : Bool) → (if a then b else false) ≡ true → (a ≡ true) × (b ≡ true)
if_false true b h = (refl, h)
if_false false b h = cc

not-false : (b : Bool) → not b ≡ true → b ≡ false
not-false false h = refl
not-false true h = cc

is_done→eq : (s : DownloadStatus) → is_done s ≡ true → s ≡ done
is_done→eq done h = refl
is_done→eq _ h = cc

-- The size of the body, on 32 bits, when the sizes were compared.
body_size :
    (hdr_length n : ℕ) (z : ℤ)
    → hdr_length ≤ n
    → n < 2 ^ 32
    → z ≡ pos (n - hdr_length)
    → is_zero z ≡ false
    → (0 < to_bits 32 z) × (hdr_length + to_bits 32 z ≡ n)
body_size hdr_length n z h s e nz =
    subst (λ w. is_zero w ≡ false → (0 < to_bits 32 w) × (hdr_length + to_bits 32 w ≡ n)) (sym e)
      (λ k. (ground (arith, k, s), omega (arith, h, s))) nz

-- `dldata.data` is set.
abbrev has_data : Entry → Bool
has_data e = if is_done e.status then not (is_zero e.content_length) else false

has_data_lem :
    (e : Entry)
    → IsSelf e
    → has_data e ≡ true
    → (0 < to_bits 32 e.content_length) × (e.hdr_length + to_bits 32 e.content_length ≡ e.bufpos)
has_data_lem e inv h =
    let (over, some_data) = if_false (is_done e.status) (not (is_zero e.content_length)) h in
    let total = (inv.complete (is_done→eq e.status over)).1 in
    let small : e.bufpos < 2 ^ 32 = omega (arith, inv.filled, inv.small) in
    body_size e.hdr_length e.bufpos e.content_length inv.header small
      (total_size-exact e.hdr_length e.bufpos e.content_length inv.long inv.header small total)
      (not-false (is_zero e.content_length) some_data)

data_of-IsInside : (e : Entry) → IsSelf e → IsInside e (data_of e)
unfolding data_of
data_of-IsInside e inv = record {
  header = inv.header;
  received = omega (arith, inv.whole, inv.filled);
  body = λ q h. by_flag q (if_none (has_data e) q e.hdr_length h);
}
  where
    size_is : ℕ → Type 0
    size_is q =
        (q ≡ e.hdr_length)
        × (0 < (if has_data e then to_bits 32 e.content_length else 0))
        × (q + (if has_data e then to_bits 32 e.content_length else 0) ≡ e.bufpos)

    by_flag : (q : ℕ) → (has_data e ≡ true) × (q ≡ e.hdr_length) → size_is q
    by_flag q (f, at) =
        let (some_data, total) = has_data_lem e inv f in
        let size : (if has_data e then to_bits 32 e.content_length else 0)
            ≡ to_bits 32 e.content_length =
          rw f refl in
        (at, omega (arith, size, some_data), omega (arith, size, total, at))

outcome_of-IsInside :
    (e e' : Entry) (f : ℕ) (d : DownloadData)
    → IsSelf e
    → (outcome_of e).freed ≡ some e'
    → (outcome_of e).called ≡ some (f, d)
    → IsInside e' d
outcome_of-IsInside e e' f d inv q c = by_callback e.callback c
  where
    by_callback :
        (cb : Option ℕ)
        → ◌≡◌ {A = Option (ℕ × DownloadData)}
            (elim cb [ none ↦ none | some f ↦ some (f, data_of e) ])
            (some (f, d))
        → IsInside e' d
    by_callback none h = cc
    by_callback (some g) h =
        subst (λ w. IsInside w d) (some-injective _ _ q)
          (subst (IsInside e) (ap (λ r. r.1) (some-injective _ _ h)) (data_of-IsInside e inv))

-- In every run from a downloader without downloads: when `N_DownloadStep` calls a callback, the
-- header that it points to lies in the received part of the entry's buffer, and the data, if there is
-- any, is exactly the rest of the received part behind the header.
pub download_step-IsInside :
    {api : NetApi} (law : IsNet api) {s dl : Dl api} {us ts : List Ticket} (e : Entry) (f : ℕ)
    (d : DownloadData)
    → s.busy_list ≡ []
    → s.done_list ≡ []
    → Run s dl us ts
    → (download_step api dl).0.freed ≡ some e
    → (download_step api dl).0.called ≡ some (f, d)
    → IsInside e d
unfolding download_step
download_step-IsInside {api} law {s} {dl} e f d b n run =
    if-both (λ (r : Outcome × Dl api). r.0.freed ≡ some e → r.0.called ≡ some (f, d) → IsInside e d)
      (is_initial dl.state) (λ q. cc) (by_done dl.done_list (Run-Perm law b n run).0.reported)
  where
    by_done :
        (l : List Entry)
        → All IsSelf l
        → (λ (r : Outcome × Dl api). r.0.freed ≡ some e → r.0.called ≡ some (f, d) → IsInside e d)
            (elim l [
              | [] ↦ (no_outcome, dl)
              | e ∷ rest ↦ (outcome_of e, record dl { done_list = rest })
            ])
    by_done [] a = λ q. cc
    by_done (g ∷ rest) a = outcome_of-IsInside g e f d a.0
