-- ===== src/Downloader/Response/Chunks.antt =====
-- n_downloader.c: how the bytes of a reply are split over the reads.
use mathlib.Core.Path.{subst}
use mathlib.Core.List.{append_assoc, append-nil}
use mathlib.Core.Option.{some-injective}
use deconz_lib.Base.{
  ℕ, zero, suc, ◌+◌, ◌-◌, ◌≤◌, ◌<◌, ◌^◌, ◌≡◌, refl, sym, ap, ◌∙◌, inl, inr, true, false, Option,
  none, some, List, [], ◌∷◌, ◌++◌, arith, u32, ltb, ◌==◌, Bool-cases, ltb→lt, ==→eq, length, get_or,
  set, take, store, length-append, get_or-store_lt, store-append, take-set_ge,
}
use deconz_lib.Downloader.{Entry}
use deconz_lib.Downloader.Response.{ends_here, scan, parse_header, look_for_header, receive}

ends_here-agree :
    (m m' : List ℕ) (i : ℕ)
    → ((j : ℕ) → j < i + 4 → get_or m j 0 ≡ get_or m' j 0)
    → ends_here m i ≡ ends_here m' i
ends_here-agree m m' i h =
    rw
      (h i (omega arith), h (i + 1) (omega arith), h (i + 2) (omega arith), h (i + 3) (omega arith))
      refl

scan-agree :
    (n : ℕ) (m m' : List ℕ) (i : ℕ)
    → ((j : ℕ) → j < i + n + 3 → get_or m j 0 ≡ get_or m' j 0)
    → scan n m i ≡ scan n m' i
unfolding scan
scan-agree zero m m' i h = refl
scan-agree (suc n) m m' i h =
    rw
      (
        ends_here-agree m m' i (λ j l. h j (omega (arith, l))),
        scan-agree n m m' (i + 1) (λ j l. h j (omega (arith, l))),
      )
      refl

scan-hit : (n : ℕ) (m : List ℕ) (i : ℕ) → ends_here m i ≡ true → scan (suc n) m i ≡ some i
unfolding scan
scan-hit n m i h = rw h refl

scan-pass :
    (n : ℕ) (m : List ℕ) (i : ℕ) → ends_here m i ≡ false → scan (suc n) m i ≡ scan n m (i + 1)
unfolding scan
scan-pass n m i h = rw h refl

-- More rounds find the same end.
scan-more : (n k : ℕ) (m : List ℕ) (i p : ℕ) → scan n m i ≡ some p → scan (n + k) m i ≡ some p
unfolding scan
scan-more zero k m i p e = cc
scan-more (suc n) k m i p e =
    let shift : suc n + k ≡ suc (n + k) = omega arith in
    ap (λ r. scan r m i) shift ∙ elim (Bool-cases (ends_here m i)) [
      | inl s ↦ scan-hit (n + k) m i s ∙ sym (scan-hit n m i s) ∙ e
      | inr s ↦ scan-pass (n + k) m i s ∙ scan-more n k m (i + 1) p (sym (scan-pass n m i s) ∙ e)
    ]

pub scan-within : (n : ℕ) (m : List ℕ) (i p : ℕ) → scan n m i ≡ some p → (i ≤ p) × (p < i + n)
unfolding scan
scan-within zero m i p e = cc
scan-within (suc n) m i p e = elim (Bool-cases (ends_here m i)) [
  | inl s ↦
      let here : i ≡ p = some-injective _ _ (sym (scan-hit n m i s) ∙ e) in
      (omega (arith, here), omega (arith, here))
  | inr s ↦
      let (l, u) = scan-within n m (i + 1) p (sym (scan-pass n m i s) ∙ e) in
      (omega (arith, l), omega (arith, u))
]

set-set_ne : (m : List ℕ) (i j v w : ℕ) → i < j → set (set m i v) j w ≡ set (set m j w) i v
set-set_ne [] i j v w h = refl
set-set_ne (x ∷ m) zero zero v w h = absurd (omega arith)
set-set_ne (x ∷ m) zero (suc j) v w h = refl
set-set_ne (x ∷ m) (suc i) zero v w h = absurd (omega arith)
set-set_ne (x ∷ m) (suc i) (suc j) v w h = ap (λ t. x ∷ t) (set-set_ne m i j v w (omega arith))

-- A write before a run of writes can be done behind it.
pub store-set_before :
    (vs m : List ℕ) (p i v : ℕ) → i < p → store (set m i v) p vs ≡ set (store m p vs) i v
store-set_before [] m p i v h = refl
store-set_before (w ∷ vs) m p i v h =
    ap (λ t. store t (suc p) vs) (set-set_ne m i p v w h)
    ∙ store-set_before vs (set m p w) (suc p) i v (omega arith)

pub take-store_behind : (vs m : List ℕ) (p k : ℕ) → k ≤ p → take k (store m p vs) ≡ take k m
take-store_behind [] m p k h = refl
take-store_behind (w ∷ vs) m p k h =
    take-store_behind vs (set m p w) (suc p) k (omega arith) ∙ take-set_ge k m p w h

-- The entry with the bytes and before the search.
abbrev taken : List ℕ → Entry → Entry
taken bytes e = record e {
  buf = store e.buf e.bufpos bytes;
  bufpos = u32 (e.bufpos + length bytes);
}

taken-taken :
    (a b : List ℕ) (e : Entry)
    → e.bufpos + length a + length b < 2 ^ 32
    → taken b (taken a e) ≡ taken (a ++ b) e
taken-taken a b e h = ground (arith, store-append a b e.buf e.bufpos, length-append a b)

look-found :
    (e : Entry) (i : ℕ)
    → e.hdr_length ≡ 0
    → 16 < e.bufpos
    → scan (e.bufpos - 4) e.buf 0 ≡ some i
    → look_for_header e ≡ parse_header i e
unfolding look_for_header
look-found e i z h f = ground (arith, z, h, f)

look-none : (e : Entry) → scan (e.bufpos - 4) e.buf 0 ≡ none → look_for_header e ≡ e
unfolding look_for_header
look-none e f = ground (arith, f)

look-short : (e : Entry) → e.bufpos ≤ 16 → look_for_header e ≡ e
unfolding look_for_header
look-short e h = ground (arith, h)

-- Bytes behind a header that was found do not change what was read from it.
parse_header-taken :
    (b : List ℕ) (e : Entry) (i : ℕ)
    → i + 4 ≤ e.bufpos
    → taken b (parse_header i e) ≡ parse_header i (taken b e)
unfolding parse_header
parse_header-taken b e i h = ground (
  arith,
  store-set_before b e.buf e.bufpos i 0,
  take-store_behind b (set e.buf i 0) e.bufpos (i + 4),
)

look-done : (e : Entry) → 0 < e.hdr_length → look_for_header e ≡ e
unfolding look_for_header
look-done e h = ground (arith, h)

parse_header-done : (e : Entry) (i : ℕ) → look_for_header (parse_header i e) ≡ parse_header i e
unfolding parse_header
parse_header-done e i = look-done (parse_header i e) (omega arith)

-- The end of the header stands in the longer data where it stood.
scan-taken :
    (b : List ℕ) (e : Entry) (i : ℕ)
    → 16 < e.bufpos
    → e.bufpos + length b < 2 ^ 32
    → scan (e.bufpos - 4) e.buf 0 ≡ some i
    → scan ((taken b e).bufpos - 4) (taken b e).buf 0 ≡ some i
scan-taken b e i h room f =
    let rounds : (taken b e).bufpos - 4 ≡ e.bufpos - 4 + length b = omega arith in
    ap (λ n. scan n (taken b e).buf 0) rounds
    ∙ scan-more (e.bufpos - 4) (length b) (taken b e).buf 0 i (
        scan-agree (e.bufpos - 4) (taken b e).buf e.buf 0
          (λ j l. get_or-store_lt b e.buf e.bufpos j 0 (omega (arith, l)))
        ∙ f)

-- A search between two reads changes nothing.
look-taken :
    (b : List ℕ) (e : Entry)
    → e.bufpos + length b < 2 ^ 32
    → look_for_header (taken b (look_for_header e)) ≡ look_for_header (taken b e)
look-taken b e room = elim (Bool-cases (e.hdr_length == 0)) [
  | inr z ↦ again (look-done e (ground (arith, z)))
  | inl z ↦ elim (Bool-cases (ltb 16 e.bufpos)) [
    | inr s ↦ again (look-short e (ground (arith, s)))
    | inl s ↦ by_scan (==→eq _ _ z) (ltb→lt _ _ s) (scan (e.bufpos - 4) e.buf 0) refl
  ]
]
  where
    again :
        look_for_header e ≡ e
        → look_for_header (taken b (look_for_header e)) ≡ look_for_header (taken b e)
    again q = ap (λ t. look_for_header (taken b t)) q

    by_scan :
        e.hdr_length ≡ 0
        → 16 < e.bufpos
        → (r : Option ℕ) → scan (e.bufpos - 4) e.buf 0 ≡ r
        → look_for_header (taken b (look_for_header e)) ≡ look_for_header (taken b e)
    by_scan z h none f = again (look-none e f)
    by_scan z h (some i) f =
        let (l, u) = scan-within (e.bufpos - 4) e.buf 0 i f in
        let longer : 16 < (taken b e).bufpos = omega (arith, h, room) in
        ap (λ t. look_for_header (taken b t)) (look-found e i z h f)
        ∙ ap look_for_header (parse_header-taken b e i (omega (arith, u, h)))
        ∙ parse_header-done (taken b e) i
        ∙ sym (look-found (taken b e) i z longer (scan-taken b e i h room f))

-- Two reads are one.
receive-receive :
    (a b : List ℕ) (e : Entry)
    → e.bufpos + length a + length b < 2 ^ 32
    → receive b (receive a e) ≡ receive (a ++ b) e
unfolding receive
receive-receive a b e room =
    let small : (taken a e).bufpos + length b < 2 ^ 32 = omega (arith, room) in
    look-taken b (taken a e) small ∙ ap look_for_header (taken-taken a b e room)

-- The data of the reads in a list, one after the other.
abbrev pub receive_all : List (List ℕ) → Entry → Entry
receive_all [] e = e
receive_all (c ∷ cs) e = receive_all cs (receive c e)

abbrev pub joined_bytes : List (List ℕ) → List ℕ
joined_bytes [] = []
joined_bytes (c ∷ cs) = c ++ joined_bytes cs

assoc :
    (c d : List ℕ) (cs : List (List ℕ)) → c ++ (d ++ joined_bytes cs) ≡ (c ++ d) ++ joined_bytes cs
assoc c d cs = sym (append_assoc c d (joined_bytes cs))

-- However the bytes of a reply that fit below 2 ^ 32 are split over one or more reads, the entry is
-- left as by a single read of all of them: the same header, status, length and data.
pub receive_all-joined :
    (c : List ℕ) (cs : List (List ℕ)) (e : Entry)
    → e.bufpos + length (joined_bytes (c ∷ cs)) < 2 ^ 32
    → receive_all (c ∷ cs) e ≡ receive (joined_bytes (c ∷ cs)) e
receive_all-joined c [] e room = ap (λ t. receive t e) (sym (append-nil c))
receive_all-joined c (d ∷ cs) e room =
    let size = length-append c (d ++ joined_bytes cs) in
    let both = length-append d (joined_bytes cs) in
    ap (receive_all cs) (receive-receive c d e (omega (arith, room, size, both)))
    ∙ receive_all-joined (c ++ d) cs e
        (subst (λ t. e.bufpos + length t < 2 ^ 32) (assoc c d cs) room)
    ∙ ap (λ t. receive t e) (sym (assoc c d cs))
