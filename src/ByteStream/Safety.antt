-- ===== src/ByteStream/Safety.antt =====
-- What a sequence of puts and gets can do to a stream and its memory, fitting or not.
use deconz_lib.Base.{
  ℕ, ◌+◌, ◌^◌, ◌≤◌, ◌<◌, ◌≡◌, refl, ap, ◌∙◌, inl, inr, true, false, none, some, List, [], ◌∷◌,
  arith, ltb, Bool-cases, length, get_or, length-store, get_or-store_lt, get_or-store_ge,
}
use deconz_lib.ByteStream.{
  Bstream, Status, ok, is_ok, write_past_end, read_past_end, not_initialised, verify, put_u8,
  put_u16_le, put_u32_le, get_u8, get_u16_le, get_u32_le, get_u16_be, get_u32_be,
}
use deconz_lib.Base.Shift.{bytes_le}
use deconz_lib.ByteStream.Access.{IsOpen, emit, put_u8-emit, put_u16_le-emit, put_u32_le-emit}

-- A put or get of any width.
pub data Call : Type 0 where
  put_byte put_half put_word : ℕ → Call
  get_byte get_half get_half_be get_word get_word_be : Call

-- What it leaves of the stream.
pub run : Call → Bstream → Bstream
run (put_byte v) bs = put_u8 v bs
run (put_half v) bs = put_u16_le v bs
run (put_word v) bs = put_u32_le v bs
run get_byte bs = (get_u8 bs).1
run get_half bs = (get_u16_le bs).1
run get_half_be bs = (get_u16_be bs).1
run get_word bs = (get_u32_le bs).1
run get_word_be bs = (get_u32_be bs).1

pub run_all : List Call → Bstream → Bstream
run_all [] bs = bs
run_all (c ∷ cs) bs = run_all cs (run c bs)

abbrev pub memory : Bstream → List ℕ
memory bs = elim bs.buf [ none ↦ [] | some m ↦ m ]

-- A stream over some memory, that an error may have stopped.
pub record IsSafe (bs : Bstream) : Type 0 where
  pub over : bs.buf ≡ some (memory bs)
  pub fits : bs.size ≤ length (memory bs)
  pub small : bs.size < 2 ^ 63
  pub within : bs.pos ≤ bs.size

-- What calls keep: the memory's size, the bytes before the cursor and those past the end.
pub record Keeps (bs t : Bstream) : Type 0 where
  pub safe : IsSafe t
  pub size : t.size ≡ bs.size
  pub forward : bs.pos ≤ t.pos
  pub extent : length (memory t) ≡ length (memory bs)
  pub before : (j : ℕ) → j < bs.pos → get_or (memory t) j 0 ≡ get_or (memory bs) j 0
  pub behind : (j : ℕ) → bs.size ≤ j → get_or (memory t) j 0 ≡ get_or (memory bs) j 0

-- After an error every put and get leaves the stream as it is.
pub run_stopped : (c : Call) (bs : Bstream) → is_ok bs.status ≡ false → run c bs ≡ bs
unfolding run verify put_u8 put_u16_le put_u32_le get_u8 get_u16_le get_u16_be get_u32_le get_u32_be
run_stopped (put_byte v) bs h = rw h
run_stopped (put_half v) bs h = rw h
run_stopped (put_word v) bs h = rw h
run_stopped get_byte bs h = ground arith
run_stopped get_half bs h = ground arith
run_stopped get_half_be bs h = ground arith
run_stopped get_word bs h = ground arith
run_stopped get_word_be bs h = ground arith

Keeps-refl : {bs : Bstream} → IsSafe bs → Keeps bs bs
Keeps-refl s = record {
  safe = s;
  size = refl;
  forward = omega arith;
  extent = refl;
  before = λ j h. refl;
  behind = λ j h. refl;
}

Keeps-trans : {a b c : Bstream} → Keeps a b → Keeps b c → Keeps a c
Keeps-trans p q = record {
  safe = q.safe;
  size = q.size ∙ p.size;
  forward = omega arith;
  extent = q.extent ∙ p.extent;
  before = λ j h. q.before j (omega arith) ∙ p.before j h;
  behind = λ j h. q.behind j (omega arith) ∙ p.behind j h;
}

emit-Keeps : (vs : List ℕ) {bs : Bstream} → IsSafe bs → Keeps bs (emit (memory bs) vs bs)
emit-Keeps vs {bs} s = elim (Bool-cases (ltb bs.size (bs.pos + length vs))) [
  | inl full ↦ rw full (record {
    safe = record { over = s.over; fits = s.fits; small = s.small; within = s.within };
    size = refl;
    forward = omega arith;
    extent = refl;
    before = λ j h. refl;
    behind = λ j h. refl;
  })
  | inr room ↦ rw room (record {
    safe = ground (arith, length-store (memory bs) bs.pos vs);
    size = refl;
    forward = omega arith;
    extent = length-store (memory bs) bs.pos vs;
    before = λ j h. get_or-store_lt vs (memory bs) bs.pos j 0 h;
    behind = λ j h. get_or-store_ge vs (memory bs) bs.pos j 0 (ground arith);
  })
]

-- A stream that differs in its cursor and status only.
cursor-Keeps :
    {bs t : Bstream}
    → IsSafe bs
    → t.buf ≡ bs.buf
    → t.size ≡ bs.size
    → bs.pos ≤ t.pos
    → t.pos ≤ t.size
    → Keeps bs t
cursor-Keeps {bs} {t} s e z f w = record {
  safe = ground arith;
  size = z;
  forward = f;
  extent = ap (λ o. length (elim o [ none ↦ [] | some m ↦ m ])) e;
  before = λ j h. ap (λ o. get_or (elim o [ none ↦ [] | some m ↦ m ]) j 0) e;
  behind = λ j h. ap (λ o. get_or (elim o [ none ↦ [] | some m ↦ m ]) j 0) e;
}

Status-ok : (s : Status) → is_ok s ≡ true → s ≡ ok
Status-ok ok h = refl
Status-ok read_past_end h = cc
Status-ok write_past_end h = cc
Status-ok not_initialised h = cc

IsOpen-of_safe : {bs : Bstream} → IsSafe bs → is_ok bs.status ≡ true → IsOpen (memory bs) bs
IsOpen-of_safe {bs} s h = record {
  over = s.over;
  fine = Status-ok bs.status h;
  fits = s.fits;
  small = s.small;
  within = s.within;
}

put-Keeps :
    (c : Call) (vs : List ℕ) {bs : Bstream}
    → IsSafe bs
    → (IsOpen (memory bs) bs → run c bs ≡ emit (memory bs) vs bs)
    → Keeps bs (run c bs)
put-Keeps c vs {bs} s e = elim (Bool-cases (is_ok bs.status)) [
  | inl fine ↦ rw (e (IsOpen-of_safe s fine)) (emit-Keeps vs s)
  | inr stopped ↦ rw (run_stopped c bs stopped) (Keeps-refl s)
]

run-Keeps : (c : Call) {bs : Bstream} → IsSafe bs → Keeps bs (run c bs)
unfolding run
run-Keeps (put_byte v) s = put-Keeps (put_byte v) (v ∷ []) s (put_u8-emit v)
run-Keeps (put_half v) s = put-Keeps (put_half v) (bytes_le 2 v) s (put_u16_le-emit v)
run-Keeps (put_word v) s = put-Keeps (put_word v) (bytes_le 4 v) s (put_u32_le-emit v)
run-Keeps get_byte s =
    unfold get_u8 verify in
    cursor-Keeps s (ground arith) (ground arith) (ground arith) (ground arith)
run-Keeps get_half s =
    unfold get_u16_le verify in
    cursor-Keeps s (ground arith) (ground arith) (ground arith) (ground arith)
run-Keeps get_half_be s =
    unfold get_u16_be verify in
    cursor-Keeps s (ground arith) (ground arith) (ground arith) (ground arith)
run-Keeps get_word s =
    unfold get_u32_le verify in
    cursor-Keeps s (ground arith) (ground arith) (ground arith) (ground arith)
run-Keeps get_word_be s =
    unfold get_u32_be verify in
    cursor-Keeps s (ground arith) (ground arith) (ground arith) (ground arith)

-- Whatever puts and gets are made, in whatever order and whether they fit or not: the cursor
-- stays within the size and does not go back, the memory keeps its length, and the bytes before
-- the first cursor and those past the size keep their values.
pub run_all-Keeps : (cs : List Call) {bs : Bstream} → IsSafe bs → Keeps bs (run_all cs bs)
unfolding run_all
run_all-Keeps [] s = Keeps-refl s
run_all-Keeps (c ∷ cs) s = let k = run-Keeps c s in Keeps-trans k (run_all-Keeps cs k.safe)
