-- ===== src/Sstream/Put/Text.antt =====
-- U_sstream_put_str: an append to an open text as one run of characters.
use deconz_lib.Base.{
  ℕ, ◌+◌, ◌-◌, ◌≤◌, ◌<◌, ◌≡◌, ◌∙◌, some, List, [], ◌∷◌, ◌++◌, arith, ltb, if◌then◌else◌, length,
  get_or, set, take, store, All, length-set, get_or-set_self, take-set_ge, length-store, take-store,
}
use native.Mathlib.Numerals.{add-one}
use deconz_lib.Base.Text.{strlen-length, IsChar}
use deconz_lib.Sstream.{Sstream, err_no_space, fail, memory, IsOpen}
use deconz_lib.Sstream.Put.{copy, put_str}

-- The characters `cs` at the cursor, and the NUL behind them.
abbrev pub appended : List ℕ → List ℕ → Sstream → Sstream
appended m cs ss = record ss {
  str = some (set (store m ss.pos cs) (ss.pos + length cs) 0);
  pos = ss.pos + length cs;
}

-- A text takes characters while the NUL still fits behind them.
abbrev pub emit : List ℕ → List ℕ → Sstream → Sstream
emit m cs ss = if ltb (length cs) (ss.len - ss.pos) then appended m cs ss else fail err_no_space ss

copy-store :
    (last : ℕ) (s m : List ℕ) (p : ℕ)
    → All IsChar s
    → p + length s ≤ last
    → copy last m p s ≡ (store m p s, p + length s)
unfolding copy
copy-store last [] m p h room = ground arith
copy-store last (c ∷ s) m p (h, hs) room =
    ground (arith, add-one p, copy-store last s (set m p c) (p + 1) hs)

-- On an open text with its cursor before the end, a C string of fewer characters than remain is
-- appended with its NUL and the cursor is left at the NUL; any other is refused with the status
-- for lack of space, and text and cursor stay.
pub put_str-emit :
    (s : List ℕ) {m : List ℕ} {ss : Sstream}
    → All IsChar s
    → IsOpen m ss
    → ss.pos < ss.len
    → put_str (some s) ss ≡ emit m s ss
unfolding put_str
put_str-emit s {m} {ss} cs o h =
    ground (arith, strlen-length s cs, copy-store (ss.len - 1) s m ss.pos cs)

-- What an appended text reads: the old text up to the cursor, the new characters, and a NUL.
pub appended_text :
    (cs m : List ℕ) (ss : Sstream)
    → ss.pos + length cs < length m
    → (take (ss.pos + length cs) (memory (appended m cs ss)) ≡ take ss.pos m ++ cs)
      × (get_or (memory (appended m cs ss)) (ss.pos + length cs) 0 ≡ 0)
      × (length (memory (appended m cs ss)) ≡ length m)
appended_text cs m ss h = (
  take-set_ge (ss.pos + length cs) (store m ss.pos cs) (ss.pos + length cs) 0 (omega arith)
      ∙ take-store cs m ss.pos (omega arith),
  get_or-set_self (store m ss.pos cs) (ss.pos + length cs) 0 0
      (omega (arith, length-store m ss.pos cs)),
  length-set (store m ss.pos cs) (ss.pos + length cs) 0 ∙ length-store m ss.pos cs,
)

pub appended-IsOpen :
    (cs : List ℕ) {m : List ℕ} {ss : Sstream}
    → IsOpen m ss
    → ss.pos + length cs < ss.len
    → IsOpen (memory (appended m cs ss)) (appended m cs ss)
appended-IsOpen cs {m} {ss} o h =
    ground (arith, length-set (store m ss.pos cs) (ss.pos + length cs) 0, length-store m ss.pos cs)
