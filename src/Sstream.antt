-- ===== src/Sstream.antt =====
-- u_sstream.c, deconz/u_sstream.h: a cursor over a text that is built or parsed in place.
-- `unsigned` has 32 bits and `long` 64 (LP64). The memory behind `str` is a list of bytes, and the
-- stream is its only writer. Doubles (`U_sstream_put_double`, `U_sstream_get_double`, `U_strtod`)
-- are not modelled.
pub mod Cursor
pub mod Put
pub mod Parse
pub mod Search
mod Tests
use deconz_lib.Base.{
  ℕ, zero, suc, ◌+◌, ◌-◌, ◌^◌, ◌≤◌, ◌<◌, ◌≡◌, Bool, true, false, ◌||◌, Option, none, some, List, [],
  u32, sub_u32, ltb, leb, ◌==◌, if◌then◌else◌, length, get_or, set, drop,
}

-- `U_sstream_status`
pub data Status : Type 0 where
  ok err_range err_invalid err_no_space : Status

abbrev pub is_ok : Status → Bool
is_ok ok = true
is_ok _ = false

-- `U_SStream`; `none` is the null pointer.
pub record Sstream : Type 0 where
  pub str : Option (List ℕ)
  pub pos : ℕ
  pub len : ℕ
  pub status : Status

abbrev pub memory : Sstream → List ℕ
memory ss = elim ss.str [ none ↦ [] | some m ↦ m ]

-- `ss->str[i]`
abbrev pub char_at : Sstream → ℕ → ℕ
char_at ss i = get_or (memory ss) i 0

-- `ss->str[ss->pos] = c`
abbrev pub put_here : ℕ → Sstream → Sstream
put_here c ss = record ss { str = elim ss.str [ none ↦ none | some m ↦ some (set m ss.pos c) ] }

-- `ss->str[ss->pos++] = c`
abbrev pub put_char : ℕ → Sstream → Sstream
put_char c ss = record ss {
  str = elim ss.str [ none ↦ none | some m ↦ some (set m ss.pos c) ];
  pos = u32 (ss.pos + 1);
}

abbrev pub fail : Status → Sstream → Sstream
fail e ss = record ss { status = e }

unfoldable pub init : Option (List ℕ) → ℕ → Sstream
init str size = record {
  str = str;
  pos = 0;
  len = size;
  status = elim str [ none ↦ err_invalid | some _ ↦ if size == 0 then err_invalid else ok ];
}

-- The text that `U_sstream_str` points to: from the cursor, or from the start after an error.
unfoldable pub str_from : Sstream → Option (List ℕ)
str_from ss =
    if is_ok ss.status then elim ss.str [ none ↦ none | some m ↦ some (drop ss.pos m) ] else ss.str

unfoldable pub remaining : Sstream → ℕ
remaining ss =
    if is_ok ss.status then (if leb ss.pos ss.len then sub_u32 ss.len ss.pos else 0) else 0

unfoldable pub at_end : Sstream → Bool
at_end ss =
    if is_ok ss.status
    then (if leb ss.pos ss.len then sub_u32 ss.len ss.pos == 0 else true)
    else true

unfoldable pub peek_char : Sstream → ℕ
peek_char ss = if is_ok ss.status then (if ltb ss.pos ss.len then char_at ss ss.pos else 0) else 0

unfoldable pub seek : ℕ → Sstream → Sstream
seek pos ss = if leb pos ss.len then record ss { pos = pos } else ss

abbrev pub is_space : ℕ → Bool
is_space c = c == 0x20 || c == 0x09 || c == 0x0a || c == 0x0d

-- The loop makes at most `len - pos` rounds, which the first argument counts.
unfoldable pub skip_loop : ℕ → List ℕ → ℕ → ℕ
skip_loop zero m p = p
skip_loop (suc k) m p =
    let rest = skip_loop k m (p + 1) in if is_space (get_or m p 0) then rest else p

unfoldable pub skip_whitespace : Sstream → Sstream
unfolding skip_loop
skip_whitespace ss =
    if is_ok ss.status
    then record ss { pos = skip_loop (ss.len - ss.pos) (memory ss) ss.pos }
    else ss

-- A stream over `m` that has met no error.
pub record IsOpen (m : List ℕ) (ss : Sstream) : Type 0 where
  pub over : ss.str ≡ some m
  pub fine : ss.status ≡ ok
  pub fits : ss.len ≤ length m
  pub small : ss.len < 2 ^ 32
  pub within : ss.pos ≤ ss.len
