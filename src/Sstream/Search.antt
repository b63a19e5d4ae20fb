-- ===== src/Sstream/Search.antt =====
-- u_sstream.c: `U_sstream_starts_with`, `U_sstream_find` and `U_sstream_compare`.
pub mod Find
pub mod Compare
use deconz_lib.Base.{
  ℕ, zero, suc, ◌+◌, ◌-◌, Bool, true, false, ◌&&◌, ◌||◌, Option, none, some, List, [], ◌∷◌, sub_u32,
  ltb, leb, ◌==◌, if◌then◌else◌, length, get_or, take,
}
use deconz_lib.Base.Int.{ℤ, pos, negsuc}
use deconz_lib.Base.Text.{strlen}
use deconz_lib.Sstream.{Sstream, is_ok, memory}

-- The comparison loop of `U_sstream_starts_with`, over the characters before the NUL.
pub matches : List ℕ → ℕ → List ℕ → Bool
matches m p [] = true
matches m p (c ∷ s) = let rest = matches m (p + 1) s in if get_or m p 0 == c then rest else false

unfoldable pub starts_with : Option (List ℕ) → Sstream → Bool
unfolding matches strlen
starts_with none ss = false
starts_with (some s) ss =
    if is_ok ss.status
    then if leb ss.len ss.pos || strlen s == 0
      then false
      else leb (strlen s) (sub_u32 ss.len ss.pos) && matches (memory ss) ss.pos (take (strlen s) s)
    else false

-- The inner loop of `U_sstream_find`: how many characters agree.
pub match_count : List ℕ → ℕ → List ℕ → ℕ
match_count m p [] = 0
match_count m p (c ∷ s) =
    let rest = match_count m (p + 1) s in if get_or m p 0 == c then rest + 1 else 0

-- The outer loop makes at most `len - pos` rounds, which the first argument counts.
pub find_loop : ℕ → List ℕ → ℕ → ℕ → List ℕ → Option ℕ
find_loop zero m len p s = none
find_loop (suc k) m len p s =
    let rest = find_loop k m len (p + 1) s in
    if ltb p len && leb (length s) (len - p)
    then (if match_count m p s == length s then some p else rest)
    else none

unfoldable pub find : Option (List ℕ) → Sstream → Bool × Sstream
unfolding find_loop match_count strlen
find none ss = (false, ss)
find (some s) ss =
    if is_ok ss.status
    then if leb ss.len ss.pos || strlen s == 0
      then (false, ss)
      else elim (find_loop (ss.len - ss.pos) (memory ss) ss.len ss.pos (take (strlen s) s)) [
        | none ↦ (false, ss)
        | some p ↦ (true, record ss { pos = p })
      ]
    else (false, ss)

-- `(int)a - (int)b`
abbrev pub difference : ℕ → ℕ → ℤ
difference a b = if leb b a then pos (a - b) else negsuc (b - a - 1)

-- The loop from index `i` on, with `left` characters of the text to go; the list is what stands
-- in the C string from `i` on, and the NUL follows it.
pub compare_loop : ℕ → List ℕ → ℕ → List ℕ → ℤ
compare_loop zero m i [] = pos 0
compare_loop zero m i (c ∷ s) = if c == 0 then pos 0 else difference 0 c
compare_loop (suc left) m i [] = pos (get_or m i 0)
compare_loop (suc left) m i (c ∷ s) =
    let rest = compare_loop left m (i + 1) s in
    if c == 0
    then pos (get_or m i 0)
    else if get_or m i 0 == c
    then rest
    else difference (get_or m i 0) c

unfoldable pub compare_text : Option (List ℕ) → Sstream → ℤ
unfolding compare_loop
compare_text none ss = pos 0
compare_text (some s) ss = if is_ok ss.status then compare_loop ss.pos (memory ss) 0 s else pos 0
