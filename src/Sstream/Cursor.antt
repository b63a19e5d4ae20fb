-- ===== src/Sstream/Cursor.antt =====
-- The operations of the string stream that move its cursor.
use deconz_lib.Base.{
  ℕ, zero, suc, ◌+◌, ◌-◌, ◌≤◌, ◌<◌, ◌≡◌, sym, inl, inr, true, false, List, arith, Bool-cases,
  get_or,
}
use mathlib.Core.Path.{subst}
use mathlib.Core.Logic.{◌↔◌}
use native.Mathlib.Decide.{ℕ_discrete}
use deconz_lib.Sstream.{
  Sstream, is_space, skip_loop, skip_whitespace, IsOpen, remaining, at_end, seek,
}

-- The loop of `U_sstream_skip_whitespace` stops at the end, or at the first character from the
-- cursor on that is no white space.
skip_loop_lem :
    (k : ℕ) (m : List ℕ) (p : ℕ)
    → (p ≤ skip_loop k m p)
      × (skip_loop k m p ≤ p + k)
      × ((skip_loop k m p < p + k) → is_space (get_or m (skip_loop k m p) 0) ≡ false)
      × ((j : ℕ) → p ≤ j → j < skip_loop k m p → is_space (get_or m j 0) ≡ true)
unfolding skip_loop
skip_loop_lem zero m p =
    (omega arith, omega arith, λ h. absurd (omega arith), λ j a b. absurd (omega arith))
skip_loop_lem (suc k) m p = elim (Bool-cases (is_space (get_or m p 0))) [
  | inl space ↦
      let (ge, le, stop, all) = skip_loop_lem k m (p + 1) in
      rw space (
        omega arith,
        omega arith,
        λ h. stop (omega arith),
        λ j a b. elim (ℕ_discrete j p) [ yes e ↦ rw e space | no ne ↦ all j (omega arith) b ],
      )
  | inr other ↦ rw other (omega arith, omega arith, λ h. other, λ j a b. absurd (omega arith))
]

-- On an open stream `U_sstream_skip_whitespace` passes over white space only, and stops at the end
-- or before a character that is none; the stream stays open.
skip_whitespace_lem :
    {m : List ℕ} {ss : Sstream}
    → IsOpen m ss
    → IsOpen m (skip_whitespace ss)
      × (ss.pos ≤ (skip_whitespace ss).pos)
      × ((j : ℕ) → ss.pos ≤ j → j < (skip_whitespace ss).pos → is_space (get_or m j 0) ≡ true)
      × ((skip_whitespace ss).pos < ss.len → is_space (get_or m (skip_whitespace ss).pos 0) ≡ false)
unfolding skip_whitespace
skip_whitespace_lem {m} {ss} o =
    let (ge, le, stop, all) = skip_loop_lem (ss.len - ss.pos) m ss.pos in
    subst (λ s. Skipped s) (sym shape)
      (
        record {
          over = o.over;
          fine = o.fine;
          fits = o.fits;
          small = o.small;
          within = omega arith;
        },
        ge,
        all,
        λ h. stop (omega arith),
      )
  where
    Skipped : Sstream → Type 0
    Skipped t =
        IsOpen m t
        × (ss.pos ≤ t.pos)
        × ((j : ℕ) → ss.pos ≤ j → j < t.pos → is_space (get_or m j 0) ≡ true)
        × (t.pos < ss.len → is_space (get_or m t.pos 0) ≡ false)

    shape : skip_whitespace ss ≡ record ss { pos = skip_loop (ss.len - ss.pos) m ss.pos }
    shape = ground arith

-- `U_sstream_remaining` and `U_sstream_at_end` agree with the cursor on every open stream, and after
-- `U_sstream_seek` to a position inside the text as many characters remain as lie behind it.
remaining-seek :
    (p : ℕ) {m : List ℕ} {ss : Sstream}
    → IsOpen m ss
    → p ≤ ss.len
    → (remaining (seek p ss) + p ≡ ss.len) × ((at_end (seek p ss) ≡ true) ↔ (p ≡ ss.len))
unfolding remaining at_end seek
remaining-seek p o h = (ground arith, ((λ e. ground arith), (λ e. ground arith)))
