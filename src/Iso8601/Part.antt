-- ===== src/Iso8601/Part.antt =====
-- U_TimeFromISO8601: the numbers of a time and the separators between them.
use mathlib.Core.Path.{subst}
use deconz_lib.Base.{
  ℕ, ◌+◌, ◌-◌, ◌≤◌, ◌<◌, ◌^◌, ◌≡◌, refl, ap, ◌∙◌, inr, false, some, List, [], ◌∷◌, ◌++◌, arith,
  ◌==◌, if◌then◌else◌, length, get_or, All, Reads, Reads-append, length-append,
}
use deconz_lib.Base.Int.{ℤ, pos}
use deconz_lib.Base.Text.{is_digit}
use deconz_lib.Sstream.{Sstream, ok, init, peek_char, seek}
use deconz_lib.Sstream.Put.Decimal.{IsDigit, value_from}
use deconz_lib.Sstream.Parse.{get_long}
use deconz_lib.Sstream.Parse.Strtol.{Ends, strtol-apply_sign}
use deconz_lib.Iso8601.{
  Tm, TimeApi, get_int, fixed, step, milli_part, second_part, minute_part, hour_part, day_part,
  month_part, stamp_result, zone_part,
}

-- A stream over `m` at `p`.
abbrev pub over : List ℕ → ℕ → Sstream
over m p = record { str = some m; pos = p; len = length m; status = ok }

-- What is left of the text.
abbrev pub IsRest : List ℕ → ℕ → List ℕ → Type 0
IsRest m p r = Reads m p r × (p + length r ≡ length m)

pub IsRest-behind :
    (cs r m : List ℕ) (p q : ℕ) → p + length cs ≡ q → IsRest m p (cs ++ r) → IsRest m q r
IsRest-behind cs r m p q e (h, l) = (
  subst (λ k. Reads m k r) e (Reads-append cs r m p h).1,
  omega (arith, l, e, length-append cs r),
)

-- Decimal digits, with their number.
pub record IsNumber (width lo hi : ℕ) (cs : List ℕ) : Type 0 where
  pub digits : All IsDigit cs
  pub size : length cs ≡ width
  pub low : lo ≤ value_from 0 cs
  pub high : value_from 0 cs ≤ hi

pub month-step :
    (tm : Tm) (v : ℕ) (ss t : Sstream)
    → peek_char ss ≡ b'-'
    → fixed 7 1 12 (step ss) ≡ some (v, t)
    → month_part tm ss ≡ day_part (record tm { mon = v - 1 }) t
unfolding month_part
month-step tm v ss t h f = rw (h, f) refl

pub day-step :
    (tm : Tm) (v : ℕ) (ss t : Sstream)
    → peek_char ss ≡ b'-'
    → fixed 10 1 31 (step ss) ≡ some (v, t)
    → day_part tm ss ≡ hour_part (record tm { mday = v }) t
unfolding day_part
day-step tm v ss t h f = rw (h, f) refl

pub hour-step :
    (tm : Tm) (v : ℕ) (ss t : Sstream)
    → peek_char ss ≡ b'T'
    → fixed 13 0 23 (step ss) ≡ some (v, t)
    → hour_part tm ss ≡ minute_part (record tm { hour = v }) t
unfolding hour_part
hour-step tm v ss t h f = rw (h, f) refl

pub minute-step :
    (tm : Tm) (v : ℕ) (ss t : Sstream)
    → peek_char ss ≡ b':'
    → fixed 16 0 59 (step ss) ≡ some (v, t)
    → minute_part tm ss ≡ second_part (record tm { min = v }) t
unfolding minute_part
minute-step tm v ss t h f = rw (h, f) refl

pub second-step :
    (tm : Tm) (v : ℕ) (ss t : Sstream)
    → peek_char ss ≡ b':'
    → fixed 19 0 60 (step ss) ≡ some (v, t)
    → second_part tm ss ≡ some (milli_part (record tm { sec = if v == 60 then 59 else v }) t)
unfolding second_part
second-step tm v ss t h f = rw (h, f) refl

module _ (m : List ℕ) (small : length m < 2 ^ 32) where
  get_long-digits :
      (cs : List ℕ) (c : ℕ) (r : List ℕ) (p : ℕ)
      → All IsDigit cs
      → 0 < length cs
      → value_from 0 cs < 2 ^ 31
      → is_digit c ≡ false
      → IsRest m p (cs ++ (c ∷ r))
      → get_long (over m p) ≡ (pos (value_from 0 cs), over m (p + length cs))
  unfolding get_long
  get_long-digits cs c r p d n v e (h, l) =
      let (spelled, behind) = Reads-append cs (c ∷ r) m p h in
      let size = length-append cs (c ∷ r) in
      let there : p + 0 + length cs ≡ p + length cs = omega arith in
      let ends : Ends m (p + 0 + length cs) (length m - p - 0 - length cs) =
        inr (ap (λ k. is_digit (get_or m k 0)) there ∙ ap is_digit behind.0 ∙ e) in
      let parsed =
        strtol-apply_sign false cs m p (length m - p) spelled d n (omega (arith, l, size)) ends
          (omega (arith, v)) in
      ground (arith, l, size, small, n, v, there, parsed)

  pub peek_char-here : (c : ℕ) (r : List ℕ) (p : ℕ) → IsRest m p (c ∷ r) → peek_char (over m p) ≡ c
  unfolding peek_char
  peek_char-here c r p (h, l) = ground (arith, l, h.0)

  step-over : (c : ℕ) (r : List ℕ) (p : ℕ) → IsRest m p (c ∷ r) → step (over m p) ≡ over m (p + 1)
  unfolding seek
  step-over c r p (h, l) = ground (arith, l, small)

  -- One number and the character behind it.
  pub fixed-number :
      (lo hi p end : ℕ) (cs : List ℕ) (c : ℕ) (r : List ℕ)
      → IsNumber (end - p) lo hi cs
      → p < end
      → hi < 2 ^ 31
      → is_digit c ≡ false
      → IsRest m p (cs ++ (c ∷ r))
      → fixed end lo hi (over m p) ≡ some (value_from 0 cs, over m end)
  unfolding fixed get_int
  fixed-number lo hi p end cs c r k before hh e rest =
      let at_end : p + length cs ≡ end = omega (arith, k.size, before) in
      let got =
        get_long-digits cs c r p k.digits (omega (arith, k.size, before))
          (omega (arith, k.high, hh)) e rest in
      rw (got, at_end) (ground (arith, k.high, k.low, hh))

  -- A separator, a number and what stands behind it.
  module _ (lo hi p end : ℕ) (sep : ℕ) (cs : List ℕ) (c : ℕ) (r : List ℕ)
      (k : IsNumber (end - (p + 1)) lo hi cs) (before : p + 1 < end) (hh : hi < 2 ^ 31)
      (e : is_digit c ≡ false) (rest : IsRest m p (sep ∷ (cs ++ (c ∷ r)))) where
    at_number : IsRest m (p + 1) (cs ++ (c ∷ r))
    at_number = IsRest-behind (sep ∷ []) (cs ++ (c ∷ r)) m p (p + 1) (omega arith) rest

    pub part-fixed : fixed end lo hi (step (over m p)) ≡ some (value_from 0 cs, over m end)
    part-fixed =
        ap (fixed end lo hi) (step-over sep (cs ++ (c ∷ r)) p rest)
        ∙ fixed-number lo hi (p + 1) end cs c r k before hh e at_number

    pub part-behind : IsRest m end (c ∷ r)
    part-behind = IsRest-behind cs (c ∷ r) m (p + 1) end (omega (arith, k.size, before)) at_number

    pub part-here : peek_char (over m p) ≡ sep
    part-here = peek_char-here sep (cs ++ (c ∷ r)) p rest

  pub milli-step :
      (tm : Tm) (p : ℕ) (cs : List ℕ) (c : ℕ) (r : List ℕ)
      → All IsDigit cs
      → 0 < length cs
      → value_from 0 cs < 2 ^ 31
      → is_digit c ≡ false
      → IsRest m p (b'.' ∷ (cs ++ (c ∷ r)))
      → milli_part tm (over m p) ≡ (tm, pos (value_from 0 cs), over m (p + 1 + length cs))
  unfolding milli_part get_int
  milli-step tm p cs c r d n v e rest =
      let next = IsRest-behind (b'.' ∷ []) (cs ++ (c ∷ r)) m p (p + 1) (omega arith) rest in
      let got = get_long-digits cs c r (p + 1) d n v e next in
      rw (peek_char-here b'.' (cs ++ (c ∷ r)) p rest, step-over b'.' (cs ++ (c ∷ r)) p rest, got)
        (ground (arith, v))

pub init-over : (m : List ℕ) → 0 < length m → init (some m) (length m) ≡ over m 0
unfolding init
init-over m h = ground (arith, h)

pub zone-step :
    (api : TimeApi) (tm : Tm) (ms : ℤ) (ss : Sstream)
    → peek_char ss ≡ b'Z'
    → zone_part api (tm, ms, ss) ≡ stamp_result (api.timegm tm) ms
unfolding zone_part
zone-step api tm ms ss h = rw h refl
