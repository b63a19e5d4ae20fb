-- ===== src/Iso8601/Full.antt =====
-- U_TimeFromISO8601 on a date and time in full.
use mathlib.Core.List.{append-nil}
use mathlib.Core.Path.{subst}
use deconz_lib.Base.{
  ℕ, zero, suc, ◌*◌, ltb, ◌⊎◌, inl, inr, ◌≢◌, ◌+◌, ◌-◌, ◌<◌, ◌^◌, ◌≡◌, refl, ap, ◌∙◌, Option, none,
  some, List, [], ◌∷◌, ◌++◌, arith, ◌==◌, if◌then◌else◌, length, All, Reads, Reads-front,
  length-append,
}
use deconz_lib.Base.Int.{ℤ, pos, negsuc, InRange}
use deconz_lib.Sstream.{Sstream}
use deconz_lib.Sstream.Put.Decimal.{IsDigit, value_from}
use deconz_lib.Iso8601.{
  Tm, TimeApi, fixed, Parts, month_part, year_part, no_time, stamp_result, zone_part, from_iso8601,
}
use deconz_lib.Iso8601.Part.{
  over, IsRest, IsRest-behind, IsNumber, month-step, day-step, hour-step, minute-step, second-step,
  milli-step, fixed-number, part-fixed, part-behind, part-here, peek_char-here, init-over,
  zone-step,
}

-- The digits of a date and time.
pub record Stamp : Type 0 where
  pub y : List ℕ
  pub mo : List ℕ
  pub d : List ℕ
  pub h : List ℕ
  pub mi : List ℕ
  pub s : List ℕ
  pub ms : List ℕ

-- YYYY-MM-DDTHH:MM:SS.sssZ
abbrev pub from_hour : Stamp → List ℕ
from_hour t = b'T' ∷ (t.h ++ (b':' ∷ (t.mi ++ (b':' ∷ (t.s ++ (b'.' ∷ (t.ms ++ (b'Z' ∷ []))))))))

abbrev pub text_of : Stamp → List ℕ
text_of t = t.y ++ (b'-' ∷ (t.mo ++ (b'-' ∷ (t.d ++ from_hour t))))

-- The fields in their ranges.
pub record IsStamp (t : Stamp) : Type 0 where
  pub year : IsNumber 4 1900 9999 t.y
  pub month : IsNumber 2 1 12 t.mo
  pub day : IsNumber 2 1 31 t.d
  pub hour : IsNumber 2 0 23 t.h
  pub minute : IsNumber 2 0 59 t.mi
  pub second : IsNumber 2 0 60 t.s
  pub fraction : All IsDigit t.ms
  pub some_fraction : 0 < length t.ms
  pub fraction_fits : value_from 0 t.ms < 2 ^ 31
  pub short : length t.ms < 2 ^ 31

abbrev pub tm_of : Stamp → Tm
tm_of t = record {
  year = value_from 0 t.y - 1900;
  mon = value_from 0 t.mo - 1;
  mday = value_from 0 t.d;
  hour = value_from 0 t.h;
  min = value_from 0 t.mi;
  sec = if value_from 0 t.s == 60 then 59 else value_from 0 t.s;
}

year-step :
    (v : ℕ) (ss t : Sstream)
    → fixed 4 1900 0x7fffffff ss ≡ some (v, t)
    → year_part ss ≡ month_part (record no_time { year = v - 1900 }) t
unfolding year_part
year-step v ss t f = rw (year_part, f) refl

module _ (t : Stamp) (k : IsStamp t) where
  small : length (text_of t) < 2 ^ 32
  small =
      let a = length-append t.y (b'-' ∷ (t.mo ++ (b'-' ∷ (t.d ++ from_hour t)))) in
      let b = length-append t.mo (b'-' ∷ (t.d ++ from_hour t)) in
      let c = length-append t.d (from_hour t) in
      let d =
        length-append t.h (b':' ∷ (t.mi ++ (b':' ∷ (t.s ++ (b'.' ∷ (t.ms ++ (b'Z' ∷ []))))))) in
      let e = length-append t.mi (b':' ∷ (t.s ++ (b'.' ∷ (t.ms ++ (b'Z' ∷ []))))) in
      let f = length-append t.s (b'.' ∷ (t.ms ++ (b'Z' ∷ []))) in
      let g = length-append t.ms (b'Z' ∷ []) in
      omega (
        arith, a, b, c, d, e, f, g, k.year.size, k.month.size, k.day.size, k.hour.size,
        k.minute.size, k.second.size, k.short,
      )

  at_start : IsRest (text_of t) 0 (text_of t)
  at_start = (
    subst (λ l. Reads l 0 (text_of t)) (append-nil (text_of t)) (Reads-front (text_of t) []),
    omega arith,
  )

  year_digits : IsNumber 4 1900 0x7fffffff t.y
  year_digits = record {
    digits = k.year.digits;
    size = k.year.size;
    low = k.year.low;
    high = omega (arith, k.year.high);
  }

  rest_4 : IsRest (text_of t) 4 (b'-' ∷ (t.mo ++ (b'-' ∷ (t.d ++ from_hour t))))
  rest_4 =
      IsRest-behind t.y (b'-' ∷ (t.mo ++ (b'-' ∷ (t.d ++ from_hour t)))) (text_of t) 0 4
        (omega (arith, k.year.size)) at_start

  rest_7 : IsRest (text_of t) 7 (b'-' ∷ (t.d ++ from_hour t))
  rest_7 =
      part-behind (text_of t) small 1 12 4 7 b'-' t.mo b'-' (t.d ++ from_hour t) k.month
        (omega arith) (omega arith) refl rest_4

  rest_10 : IsRest (text_of t) 10 (from_hour t)
  rest_10 =
      part-behind (text_of t) small 1 31 7 10 b'-' t.d b'T'
        (t.h ++ (b':' ∷ (t.mi ++ (b':' ∷ (t.s ++ (b'.' ∷ (t.ms ++ (b'Z' ∷ [])))))))) k.day
        (omega arith) (omega arith) refl rest_7

  rest_13 :
      IsRest (text_of t) 13 (b':' ∷ (t.mi ++ (b':' ∷ (t.s ++ (b'.' ∷ (t.ms ++ (b'Z' ∷ [])))))))
  rest_13 =
      part-behind (text_of t) small 0 23 10 13 b'T' t.h b':'
        (t.mi ++ (b':' ∷ (t.s ++ (b'.' ∷ (t.ms ++ (b'Z' ∷ [])))))) k.hour (omega arith)
        (omega arith) refl rest_10

  rest_16 : IsRest (text_of t) 16 (b':' ∷ (t.s ++ (b'.' ∷ (t.ms ++ (b'Z' ∷ [])))))
  rest_16 =
      part-behind (text_of t) small 0 59 13 16 b':' t.mi b':'
        (t.s ++ (b'.' ∷ (t.ms ++ (b'Z' ∷ [])))) k.minute (omega arith) (omega arith) refl rest_13

  rest_19 : IsRest (text_of t) 19 (b'.' ∷ (t.ms ++ (b'Z' ∷ [])))
  rest_19 =
      part-behind (text_of t) small 0 60 16 19 b':' t.s b'.' (t.ms ++ (b'Z' ∷ [])) k.second
        (omega arith) (omega arith) refl rest_16

  at_end : IsRest (text_of t) (19 + 1 + length t.ms) (b'Z' ∷ [])
  at_end =
      IsRest-behind t.ms (b'Z' ∷ []) (text_of t) 20 (19 + 1 + length t.ms) (omega arith)
        (IsRest-behind (b'.' ∷ []) (t.ms ++ (b'Z' ∷ [])) (text_of t) 19 20 (omega arith) rest_19)

  parts_of :
      year_part (over (text_of t) 0)
      ≡ some (tm_of t, pos (value_from 0 t.ms), over (text_of t) (19 + 1 + length t.ms))
  parts_of =
      year-step _ _ _ (
        fixed-number (text_of t) small 1900 0x7fffffff 0 4 t.y b'-'
          (t.mo ++ (b'-' ∷ (t.d ++ from_hour t))) year_digits (omega arith) (omega arith) refl
          at_start)
      ∙ month-step _ _ _ _
          (part-here (text_of t) small 1 12 4 7 b'-' t.mo b'-' (t.d ++ from_hour t) k.month
            (omega arith) (omega arith) refl rest_4)
          (part-fixed (text_of t) small 1 12 4 7 b'-' t.mo b'-' (t.d ++ from_hour t) k.month
            (omega arith) (omega arith) refl rest_4)
      ∙ day-step _ _ _ _
          (part-here (text_of t) small 1 31 7 10 b'-' t.d b'T'
            (t.h ++ (b':' ∷ (t.mi ++ (b':' ∷ (t.s ++ (b'.' ∷ (t.ms ++ (b'Z' ∷ [])))))))) k.day
            (omega arith) (omega arith) refl rest_7)
          (part-fixed (text_of t) small 1 31 7 10 b'-' t.d b'T'
            (t.h ++ (b':' ∷ (t.mi ++ (b':' ∷ (t.s ++ (b'.' ∷ (t.ms ++ (b'Z' ∷ [])))))))) k.day
            (omega arith) (omega arith) refl rest_7)
      ∙ hour-step _ _ _ _
          (part-here (text_of t) small 0 23 10 13 b'T' t.h b':'
            (t.mi ++ (b':' ∷ (t.s ++ (b'.' ∷ (t.ms ++ (b'Z' ∷ [])))))) k.hour (omega arith)
            (omega arith) refl rest_10)
          (part-fixed (text_of t) small 0 23 10 13 b'T' t.h b':'
            (t.mi ++ (b':' ∷ (t.s ++ (b'.' ∷ (t.ms ++ (b'Z' ∷ [])))))) k.hour (omega arith)
            (omega arith) refl rest_10)
      ∙ minute-step _ _ _ _
          (part-here (text_of t) small 0 59 13 16 b':' t.mi b':'
            (t.s ++ (b'.' ∷ (t.ms ++ (b'Z' ∷ [])))) k.minute (omega arith) (omega arith) refl
            rest_13)
          (part-fixed (text_of t) small 0 59 13 16 b':' t.mi b':'
            (t.s ++ (b'.' ∷ (t.ms ++ (b'Z' ∷ [])))) k.minute (omega arith) (omega arith) refl
            rest_13)
      ∙ second-step _ _ _ _
          (part-here (text_of t) small 0 60 16 19 b':' t.s b'.' (t.ms ++ (b'Z' ∷ [])) k.second
            (omega arith) (omega arith) refl rest_16)
          (part-fixed (text_of t) small 0 60 16 19 b':' t.s b'.' (t.ms ++ (b'Z' ∷ [])) k.second
            (omega arith) (omega arith) refl rest_16)
      ∙ ap some (
          milli-step (text_of t) small (tm_of t) 19 t.ms b'Z' [] k.fraction k.some_fraction
            k.fraction_fits refl rest_19)

from_iso8601-stamp_result :
    (api : TimeApi) (t : Stamp)
    → IsStamp t
    → from_iso8601 api (text_of t) (length (text_of t))
      ≡ stamp_result (api.timegm (tm_of t)) (pos (value_from 0 t.ms))
unfolding from_iso8601
from_iso8601-stamp_result api t k =
    ap result_of (
      ap year_part (init-over (text_of t) (omega (arith, (at_start t k).1, k.year.size, long)))
      ∙ parts_of t k)
    ∙ zone-step api (tm_of t) (pos (value_from 0 t.ms)) (over (text_of t) (19 + 1 + length t.ms))
        (peek_char-here (text_of t) (small t k) b'Z' [] (19 + 1 + length t.ms) (at_end t k))
  where
    result_of : Option Parts → ℤ
    result_of r = elim r [ none ↦ pos 0 | some x ↦ zone_part api x ]

    long : length (text_of t) ≡ length t.y + length (b'-' ∷ (t.mo ++ (b'-' ∷ (t.d ++ from_hour t))))
    long = length-append t.y (b'-' ∷ (t.mo ++ (b'-' ∷ (t.d ++ from_hour t))))

-- That many milliseconds after that many seconds, which may be below 0.
abbrev pub millis : ℤ → ℕ → ℤ
millis (pos n) ms = pos (n * 1000 + ms)
millis (negsuc n) ms =
    if ltb ms (suc n * 1000) then negsuc (suc n * 1000 - ms - 1) else pos (ms - suc n * 1000)

stamp_result-millis :
    (seconds : ℤ) (ms : ℕ)
    → InRange 53 seconds
    → ms < 2 ^ 31
    → stamp_result (seconds, 0) (pos ms) ≡ millis seconds ms
stamp_result-millis (pos n) ms h k = ground arith
stamp_result-millis (negsuc n) ms h k = ground arith

-- A text YYYY-MM-DDTHH:MM:SS.sssZ with every field in its range, the fraction of any number of digits
-- that an `int` holds: the fields are those of the text, with the year from 1900, the month from 0
-- and the second 60 as 59, and `timegm` is asked for them. Where it leaves no errno, the result is
-- a thousand times its seconds, which are in the range of 54 bits, and the fraction; else it is 0.
pub from_iso8601-text :
    (api : TimeApi) (t : Stamp) (seconds : ℤ) (errno : ℕ)
    → IsStamp t
    → api.timegm (tm_of t) ≡ (seconds, errno)
    → InRange 53 seconds
    → ((errno ≡ 0)
        × (from_iso8601 api (text_of t) (length (text_of t)) ≡ millis seconds (value_from 0 t.ms)))
      ⊎ ((errno ≢ 0) × (from_iso8601 api (text_of t) (length (text_of t)) ≡ pos 0))
from_iso8601-text api t seconds zero k q h = inl (
  refl,
  from_iso8601-stamp_result api t k
      ∙ ap (λ r. stamp_result r (pos (value_from 0 t.ms))) q
      ∙ stamp_result-millis seconds (value_from 0 t.ms) h k.fraction_fits,
)
from_iso8601-text api t seconds (suc n) k q h = inr (
  (λ z. omega (arith, z)),
  from_iso8601-stamp_result api t k
      ∙ ap (λ r. stamp_result r (pos (value_from 0 t.ms))) q
      ∙ unset n,
)
  where
    unset : (n : ℕ) → stamp_result (seconds, suc n) (pos (value_from 0 t.ms)) ≡ pos 0
    unset n = ground arith
