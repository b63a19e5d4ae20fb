-- ===== src/Iso8601.antt =====
-- u_time.c, deconz/u_time.h: the parser of ISO 8601. `timegm` and `mktime` of the C library are the
-- parameter `api`: a result and the errno that the call leaves. The fields of `struct tm` that the
-- parser does not set are left out, and so is the assertion on time zones.
mod Part
pub mod Full
mod Tests
use deconz_lib.Base.{
  ℕ, ◌+◌, ◌-◌, ◌*◌, ◌%◌, ◌^◌, Bool, false, ◌&&◌, ◌||◌, Option, none, some, List, u32, leb, ◌==◌,
  if◌then◌else◌,
}
use deconz_lib.Base.Int.{ℤ, pos, negsuc, to_bits, of_bits}
use deconz_lib.Sstream.{Sstream, init, peek_char, seek}
use deconz_lib.Sstream.Parse.{get_long}

-- `struct tm`
pub record Tm : Type 0 where
  pub year : ℕ
  pub mon : ℕ
  pub mday : ℕ
  pub hour : ℕ
  pub min : ℕ
  pub sec : ℕ

pub record TimeApi : Type 0 where
  pub timegm : Tm → ℤ × ℕ
  pub mktime : Tm → ℤ × ℕ

-- `U_sstream_get_long` assigned to an `int`
pub get_int : Sstream → ℤ × Sstream
get_int ss = let r = get_long ss in (of_bits 31 (to_bits 32 r.0), r.1)

abbrev pub in_range : ℕ → ℕ → ℤ → Bool
in_range lo hi (pos n) = leb lo n && leb n hi
in_range lo hi (negsuc n) = false

abbrev pub magnitude : ℤ → ℕ
magnitude (pos n) = n
magnitude (negsuc n) = 0

-- A number that ends at `end`, and is from `lo` to `hi`, or an error.
pub fixed : ℕ → ℕ → ℕ → Sstream → Option (ℕ × Sstream)
fixed end lo hi ss =
    let r = get_int ss in
    if (r.1.pos == end) && in_range lo hi r.0 then some (magnitude r.0, r.1) else none

-- `U_sstream_seek(&ss, ss.pos + 1)`
abbrev pub step : Sstream → Sstream
step ss = seek (u32 (ss.pos + 1)) ss

-- The fields, the milliseconds, and the stream.
abbrev pub Parts : Type 0
Parts = Tm × ℤ × Sstream

pub milli_part : Tm → Sstream → Parts
milli_part tm ss =
    let r = get_int (step ss) in
    if peek_char ss == b'.' || peek_char ss == b',' then (tm, r.0, r.1) else (tm, pos 0, ss)

pub second_part : Tm → Sstream → Option Parts
second_part tm ss =
    if peek_char ss == b':'
    then elim (fixed 19 0 60 (step ss)) [
      | none ↦ none
      | some r ↦ some (milli_part (record tm { sec = if r.0 == 60 then 59 else r.0 }) r.1)
    ]
    else some (tm, pos 0, ss)

pub minute_part : Tm → Sstream → Option Parts
minute_part tm ss =
    if peek_char ss == b':'
    then elim (fixed 16 0 59 (step ss)) [
      | none ↦ none
      | some r ↦ second_part (record tm { min = r.0 }) r.1
    ]
    else some (tm, pos 0, ss)

pub hour_part : Tm → Sstream → Option Parts
hour_part tm ss =
    if peek_char ss == b'T'
    then elim (fixed 13 0 23 (step ss)) [
      | none ↦ none
      | some r ↦ minute_part (record tm { hour = r.0 }) r.1
    ]
    else some (tm, pos 0, ss)

abbrev pub no_time : Tm
no_time = record { year = 0; mon = 0; mday = 0; hour = 0; min = 0; sec = 0 }

pub day_part : Tm → Sstream → Option Parts
day_part tm ss =
    if peek_char ss == b'-'
    then elim (fixed 10 1 31 (step ss)) [
      | none ↦ none
      | some r ↦ hour_part (record tm { mday = r.0 }) r.1
    ]
    else none

pub month_part : Tm → Sstream → Option Parts
month_part tm ss =
    if peek_char ss == b'-'
    then elim (fixed 7 1 12 (step ss)) [
      | none ↦ none
      | some r ↦ day_part (record tm { mon = r.0 - 1 }) r.1
    ]
    else none

pub year_part : Sstream → Option Parts
year_part ss = elim (fixed 4 1900 0x7fffffff ss) [
  | none ↦ none
  | some r ↦ month_part (record no_time { year = r.0 - 1900 }) r.1
]

-- `result *= 1000` and `result += millisec` on 64 bits; an overflow is taken to wrap.
abbrev pub times_1000 : ℤ → ℤ
times_1000 z = of_bits 63 ((to_bits 64 z * 1000) % 2 ^ 64)

abbrev pub add_millisec : ℤ → ℤ → ℤ
add_millisec z ms = of_bits 63 ((to_bits 64 z + to_bits 64 ms) % 2 ^ 64)

-- What stands behind the call of `timegm` or `mktime`.
abbrev pub stamp_result : ℤ × ℕ → ℤ → ℤ
stamp_result r ms = if r.1 == 0 then add_millisec (times_1000 r.0) ms else pos 0

pub zone_part : TimeApi → Parts → ℤ
zone_part api (tm, ms, ss) =
    if peek_char ss == b'Z'
    then stamp_result (api.timegm tm) ms
    else if peek_char ss == b'+' || peek_char ss == b'-'
    then add_millisec (pos 0) ms
    else stamp_result (api.mktime tm) ms

-- `U_TimeFromISO8601`
pub from_iso8601 : TimeApi → List ℕ → ℕ → ℤ
from_iso8601 api str len = elim (year_part (init (some str) len)) [
  | none ↦ pos 0
  | some r ↦ zone_part api r
]
