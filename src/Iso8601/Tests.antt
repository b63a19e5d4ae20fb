-- ===== src/Iso8601/Tests.antt =====
-- The parser of times at a concrete text, with a clock that counts seconds of the day.
use deconz_lib.Base.{ℕ, ◌⊎◌, ◌≢◌, ◌+◌, ◌*◌, ◌≡◌, refl, [], ◌∷◌, arith, length}
use deconz_lib.Base.Int.{pos}
use deconz_lib.Iso8601.{TimeApi, from_iso8601}
use deconz_lib.Iso8601.Full.{Stamp, IsStamp, text_of, from_iso8601-text}

abbrev clock : TimeApi
clock = record {
  timegm = λ tm. (pos (tm.hour * 3600 + tm.min * 60 + tm.sec), 0);
  mktime = λ tm. (pos 0, 22);
}

-- 2022-07-16T12:39:33.164Z
abbrev noon : Stamp
noon = record {
  y = b'2' ∷ b'0' ∷ b'2' ∷ b'2' ∷ [];
  mo = b'0' ∷ b'7' ∷ [];
  d = b'1' ∷ b'6' ∷ [];
  h = b'1' ∷ b'2' ∷ [];
  mi = b'3' ∷ b'9' ∷ [];
  s = b'3' ∷ b'3' ∷ [];
  ms = b'1' ∷ b'6' ∷ b'4' ∷ [];
}

noon-IsStamp : IsStamp noon
noon-IsStamp = record {
  year = record { digits = ground arith; size = refl; low = omega arith; high = omega arith };
  month = record { digits = ground arith; size = refl; low = omega arith; high = omega arith };
  day = record { digits = ground arith; size = refl; low = omega arith; high = omega arith };
  hour = record { digits = ground arith; size = refl; low = omega arith; high = omega arith };
  minute = record { digits = ground arith; size = refl; low = omega arith; high = omega arith };
  second = record { digits = ground arith; size = refl; low = omega arith; high = omega arith };
  fraction = ground arith;
  some_fraction = omega arith;
  fraction_fits = omega arith;
  short = omega arith;
}

abbrev no_error : ℕ
no_error = 0

from_iso8601-text_example :
    ((no_error ≡ 0) × (from_iso8601 clock (text_of noon) (length (text_of noon)) ≡ pos 45573164))
    ⊎ ((no_error ≢ 0) × (from_iso8601 clock (text_of noon) (length (text_of noon)) ≡ pos 0))
from_iso8601-text_example =
    from_iso8601-text clock noon (pos 45573) no_error noon-IsStamp refl (omega arith)
