-- ===== src/DataStream/Memory.antt =====
-- A stream in memory: it shows that a stream can behave as is asked of it.
use deconz_lib.Base.{
  ℕ, ◌≡◌, refl, Bool, true, false, List, [], ◌∷◌, ◌++◌, ◌<◌, arith, length, take, drop, leb,
  if◌then◌else◌, ◌+◌, ap, length-append, le→leb, lt→leb,
}
use deconz_lib.Base.Shift.{bytes_le, value_le}
use deconz_lib.DataStream.{StreamApi, IsStream, is_empty}

pub record MemoryStream : Type 0 where
  pub left : List ℕ
  pub out : List ℕ
  pub failed : Bool

abbrev pub get_bytes : ℕ → MemoryStream → ℕ × MemoryStream
get_bytes n m =
    if leb n (length m.left)
    then (value_le (take n m.left), record m { left = drop n m.left })
    else (0, record m { left = []; failed = true })

abbrev pub memory : StreamApi
memory = record {
  Stream = MemoryStream;
  at_end = λ m. is_empty m.left;
  past_end = λ m. m.failed;
  get = get_bytes;
  put = λ n v m. record m { out = m.out ++ bytes_le n v };
}

take-front : (bs ts : List ℕ) → take (length bs) (bs ++ ts) ≡ bs
take-front [] ts = refl
take-front (b ∷ bs) ts = ap (λ t. b ∷ t) (take-front bs ts)

drop-front : (bs ts : List ℕ) → drop (length bs) (bs ++ ts) ≡ ts
drop-front [] ts = refl
drop-front (b ∷ bs) ts = drop-front bs ts

module _ (m : MemoryStream) where
  pub get-enough :
      (bs ts : List ℕ)
      → m.left ≡ bs ++ ts
      → get_bytes (length bs) m ≡ (value_le bs, record m { left = ts })
  get-enough bs ts h = rw h (
      rw (length-append bs ts) (
        rw (le→leb (length bs) (length bs + length ts) (omega arith))
          (rw (take-front bs ts, drop-front bs ts))))

  pub get-short :
      (n : ℕ) → length m.left < n → get_bytes n m ≡ (0, record m { left = []; failed = true })
  get-short n h = rw (lt→leb n (length m.left) h)

pub memory_value :
    (s : MemoryStream) (bs ts : List ℕ)
    → s.left ≡ bs ++ ts
    → (get_bytes (length bs) s).0 ≡ value_le bs
memory_value s bs ts h = ap (λ r. r.0) (get-enough s bs ts h)

abbrev pub memory-IsStream : IsStream memory
memory-IsStream = record {
  rest = λ m. m.left;
  written = λ m. m.out;
  at_end_lem = λ s. refl;
  get_value = memory_value;
  get_rest = λ s bs ts h. ap (λ r. r.1.left) (get-enough s bs ts h);
  get_status = λ s bs ts h. ap (λ r. r.1.failed) (get-enough s bs ts h);
  short_rest = λ s n h. ap (λ r. r.1.left) (get-short s n h);
  short_status = λ s n h. ap (λ r. r.1.failed) (get-short s n h);
  put_lem = λ s n v. refl;
}

-- A stream before its first byte.
abbrev pub stream_of : List ℕ → MemoryStream
stream_of bs = record { left = bs; out = []; failed = false }
