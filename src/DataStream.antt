-- ===== src/DataStream.antt =====
-- The QDataStream of Qt, which the readers and writers of the ZigBee frames use, as a parameter:
-- `operator>>` and `operator<<` of unsigned integers, `atEnd` and `status`, on a stream whose byte
-- order is little endian, as the callers set it.
pub mod Memory
pub mod Rules
pub mod Short
use deconz_lib.Base.{
  ℕ, zero, suc, ◌≡◌, Bool, true, false, not, List, [], ◌∷◌, ◌++◌, ◌<◌, length, if◌then◌else◌,
}
use deconz_lib.Base.Shift.{bytes_le, value_le}

pub record StreamApi : Type 1 where
  pub Stream : Type 0
  -- `atEnd()`
  pub at_end : Stream → Bool
  -- `status() == QDataStream::ReadPastEnd`
  pub past_end : Stream → Bool
  -- `operator>>` and `operator<<` of an unsigned integer of so many bytes.
  pub get : ℕ → Stream → ℕ × Stream
  pub put : ℕ → ℕ → Stream → Stream

abbrev pub is_empty : List ℕ → Bool
is_empty [] = true
is_empty (b ∷ bs) = false

-- What the code relies on, in the bytes that are left to read and those that are written: an
-- integer takes its bytes; where there are too few of them all are gone and the status tells so,
-- and a status once set stays.
pub record IsStream (q : StreamApi) : Type 0 where
  pub rest : q.Stream → List ℕ
  pub written : q.Stream → List ℕ
  pub at_end_lem : (s : q.Stream) → q.at_end s ≡ is_empty (rest s)
  pub get_value :
      (s : q.Stream) (bs ts : List ℕ) → rest s ≡ bs ++ ts → (q.get (length bs) s).0 ≡ value_le bs
  pub get_rest :
      (s : q.Stream) (bs ts : List ℕ) → rest s ≡ bs ++ ts → rest (q.get (length bs) s).1 ≡ ts
  pub get_status :
      (s : q.Stream) (bs ts : List ℕ)
      → rest s ≡ bs ++ ts
      → q.past_end (q.get (length bs) s).1 ≡ q.past_end s
  pub short_rest : (s : q.Stream) (n : ℕ) → length (rest s) < n → rest (q.get n s).1 ≡ []
  pub short_status : (s : q.Stream) (n : ℕ) → length (rest s) < n → q.past_end (q.get n s).1 ≡ true
  pub put_lem : (s : q.Stream) (n v : ℕ) → written (q.put n v s) ≡ written s ++ bytes_le n v

-- A reader takes a stream to a value and the stream behind it.
abbrev pub Reader : Type 0 → Type 0 → Type 0
Reader S A = S → A × S

infixl 5 ◌>>=◌
unfoldable pub ◌>>=◌ : {S A B : Type 0} → Reader S A → (A → Reader S B) → Reader S B
◌>>=◌ m k s = k (m s).0 (m s).1

-- One write and then another.
infixr 5 ◌▸◌
unfoldable pub ◌▸◌ : {S : Type 0} → (S → S) → (S → S) → S → S
◌▸◌ w v s = v (w s)

unfoldable pub give : {S A : Type 0} → A → Reader S A
give a s = (a, s)

module _ (q : StreamApi) where
  -- `if (stream.atEnd()) { return e; }` before `m`.
  unfoldable pub unless_end : {A : Type 0} → A → Reader q.Stream A → Reader q.Stream A
  unless_end e m s = if q.at_end s then (e, s) else m s

  -- `status() == QDataStream::Ok`; integers cannot be corrupt, so the other status is ReadPastEnd.
  abbrev pub status_ok : Reader q.Stream Bool
  status_ok s = (not (q.past_end s), s)

  -- `while (!stream.atEnd()) { stream >> byte; append(byte); }`, with the rounds left.
  unfoldable pub read_all : ℕ → Reader q.Stream (List ℕ)
  unfolding ◌>>=◌ give
  read_all zero s = ([], s)
  read_all (suc n) s =
      let more = (q.get 1 >>= λ b. read_all n >>= λ bs. give (b ∷ bs)) s in
      if q.at_end s then ([], s) else more

  -- `while (!stream.atEnd() && n > 0) { stream >> byte; n--; }`
  unfoldable pub read_up_to : ℕ → Reader q.Stream (List ℕ)
  unfolding ◌>>=◌ give
  read_up_to zero s = ([], s)
  read_up_to (suc n) s =
      let more = (q.get 1 >>= λ b. read_up_to n >>= λ bs. give (b ∷ bs)) s in
      if q.at_end s then ([], s) else more

  -- `for (i = 0; i < n; i++) { stream >> byte; }`
  unfoldable pub read_n : ℕ → Reader q.Stream (List ℕ)
  read_n zero = give []
  read_n (suc n) = q.get 1 >>= λ b. read_n n >>= λ bs. give (b ∷ bs)

  -- `for (b : bytes) { stream << b; }`
  unfoldable pub put_all : List ℕ → q.Stream → q.Stream
  put_all [] s = s
  put_all (b ∷ bs) s = put_all bs (q.put 1 b s)

  -- `for (w : words) { stream << w; }` with words of 16 bits.
  unfoldable pub put_words : List ℕ → q.Stream → q.Stream
  put_words [] s = s
  put_words (w ∷ ws) s = put_words ws (q.put 2 w s)
