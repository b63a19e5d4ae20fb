-- ===== src/ByteStream/Sequence/RoundTrip.antt =====
-- Sequences of puts, and of the gets of the same kinds.
use deconz_lib.Base.{
  ℕ, suc, ◌+◌, ◌≤◌, ◌≡◌, ◌∙◌, some, List, [], ◌∷◌, ◌++◌, map, arith, IsByte, le→ltb, length, set,
  store, All, All-append, length-append, length-set, get_or-set_self, length-store, get_or-store_lt,
  store-append,
}
use mathlib.Core.Path.{subst}
use deconz_lib.Base.Int.{to_bits}
use deconz_lib.ByteStream.{Bstream}
use deconz_lib.ByteStream.Access.{IsOpen, At}
use deconz_lib.ByteStream.Sequence.{
  Item, byte, half, signed_half, word, signed_word, kind, IsItem, bytes, all_bytes, put_item,
  put_items, get_items, put_item-emit, get_item-kind,
}

At-store :
    (bs m : List ℕ) (p : ℕ) → p + length bs ≤ length m → All IsByte bs → At (store m p bs) p bs
At-store [] m p h a = tt
At-store (b ∷ bs) m p h (hb, a) = (
  get_or-store_lt bs (set m p b) (suc p) p 0 (omega arith) ∙ get_or-set_self m p b 0 (omega arith),
  hb,
  At-store bs (set m p b) (suc p) (omega (arith, length-set m p b)) a,
)

At-append : (xs ys m : List ℕ) (p : ℕ) → At m p (xs ++ ys) → At m p xs × At m (p + length xs) ys
At-append [] ys m p a =
    let at_start : p ≡ p + 0 = omega arith in (tt, subst (λ k. At m k ys) at_start a)
At-append (x ∷ xs) ys m p (e, b, a) =
    let shift : suc p + length xs ≡ p + suc (length xs) = omega arith in
    let (l, r) = At-append xs ys m (suc p) a in ((e, b, l), subst (λ k. At m k ys) shift r)

bytes-IsByte : (x : Item) → IsItem x → All IsByte (bytes x)
bytes-IsByte (byte v) h = omega arith
bytes-IsByte (half v) h = omega arith
bytes-IsByte (signed_half z) h = let v = to_bits 16 z in omega arith
bytes-IsByte (word v) h = omega arith
bytes-IsByte (signed_word z) h = let v = to_bits 64 z in omega arith

all_bytes-IsByte : (xs : List Item) → All IsItem xs → All IsByte (all_bytes xs)
all_bytes-IsByte [] h = tt
all_bytes-IsByte (x ∷ xs) (h, hs) =
    All-append IsByte (bytes x) (all_bytes xs) (bytes-IsByte x h) (all_bytes-IsByte xs hs)

-- A put with room, and the stream that it leaves open.
put_item-fits :
    (x : Item) {m : List ℕ} {bs : Bstream}
    → IsOpen m bs
    → bs.pos + length (bytes x) ≤ bs.size
    → put_item x bs
      ≡ record bs { buf = some (store m bs.pos (bytes x)); pos = bs.pos + length (bytes x) }
put_item-fits x {m} {bs} o room = put_item-emit x o ∙ rw (le→ltb bs.size _ room)

put_items-store :
    (xs : List Item) {m : List ℕ} {bs : Bstream}
    → IsOpen m bs
    → bs.pos + length (all_bytes xs) ≤ bs.size
    → put_items xs bs ≡ record bs {
      buf = some (store m bs.pos (all_bytes xs));
      pos = bs.pos + length (all_bytes xs);
    }
unfolding put_items
put_items-store [] {m} {bs} o room = ground arith
put_items-store (x ∷ xs) {m} {bs} o room = ground (
  arith,
  put_item-fits x o,
  length-append (bytes x) (all_bytes xs),
  length-store m bs.pos (bytes x),
  store-append (bytes x) (all_bytes xs) m bs.pos,
  put_items-store xs {m = store m bs.pos (bytes x)}
      {bs = record bs { buf = some (store m bs.pos (bytes x)); pos = bs.pos + length (bytes x) }},
)

IsOpen-advance :
    (n : ℕ) {m : List ℕ} {bs : Bstream}
    → IsOpen m bs
    → bs.pos + n ≤ bs.size
    → IsOpen m (record bs { pos = bs.pos + n })
IsOpen-advance n o h = ground arith

get_items-At :
    (xs : List Item) {m : List ℕ} {bs : Bstream}
    → IsOpen m bs
    → All IsItem xs
    → At m bs.pos (all_bytes xs)
    → bs.pos + length (all_bytes xs) ≤ bs.size
    → get_items (map kind xs) bs ≡ (xs, record bs { pos = bs.pos + length (all_bytes xs) })
unfolding get_items
get_items-At [] o i a room = ground arith
get_items-At (x ∷ xs) {m} {bs} o (i, is) a room = ground (
  arith,
  get_item-kind x o i (At-append (bytes x) (all_bytes xs) m bs.pos a).0,
  length-append (bytes x) (all_bytes xs),
  get_items-At xs (IsOpen-advance (length (bytes x)) o rest.0) is
      (At-append (bytes x) (all_bytes xs) m bs.pos a).1 rest.1,
)
  where
    rest :
        (bs.pos + length (bytes x) ≤ bs.size)
        × (bs.pos + length (bytes x) + length (all_bytes xs) ≤ bs.size)
    rest = omega (arith, length-append (bytes x) (all_bytes xs))

-- On an open stream with room for all of them, items written one after the other and read back
-- from the same position by the gets of their kinds are the items that were written, and the
-- reading stops where the writing did.
pub get_items-put_items :
    (xs : List Item) {m : List ℕ} {bs : Bstream}
    → IsOpen m bs
    → All IsItem xs
    → bs.pos + length (all_bytes xs) ≤ bs.size
    → get_items (map kind xs) (record (put_items xs bs) { pos = bs.pos }) ≡ (xs, put_items xs bs)
get_items-put_items xs {m} {bs} o i room =
    rw (put_items-store xs o room)
      (get_items-At xs written i (At-store _ m bs.pos (omega arith) (all_bytes-IsByte xs i)) room)
  where
    written :
        IsOpen
          (store m bs.pos (all_bytes xs))
          (record bs { buf = some (store m bs.pos (all_bytes xs)) })
    written = ground (arith, length-store m bs.pos (all_bytes xs))
