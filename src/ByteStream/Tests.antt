-- ===== src/ByteStream/Tests.antt =====
-- Runs of the byte stream, and its theorems at concrete inputs.
use deconz_lib.Base.{ℕ, ◌≡◌, refl, some, List, [], ◌∷◌, map, arith, replicate}
use deconz_lib.Base.Int.{negsuc}
use deconz_lib.ByteStream.{Bstream, ok, init, verify, get_u16_le, get_s16_le}
use deconz_lib.ByteStream.Access.{IsOpen}
use deconz_lib.ByteStream.Sequence.{
  Item, byte, half, signed_half, word, signed_word, kind, put_items, get_items,
}
use deconz_lib.ByteStream.Sequence.RoundTrip.{get_items-put_items}
use deconz_lib.ByteStream.Safety.{put_word, get_half, run_all, Keeps, run_all-Keeps}

abbrev blank : List ℕ
blank = replicate 16 0

abbrev fresh : Bstream
fresh = record { buf = some blank; pos = 0; size = 14; status = ok }

abbrev at_two : Bstream
at_two = record { buf = some (9 ∷ 9 ∷ 1 ∷ 2 ∷ 3 ∷ 4 ∷ []); pos = 2; size = 6; status = ok }

abbrev message : List Item
message =
    byte 7 ∷ half 0x1234 ∷ signed_half (negsuc 4) ∷ word 0xdeadbeef ∷ signed_word (negsuc 0) ∷ []

init-fresh : init (some blank) 14 ≡ fresh
unfolding init
init-fresh = refl

read_minus_five :
    get_s16_le (record { buf = some (0xfb ∷ 0xff ∷ []); pos = 0; size = 2; status = ok })
    ≡ (negsuc 4, record { buf = some (0xfb ∷ 0xff ∷ []); pos = 2; size = 2; status = ok })
unfolding get_s16_le get_u16_le verify
read_minus_five = refl

fresh-IsOpen : IsOpen blank fresh
fresh-IsOpen = record {
  over = refl;
  fine = refl;
  fits = omega arith;
  small = omega arith;
  within = omega arith;
}

get_items-put_items_example :
    get_items (map kind message) (record (put_items message fresh) { pos = 0 })
    ≡ (message, put_items message fresh)
get_items-put_items_example = get_items-put_items message fresh-IsOpen (omega arith) (omega arith)

-- Three words do not fit, and the reads behind them are refused.
run_all-Keeps_example :
    Keeps fresh (run_all (put_word 1 ∷ put_word 2 ∷ put_word 3 ∷ put_word 4 ∷ get_half ∷ []) fresh)
run_all-Keeps_example =
    run_all-Keeps (put_word 1 ∷ put_word 2 ∷ put_word 3 ∷ put_word 4 ∷ get_half ∷ [])
      (record { over = refl; fits = omega arith; small = omega arith; within = omega arith })
