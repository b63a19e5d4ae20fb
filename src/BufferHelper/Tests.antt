-- ===== src/BufferHelper/Tests.antt =====
-- Runs of BufferHelper, and its theorems at concrete inputs.
use deconz_lib.Base.{refl, ℕ, ◌≡◌, List, [], ◌∷◌, arith}
use deconz_lib.BufferHelper.{put_u32_le}
use deconz_lib.BufferHelper.RoundTrip.{four, put, get, get-put}

abbrev zeros : List ℕ
zeros = 0 ∷ 0 ∷ 0 ∷ 0 ∷ 0 ∷ 0 ∷ []

get-put_example :
    get four (put four zeros 1 0xdeadbeef).0 1 ≡ (0xdeadbeef, (put four zeros 1 0xdeadbeef).1)
get-put_example = get-put four zeros 1 0xdeadbeef (omega arith) (omega arith)

top_byte : put_u32_le zeros 1 0xdeadbeef ≡ (0 ∷ 0xef ∷ 0xbe ∷ 0xad ∷ 0xde ∷ 0 ∷ [], 5)
unfolding put_u32_le
top_byte = refl
