-- ===== src/Hmac/Tests.antt =====
-- The theorems of the keyed hash at concrete inputs, with a checksum in place of SHA-256.
use deconz_lib.Base.{ℕ, ◌+◌, ◌%◌, ◌≡◌, refl, some, List, [], ◌∷◌, arith, replicate}
use deconz_lib.Hmac.{out_of_bounds, hmac_sha256}
use deconz_lib.Hmac.Rfc.{HashSizes, result, hmac, hmac_sha256-hmac}
use deconz_lib.Hmac.Bounds.{hmac_sha256-overflows}

abbrev sum : List ℕ → ℕ
sum [] = 0
sum (b ∷ bs) = (b + sum bs) % 256

abbrev checksum : List ℕ → List ℕ
checksum bytes = replicate 32 (sum bytes)

checksum-HashSizes : HashSizes checksum
checksum-HashSizes bytes = refl

abbrev jefe : List ℕ
jefe = b'J' ∷ b'e' ∷ b'f' ∷ b'e' ∷ []

abbrev hi : List ℕ
hi = b'H' ∷ b'i' ∷ []

hmac_sha256-hmac_example :
    result (hmac_sha256 checksum jefe hi (replicate 194 0)) ≡ some (hmac checksum jefe hi)
hmac_sha256-hmac_example =
    hmac_sha256-hmac checksum checksum-HashSizes jefe hi (replicate 194 0) (omega arith)
      (omega arith)

hmac_sha256-overflows_example : hmac_sha256 checksum jefe hi (replicate 130 0) ≡ out_of_bounds
hmac_sha256-overflows_example =
    hmac_sha256-overflows checksum jefe hi (replicate 130 0) (omega arith) (omega arith)
      (omega arith)
