-- ===== src/Hmac.antt =====
-- u_hmac_sha256.c, u_sha256.c: the keyed hash of a message in a work buffer. The SHA-256 function
-- (`libSHA256`: OpenSSL's or the vendored one) is the parameter `sha256`. The pointers `step1`, `k`
-- and `h1` are indices into the work buffer, which the message and the key do not overlap. The
-- assertions, which a release build drops, are not modelled.
pub mod Rfc
pub mod Bounds
mod Tests
use deconz_lib.Base.{
  ℕ, zero, suc, ◌+◌, ◌-◌, bit_xor, Option, none, some, List, u32, ltb, ◌==◌, if◌then◌else◌, length,
  get_or, set, replicate, store, read,
}

-- SHA256_BLOCK_SIZE
abbrev pub block_size : ℕ
block_size = 64

-- U_SHA256_HASH_SIZE
abbrev pub hash_size : ℕ
hash_size = 32

-- `U_HmacSha256` returns 0, or 1 with the digest, and leaves the work buffer; `out_of_bounds` is
-- a write behind the end of the work buffer.
pub data Outcome : Type 0 where
  failed out_of_bounds : Outcome
  digest : List ℕ → List ℕ → Outcome

-- `for (i = 0; i < BLOCK; i++) k[i] = step1[i] ^ c;` from `i` on, with `n` steps left.
pub xor_loop : ℕ → ℕ → ℕ → List ℕ → List ℕ
xor_loop zero i c mem = mem
xor_loop (suc n) i c mem =
    xor_loop n (i + 1) c (set mem (block_size + i) (bit_xor (get_or mem i 0) c))

-- `for (i = 0; i < HASH; i++) to[i] = from[i];` in the one buffer.
pub copy_loop : ℕ → ℕ → ℕ → List ℕ → List ℕ
copy_loop zero to from mem = mem
copy_loop (suc n) to from mem = copy_loop n (to + 1) (from + 1) (set mem to (get_or mem from 0))

-- The `n` bytes at an index that are hashed.
pub input : List ℕ → ℕ → ℕ → List ℕ
input mem p n = read mem p n

module _ (sha256 : List ℕ → List ℕ) where
  -- `U_Sha256`, with pointers that are not null.
  pub u_sha256 : List ℕ → Option (List ℕ)
  u_sha256 bytes = if length bytes == 0 then none else some (sha256 bytes)

  -- Step (7).
  pub hmac_result : List ℕ → Outcome
  hmac_result m6 = elim (u_sha256 (input m6 block_size (block_size + hash_size))) [
    | none ↦ failed
    | some result ↦ digest result m6
  ]

  -- The steps (5) and (6), and the last one, with the first hash at the index `h1`.
  pub hmac_outer : ℕ → List ℕ → Outcome
  hmac_outer h1 m4 =
      hmac_result (copy_loop hash_size (block_size + block_size) h1 (xor_loop block_size 0 0x5C m4))

  -- The first hash is written to `h1`, which may be behind the end.
  pub hmac_inner : List ℕ → List ℕ → Option (List ℕ) → Outcome
  hmac_inner msg m3 none = failed
  hmac_inner msg m3 (some inner) =
      let h1 = block_size + (block_size + hash_size + length msg) in
      if ltb (length m3) (h1 + hash_size) then out_of_bounds else hmac_outer h1 (store m3 h1 inner)

  -- The steps (3) and (4), and those behind them.
  pub hmac_text : List ℕ → List ℕ → Outcome
  hmac_text msg m2 =
      let m3 = store m2 (block_size + block_size) msg in
      hmac_inner msg m3 (u_sha256 (input m3 block_size (block_size + length msg)))

  -- Step (2) and those behind it, with the padded key in `step1`.
  pub hmac_padded : List ℕ → List ℕ → Outcome
  hmac_padded msg step1 = hmac_text msg (xor_loop block_size 0 0x36 step1)

  -- Step (1), with `i` bytes of the key in `step1`, and the steps behind it.
  pub hmac_from : ℕ → List ℕ → List ℕ → Outcome
  hmac_from i msg step1 = hmac_padded msg (store step1 i (replicate (block_size - i) 0))

  -- `U_HmacSha256`; `wrksize` is the length of `wrk`.
  pub hmac_sha256 : List ℕ → List ℕ → List ℕ → Outcome
  hmac_sha256 key msg wrk =
      let hashed : Outcome = elim (u_sha256 key) [
        | none ↦ failed
        | some short ↦ hmac_from hash_size msg (store wrk 0 short)
      ] in
      let kept = hmac_from (length key) msg (store wrk 0 key) in
      if ltb (length wrk) (u32 (block_size + block_size + length msg))
      then failed
      else if ltb block_size (length key)
      then hashed
      else kept
