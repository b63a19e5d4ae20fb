-- ===== src/Hmac/Bounds.antt =====
-- The size check of U_HmacSha256.
use deconz_lib.Base.{
  ℕ, zero, suc, ◌+◌, ◌-◌, ◌^◌, ◌≤◌, ◌<◌, ◌≡◌, refl, ap, ◌∙◌, false, inl, inr, some, List, arith,
  u32, ltb, Bool-cases, length, replicate, store, read, length-set, length-store, le→ltb, lt→ltb,
}
use deconz_lib.Hmac.Rfc.{u_sha256_lem}
use deconz_lib.Hmac.{
  out_of_bounds, block_size, hash_size, xor_loop, u_sha256, input, hmac_padded, hmac_text,
  hmac_inner, hmac_from, hmac_sha256,
}

length-read : (m : List ℕ) (p n : ℕ) → length (read m p n) ≡ n
length-read m p zero = refl
length-read m p (suc n) = ap suc (length-read m (p + 1) n)

length-xor_loop : (n i c : ℕ) (mem : List ℕ) → length (xor_loop n i c mem) ≡ length mem
unfolding xor_loop
length-xor_loop zero i c mem = refl
length-xor_loop (suc n) i c mem = length-xor_loop n (i + 1) c _ ∙ length-set mem _ _

module _ (sha256 : List ℕ → List ℕ) where
  u_sha256-input :
      (m : List ℕ) (n : ℕ)
      → u_sha256 sha256 (input m block_size (block_size + n))
        ≡ some (sha256 (input m block_size (block_size + n)))
  unfolding u_sha256 input
  u_sha256-input m n = ground (arith, length-read m block_size (block_size + n))

  hmac_from-overflows :
      (i : ℕ) (msg step1 : List ℕ)
      → length step1 < 192 + length msg
      → hmac_from sha256 i msg step1 ≡ out_of_bounds
  unfolding hmac_from hmac_padded hmac_text
  hmac_from-overflows i msg step1 h =
      let zeros : List ℕ = replicate (block_size - i) 0 in
      let m1 = store step1 i zeros in
      let m2 = xor_loop block_size 0 0x36 m1 in
      let m3 = store m2 128 msg in
      let size : length m3 ≡ length step1 =
        length-store m2 128 msg
        ∙ length-xor_loop block_size 0 0x36 m1
        ∙ length-store step1 i zeros in
      ap (hmac_inner sha256 msg m3) (u_sha256-input m3 (length msg))
      ∙ (unfold hmac_inner in
          rw (lt→ltb (length m3) (64 + (96 + length msg) + 32) (omega (arith, size))) refl)

  -- A work buffer that passes the size check, of a 32 bit size, and has less than 64 bytes more
  -- than the check asks for, is written behind its end.
  pub hmac_sha256-overflows :
      (key msg wrk : List ℕ)
      → 128 + length msg ≤ length wrk
      → length wrk < 192 + length msg
      → length wrk < 2 ^ 32
      → hmac_sha256 sha256 key msg wrk ≡ out_of_bounds
  unfolding hmac_sha256
  hmac_sha256-overflows key msg wrk passes short small =
      let enough : ltb (length wrk) (u32 (block_size + block_size + length msg)) ≡ false =
        le→ltb _ _ (omega arith) in
      rw enough (elim (Bool-cases (ltb block_size (length key))) [
        | inl long ↦
            rw (long, u_sha256_lem sha256 key (ground (arith, long)))
              (hmac_from-overflows hash_size msg _ (omega (arith, length-store wrk 0 (sha256 key))))
        | inr kept ↦
            rw kept (hmac_from-overflows (length key) msg _ (omega (arith, length-store wrk 0 key)))
      ])
