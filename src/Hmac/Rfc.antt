-- ===== src/Hmac/Rfc.antt =====
-- U_HmacSha256 against the definition of HMAC in RFC 2104.
use mathlib.Core.Path.{subst}
use deconz_lib.Base.{
  ℕ, zero, suc, ◌+◌, ◌-◌, ◌^◌, ◌≤◌, ◌<◌, bit_xor, ◌≡◌, refl, sym, ap, ◌∙◌, false, inl, inr, Option,
  none, some, List, [], ◌∷◌, ◌++◌, map, arith, u32, ltb, if◌then◌else◌, Bool-cases, length, set,
  replicate, store, Reads, Reads-store, Reads-set, Reads-store_behind, Reads-store_before,
  Reads-both, read-Reads, store-append, length-store, length-append, length-map, length-replicate,
  le→ltb,
}
use deconz_lib.Hmac.{
  input, hmac_padded, hmac_text, hmac_inner, hmac_outer, hmac_result, Outcome, failed, digest,
  block_size, hash_size, xor_loop, copy_loop, u_sha256, hmac_from, hmac_sha256,
}

-- A loop that masks bytes stores the masked bytes.
xor_loop_lem :
    (ks : List ℕ) (i c : ℕ) (mem : List ℕ)
    → i + length ks ≤ block_size
    → Reads mem i ks
    → xor_loop (length ks) i c mem ≡ store mem (block_size + i) (map (λ b. bit_xor b c) ks)
unfolding xor_loop
xor_loop_lem [] i c mem h r = refl
xor_loop_lem (k ∷ ks) i c mem h (e, r) =
    let next = set mem (block_size + i) (bit_xor k c) in
    let shift : block_size + (i + 1) ≡ suc (block_size + i) = omega arith in
    ap (λ v. xor_loop (length ks) (i + 1) c (set mem (block_size + i) (bit_xor v c))) e
    ∙ xor_loop_lem ks (i + 1) c next (omega arith)
        (Reads-set ks mem (i + 1) (block_size + i) (bit_xor k c) (omega arith) r)
    ∙ ap (λ j. store next j (map (λ b. bit_xor b c) ks)) shift

copy_loop_lem :
    (vs : List ℕ) (to from : ℕ) (mem : List ℕ)
    → to + length vs ≤ from
    → Reads mem from vs
    → copy_loop (length vs) to from mem ≡ store mem to vs
unfolding copy_loop
copy_loop_lem [] to from mem h r = refl
copy_loop_lem (v ∷ vs) to from mem h (e, r) =
    let shift : to + 1 ≡ suc to = omega arith in
    ap (λ x. copy_loop (length vs) (to + 1) (from + 1) (set mem to x)) e
    ∙ copy_loop_lem vs (to + 1) (from + 1) (set mem to v) (omega arith)
        (Reads-store_before vs (v ∷ []) mem (from + 1) to (omega arith) r)
    ∙ ap (λ j. store (set mem to v) j vs) shift

-- The key, cut to a block: a longer key is hashed first, and zeros fill the block.
abbrev pub block_key : (List ℕ → List ℕ) → List ℕ → List ℕ
block_key sha256 key =
    let short = if ltb block_size (length key) then sha256 key else key in
    short ++ replicate (block_size - length short) 0

-- H((K xor opad) ++ H((K xor ipad) ++ text))
abbrev pub hmac : (List ℕ → List ℕ) → List ℕ → List ℕ → List ℕ
hmac sha256 key msg =
    let k = block_key sha256 key in
    sha256 (map (λ b. bit_xor b 0x5C) k ++ sha256 (map (λ b. bit_xor b 0x36) k ++ msg))

abbrev pub HashSizes : (List ℕ → List ℕ) → Type 0
HashSizes sha256 = (bytes : List ℕ) → length (sha256 bytes) ≡ hash_size

abbrev pub result : Outcome → Option (List ℕ)
result (digest d mem) = some d
result _ = none

xor_block :
    (k mem : List ℕ) (c : ℕ)
    → length k ≡ block_size
    → Reads mem 0 k
    → xor_loop block_size 0 c mem ≡ store mem block_size (map (λ b. bit_xor b c) k)
xor_block k mem c e r =
    subst (λ n. xor_loop n 0 c mem ≡ store mem block_size (map (λ b. bit_xor b c) k)) e
      (xor_loop_lem k 0 c mem (omega (arith, e)) r)

copy_hash :
    (h mem : List ℕ) (from : ℕ)
    → length h ≡ hash_size
    → 160 ≤ from
    → Reads mem from h
    → copy_loop hash_size 128 from mem ≡ store mem 128 h
copy_hash h mem from e l r =
    subst (λ n. copy_loop n 128 from mem ≡ store mem 128 h) e
      (copy_loop_lem h 128 from mem (omega (arith, e)) r)

-- What is hashed when a block stands before `ys`.
input_lem :
    (xs ys mem : List ℕ) (n : ℕ)
    → length xs ≡ block_size
    → n ≡ length ys
    → 128 + length ys ≤ length mem
    → input (store (store mem block_size xs) 128 ys) block_size (block_size + n) ≡ xs ++ ys
unfolding input
input_lem xs ys mem n e f room =
    let m = store mem block_size xs in
    let behind : block_size + length xs ≡ 128 = omega (arith, e) in
    read-Reads (xs ++ ys) (store m 128 ys) block_size (block_size + n)
      (omega (arith, length-append xs ys, e, f))
      (Reads-both xs ys (store m 128 ys) block_size
        (Reads-store_behind xs ys m block_size 128 (omega (arith, e))
          (Reads-store xs mem block_size (omega (arith, e))))
        (subst (Reads (store m 128 ys) _) refl
          (rw behind (Reads-store ys m 128 (omega (arith, length-store mem block_size xs))))))

pub u_sha256_lem :
    (sha256 : List ℕ → List ℕ) (bytes : List ℕ)
    → 0 < length bytes
    → u_sha256 sha256 bytes ≡ some (sha256 bytes)
unfolding u_sha256
u_sha256_lem sha256 bytes h = ground arith

module _ (sha256 : List ℕ → List ℕ) (sizes : HashSizes sha256) where
  hmac_result_lem :
      (m6 bytes : List ℕ)
      → input m6 block_size (block_size + hash_size) ≡ bytes
      → 0 < length bytes
      → result (hmac_result sha256 m6) ≡ some (sha256 bytes)
  unfolding hmac_result
  hmac_result_lem m6 bytes e h =
      ap (λ o. result (elim o as (λ _. Outcome) [ none ↦ failed | some r ↦ digest r m6 ]))
        (ap (u_sha256 sha256) e ∙ u_sha256_lem sha256 bytes h)

  hmac_padded_lem :
      (k msg m1 : List ℕ)
      → length k ≡ block_size
      → Reads m1 0 k
      → 192 + length msg ≤ length m1
      → result (hmac_padded sha256 msg m1)
        ≡ some (sha256 (map (λ b. bit_xor b 0x5C) k ++ sha256 (map (λ b. bit_xor b 0x36) k ++ msg)))
  unfolding hmac_padded hmac_text hmac_inner hmac_outer
  hmac_padded_lem k msg m1 e r room =
      let ipad = map (λ b. bit_xor b 0x36) k in
      let opad = map (λ b. bit_xor b 0x5C) k in
      let inner = sha256 (ipad ++ msg) in
      let h1 = 64 + (96 + length msg) in
      let m3 = store (store m1 block_size ipad) 128 msg in
      let m4 = store m3 h1 inner in
      let i_size : length ipad ≡ block_size = length-map (λ b. bit_xor b 0x36) k ∙ e in
      let o_size : length opad ≡ block_size = length-map (λ b. bit_xor b 0x5C) k ∙ e in
      let h_size = sizes (ipad ++ msg) in
      let size3 : length m3 ≡ length m1 =
        length-store (store m1 block_size ipad) 128 msg ∙ length-store m1 block_size ipad in
      let size4 : length m4 ≡ length m1 = length-store m3 h1 inner ∙ size3 in
      let kept : Reads m4 0 k = Reads-store_behind k inner m3 0 h1 (omega (arith, e)) (
        Reads-store_behind k msg _ 0 128 (omega (arith, e))
          (Reads-store_behind k ipad m1 0 64 (omega (arith, e)) r)) in
      let there : Reads (store m4 block_size opad) h1 inner =
        Reads-store_before inner opad m4 h1 64 (omega (arith, o_size))
          (Reads-store inner m3 h1 (omega (arith, size3, h_size))) in
      ap (λ m. result (hmac_text sha256 msg m)) (xor_block k m1 0x36 e r)
      ∙ ap (λ o. result (hmac_inner sha256 msg m3 o))
          (ap (u_sha256 sha256) (input_lem ipad msg m1 (length msg) i_size refl (omega arith))
            ∙ u_sha256_lem sha256 (ipad ++ msg) (omega (arith, length-append ipad msg, i_size)))
      ∙ rw (le→ltb (length m3) (h1 + hash_size) (omega (arith, size3))) (
          ap (λ m. result (hmac_result sha256 (copy_loop hash_size 128 h1 m)))
            (xor_block k m4 0x5C e kept)
          ∙ ap (λ m. result (hmac_result sha256 m))
              (copy_hash inner (store m4 block_size opad) h1 h_size (omega arith) there)
          ∙ hmac_result_lem (store (store m4 block_size opad) 128 inner) (opad ++ inner)
              (input_lem opad inner m4 hash_size o_size (sym h_size) (omega (arith, size4, h_size)))
              (omega (arith, length-append opad inner, o_size)))

  hmac_from_lem :
      (short msg wrk : List ℕ) (n : ℕ)
      → length short ≡ n
      → n ≤ block_size
      → 192 + length msg ≤ length wrk
      → (let k = short ++ replicate (block_size - n) 0 in
          result (hmac_from sha256 n msg (store wrk 0 short))
          ≡ some
              (sha256 (map (λ b. bit_xor b 0x5C) k ++ sha256 (map (λ b. bit_xor b 0x36) k ++ msg))))
  unfolding hmac_from
  hmac_from_lem short msg wrk n e fits room =
      let zeros : List ℕ = replicate (block_size - n) 0 in
      let k = short ++ zeros in
      let filled : length zeros ≡ block_size - n = length-replicate (block_size - n) zero in
      let k_size : length k ≡ block_size = omega (arith, length-append short zeros, filled, e) in
      let start : 0 + length short ≡ n = omega (arith, e) in
      let joined : store (store wrk 0 short) n zeros ≡ store wrk 0 k =
        subst (λ j. store (store wrk 0 short) j zeros ≡ store wrk 0 k) start
          (sym (store-append short zeros wrk 0)) in
      ap (λ m. result (hmac_padded sha256 msg m)) joined
      ∙ hmac_padded_lem k msg (store wrk 0 k) k_size (Reads-store k wrk 0 (omega (arith, k_size)))
          (omega (arith, length-store wrk 0 k))

  -- With room for the hash behind the padded message, a work buffer and a message of 32 bit sizes,
  -- and hashes of 32 bytes, the code computes the HMAC of RFC 2104, for keys of any length.
  pub hmac_sha256-hmac :
      (key msg wrk : List ℕ)
      → 192 + length msg ≤ length wrk
      → length wrk < 2 ^ 32
      → result (hmac_sha256 sha256 key msg wrk) ≡ some (hmac sha256 key msg)
  unfolding hmac_sha256
  hmac_sha256-hmac key msg wrk room small =
      let enough : ltb (length wrk) (u32 (block_size + block_size + length msg)) ≡ false =
        le→ltb _ _ (omega arith) in
      rw enough (elim (Bool-cases (ltb block_size (length key))) [
        | inl long ↦
            let cut = sha256 key in
            let fits : length cut ≤ block_size = omega (arith, sizes key) in
            let k : List ℕ = cut ++ replicate (block_size - length cut) 0 in
            rw (long, u_sha256_lem sha256 key (ground (arith, long)))
              (subst
                (λ n.
                  result (hmac_from sha256 n msg (store wrk 0 cut))
                  ≡ some (
                      sha256 (
                        map (λ b. bit_xor b 0x5C) k
                        ++ sha256 (map (λ b. bit_xor b 0x36) k ++ msg))))
                (sizes key) (hmac_from_lem cut msg wrk (length cut) refl fits room))
        | inr short ↦
            rw short (hmac_from_lem key msg wrk (length key) refl (ground (arith, short)) room)
      ])
