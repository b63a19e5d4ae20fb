-- ===== src/Arena/Align.antt =====
-- U_memalign: the next multiple of a power of two.
use mathlib.Core.Path.{subst}
use deconz_lib.Base.{
  ℕ, ◌+◌, ◌-◌, ◌*◌, ◌/◌, ◌%◌, ◌^◌, ◌≤◌, ◌<◌, bit_and, ◌≡◌, sym, arith, u64, ◌⊎◌, inl, inr,
  bit_and_ones, and_digit,
}
use deconz_lib.Arena.{memalign}

-- `p1` is the first multiple of `align` from `p` on.
pub record IsNext (p align p1 : ℕ) : Type 0 where
  pub multiple : p1 % align ≡ 0
  pub from : p ≤ p1
  pub near : p1 < p + align

and_high_1 : (x m : ℕ) → bit_and x (m * 2) ≡ bit_and (x / 2) m * 2
and_high_1 x m = ground (arith, and_digit x (m * 2))

memalign_1 : (p : ℕ) → p + 16 < 2 ^ 64 → memalign p 1 ≡ p
unfolding memalign
memalign_1 p h = omega (arith, bit_and_ones 64 (u64 (p + 0)))

memalign_8 : (p : ℕ) → p + 16 < 2 ^ 64 → memalign p 8 ≡ (p + 7) / 8 * 8
unfolding memalign
memalign_8 p h =
    let x = u64 (p + 7) in
    omega (
      arith,
      and_high_1 x (2 ^ 63 - 4),
      and_high_1 (x / 2) (2 ^ 62 - 2),
      and_high_1 (x / 2 / 2) (2 ^ 61 - 1),
      bit_and_ones 61 (x / 2 / 2 / 2),
    )

memalign_16 : (p : ℕ) → p + 16 < 2 ^ 64 → memalign p 16 ≡ (p + 15) / 16 * 16
unfolding memalign
memalign_16 p h =
    let x = u64 (p + 15) in
    omega (
      arith,
      and_high_1 x (2 ^ 63 - 8),
      and_high_1 (x / 2) (2 ^ 62 - 4),
      and_high_1 (x / 2 / 2) (2 ^ 61 - 2),
      and_high_1 (x / 2 / 2 / 2) (2 ^ 60 - 1),
      bit_and_ones 60 (x / 2 / 2 / 2 / 2),
    )

-- U_ARENA_ALIGN_1, U_ARENA_ALIGN_8, U_ARENA_ALIGN_16
abbrev pub IsAlignment : ℕ → Type 0
IsAlignment a = (a ≡ 1) ⊎ (a ≡ 8) ⊎ (a ≡ 16)

memalign_8-IsNext : (p : ℕ) → p + 16 < 2 ^ 64 → IsNext p 8 (memalign p 8)
memalign_8-IsNext p h = record {
  multiple = omega (arith, memalign_8 p h);
  from = omega (arith, memalign_8 p h);
  near = omega (arith, memalign_8 p h);
}

-- Away from the end of the addresses `U_memalign` gives the first multiple of the alignment from
-- the pointer on, for each alignment of an arena.
pub memalign-IsNext :
    (p align : ℕ) → IsAlignment align → p + 16 < 2 ^ 64 → IsNext p align (memalign p align)
memalign-IsNext p align (inl e) h =
    subst (λ a. IsNext p a (memalign p a)) (sym e)
      (record {
        multiple = omega arith;
        from = omega (arith, memalign_1 p h);
        near = omega (arith, memalign_1 p h);
      })
memalign-IsNext p align (inr (inl e)) h =
    subst (λ a. IsNext p a (memalign p a)) (sym e) (memalign_8-IsNext p h)
memalign-IsNext p align (inr (inr e)) h =
    subst (λ a. IsNext p a (memalign p a)) (sym e)
      (record {
        multiple = omega (arith, memalign_16 p h);
        from = omega (arith, memalign_16 p h);
        near = omega (arith, memalign_16 p h);
      })
