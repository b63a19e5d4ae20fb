-- ===== src/Arena/Blocks.antt =====
-- U_AllocArena: when it succeeds, and where the block lies.
use deconz_lib.Base.{
  ℕ, ◌+◌, ◌-◌, ◌%◌, ◌^◌, ◌≤◌, ◌<◌, bit_and, ◌≡◌, refl, ◌⊎◌, inl, inr, true, false, none, some,
  arith, u64, ltb, ◌==◌, bit_and_ones, lt→ltb, ltb→lt, Bool-cases,
}
use deconz_lib.Arena.{Arena, alloc, memalign, size_mask}
use deconz_lib.Arena.Align.{IsNext, IsAlignment, memalign-IsNext}

-- The size of the memory.
abbrev pub capacity : Arena → ℕ
capacity a = bit_and a.total_size size_mask

-- The memory does not reach the last addresses, and no more of it is taken than there is.
pub record IsArena (a : Arena) : Type 0 where
  pub low : a.buf + capacity a + 64 < 2 ^ 64
  pub within : a.size ≤ capacity a

-- A block of `size` bytes at `p`, with its size written to `h`.
pub record IsBlock (a : Arena) (size alignment h p : ℕ) : Type 0 where
  pub aligned : p % alignment ≡ 0
  pub word : h % 8 ≡ 0
  pub behind : a.buf + a.size ≤ h
  pub apart : h + 8 ≤ p
  pub inside : p + size < a.buf + capacity a

module _ (size alignment : ℕ) {a : Arena} (ok : IsArena a) (way : IsAlignment alignment)
    (room : a.size + 32 + size ≤ capacity a) where
  header_at : IsNext (a.buf + a.size) 8 (memalign (a.buf + a.size) 8)
  header_at = memalign-IsNext (a.buf + a.size) 8 (inr (inl refl)) (omega (arith, ok.low, ok.within))

  alignment_le : alignment ≤ 16
  alignment_le = ground (arith, way)

  block_at :
      IsNext
        (memalign (a.buf + a.size) 8 + 8)
        alignment
        (memalign (memalign (a.buf + a.size) 8 + 8) alignment)
  block_at =
      memalign-IsNext (memalign (a.buf + a.size) 8 + 8) alignment way
        (omega (arith, ok.low, ok.within, header_at.near))

  place-IsBlock :
      IsBlock a size alignment
        (memalign (a.buf + a.size) 8)
        (memalign (memalign (a.buf + a.size) 8 + 8) alignment)
  place-IsBlock = record {
    aligned = block_at.multiple;
    word = header_at.multiple;
    behind = header_at.from;
    apart = block_at.from;
    inside = omega (arith, block_at.near, header_at.near, alignment_le);
  }

  block_fits :
      ltb size
        (u64 (a.buf + capacity a + 2 ^ 64 - memalign (memalign (a.buf + a.size) 8 + 8) alignment))
      ≡ true
  block_fits =
      lt→ltb _ _
        (omega (arith, place-IsBlock.inside, place-IsBlock.apart, place-IsBlock.behind, ok.low))

-- With assertions off, a block of some bytes, less than 2^63, is refused when its size and 32 bytes
-- are not left in the arena, and the arena stays. When they are left, exactly that many included, it
-- is given: behind all that was taken before, with its size before it, aligned, and inside the
-- memory, and the arena counts it as taken.
pub alloc-IsBlock :
    (size alignment : ℕ) {a : Arena}
    → IsArena a
    → IsAlignment alignment
    → 0 < size
    → size < 2 ^ 63
    → ((capacity a < a.size + 32 + size)
        × (alloc a size alignment ≡ record { block = none; header = none; arena = a }))
      ⊎ (a.size + 32 + size ≤ capacity a)
        × (h : ℕ) × (p : ℕ) × IsBlock a size alignment h p
        × IsArena (alloc a size alignment).arena
        × (alloc a size alignment ≡ record {
          block = some p;
          header = some h;
          arena = record a { size = p - a.buf + size };
        })
unfolding alloc
alloc-IsBlock size alignment {a} ok way some_bytes small =
    let nonzero : (size == 0) ≡ false = ground arith in
    let narrow : capacity a < 2 ^ 31 = omega (arith, bit_and_ones 31 a.total_size) in
    elim (Bool-cases (ltb (capacity a) (u64 (a.size + 32 + size)))) [
      | inl full ↦ inl (omega (arith, ltb→lt _ _ full, ok.within), rw (nonzero, full) refl)
      | inr enough ↦
          let room : a.size + 32 + size ≤ capacity a = ground (arith, enough, ok.within) in
          let b = place-IsBlock size alignment ok way room in
          let fits = block_fits size alignment ok way room in
          inr (
            room,
            _,
            _,
            b,
            rw (nonzero, enough, fits)
                (record { low = ok.low; within = omega (arith, b.inside, b.apart, b.behind) }),
            rw (nonzero, enough, fits) refl,
          )
    ]
