-- ===== src/Arena.antt =====
-- u_arena.c, u_memory.c: an arena of memory, from which aligned blocks are taken one behind the
-- other. Pointers are addresses of 64 bits. `U_Alloc` is a parameter of `init`: the address that it
-- returns. The assertions, which a release build drops, are not modelled; that of
-- the space in `U_AllocArena` is stricter than the check behind it.
pub mod Align
pub mod Blocks
mod Tests
use deconz_lib.Base.{
  ℕ, ◌+◌, ◌-◌, ◌^◌, bit_and, bit_or, Bool, false, Option, none, some, u64, ltb, ◌==◌, if◌then◌else◌,
}

-- `U_Arena`; `total_size` is `_total_size`, with the flag of memory that is not the arena's.
pub record Arena : Type 0 where
  pub buf : ℕ
  pub size : ℕ
  pub total_size : ℕ

-- U_ARENA_SIZE_MASK
abbrev pub size_mask : ℕ
size_mask = 0x7FFFFFFF

-- U_ARENA_STATIC_MEM_FLAG
abbrev pub static_mem_flag : ℕ
static_mem_flag = 0x80000000

-- `U_memalign`; `~(algn - 1)` is `2 ^ 64 - algn`.
pub memalign : ℕ → ℕ → ℕ
memalign p align = bit_and (u64 (p + (align - 1))) (2 ^ 64 - align)

-- `U_InitArena`, with the result of `U_Alloc`.
abbrev init : ℕ → ℕ → Arena
init allocated size = record { buf = allocated; size = 0; total_size = size }

-- `U_InitArenaStatic`
abbrev init_static : ℕ → ℕ → Arena
init_static mem size = record { buf = mem; size = 0; total_size = bit_or size static_mem_flag }

-- What `U_AllocArena` returns, the address of the size that it wrote, and the arena.
pub record Allocation : Type 0 where
  pub block : Option ℕ
  pub header : Option ℕ
  pub arena : Arena

-- `U_AllocArena`
pub alloc : Arena → ℕ → ℕ → Allocation
alloc a size alignment =
    let total = bit_and a.total_size size_mask in
    let h = memalign (a.buf + a.size) 8 in
    let p = memalign (h + 8) alignment in
    if size == 0
    then record { block = none; header = none; arena = a }
    else if ltb total (u64 (a.size + 32 + size))
    then record { block = none; header = none; arena = a }
    else if ltb size (u64 (a.buf + total + 2 ^ 64 - p))
    then record { block = some p; header = some h; arena = record a { size = p - a.buf + size } }
    else record { block = none; header = some h; arena = a }

-- `U_FreeArena`: whether the memory is freed, and the arena.
abbrev free : Arena → Bool × Arena
free a = (
  if a.buf == 0 then false else bit_and a.total_size static_mem_flag == 0,
  record { buf = 0; size = 0; total_size = 0 },
)
