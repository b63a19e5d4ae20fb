-- ===== src/Arena/Tests.antt =====
-- The theorems of the arena at concrete inputs.
use deconz_lib.Base.{◌≤◌, ℕ, ◌+◌, ◌-◌, ◌<◌, ◌≡◌, refl, ◌⊎◌, inr, none, some, arith}
use deconz_lib.Arena.{Arena, alloc}
use deconz_lib.Arena.Blocks.{IsArena, IsBlock, capacity, alloc-IsBlock}

-- 4096 bytes of static memory, of which 100 are taken.
abbrev used_arena : Arena
used_arena = record { buf = 0x10000; size = 100; total_size = 0x80001000 }

used_arena-IsArena : IsArena used_arena
used_arena-IsArena = record { low = omega arith; within = omega arith }

alloc-IsBlock_example :
    ((capacity used_arena < 100 + 32 + 40)
      × (alloc used_arena 40 16 ≡ record { block = none; header = none; arena = used_arena }))
    ⊎ (100 + 32 + 40 ≤ capacity used_arena)
      × (h : ℕ) × (p : ℕ) × IsBlock used_arena 40 16 h p
      × IsArena (alloc used_arena 40 16).arena
      × (alloc used_arena 40 16 ≡ record {
        block = some p;
        header = some h;
        arena = record used_arena { size = p - 0x10000 + 40 };
      })
alloc-IsBlock_example =
    alloc-IsBlock 40 16 used_arena-IsArena (inr (inr refl)) (omega arith) (omega arith)
