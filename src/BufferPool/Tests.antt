-- ===== src/BufferPool/Tests.antt =====
-- The theorems of the buffer pool at concrete inputs, with a file that is a function from the page
-- numbers and a position.
use deconz_lib.Base.{
  ℕ, zero, suc, ◌*◌, ◌/◌, ◌≤◌, ◌<◌, ◌≡◌, refl, sym, ap, ◌∙◌, inl, inr, true, false, Option, some,
  List, [], ◌∷◌, arith, ◌==◌, if◌then◌else◌, Bool-cases, length, get_or, replicate,
  length-replicate, eq→==,
}
use deconz_lib.BufferPool.{FileApi, Pool, no_page, page_size, load_page, flush}
use deconz_lib.BufferPool.View.{IsFile, IsPool, page_at, view}
use deconz_lib.BufferPool.LoadAt.{Loads}
use deconz_lib.BufferPool.Load.{load_page-Loads}
use deconz_lib.BufferPool.Flush.{IsReliable, flush-file}

abbrev page_of : ℕ → List ℕ
page_of n = replicate page_size n

length-page_of : (n : ℕ) → length (page_of n) ≡ page_size
length-page_of n = length-replicate page_size n

record MemoryFile : Type 0 where
  at : ℕ
  block : ℕ → List ℕ

abbrev read_block : List ℕ → ℕ → List ℕ
read_block bytes n = if length bytes == n then bytes else []

abbrev memory : FileApi
memory = record {
  File = MemoryFile;
  seek = λ f o. (true, record f { at = o });
  read = λ f n. (read_block (f.block (f.at / page_size)) n, f);
  write = λ f bytes.
      (length bytes, record f { block = λ p. if p == f.at / page_size then bytes else f.block p });
  truncate = λ f n. (true, f);
  size = λ f. 3 * page_size;
}

read_block_whole :
    (bytes : List ℕ) (n : ℕ) → 0 < n → length (read_block bytes n) ≡ n → read_block bytes n ≡ bytes
read_block_whole bytes n h e = elim (Bool-cases (length bytes == n)) [
  | inl s ↦ rw s refl
  | inr s ↦ let none_read : 0 ≡ n = sym (rw s refl) ∙ e in absurd (omega (arith, none_read))
]

length-read_block_le : (bytes : List ℕ) (n : ℕ) → length (read_block bytes n) ≤ n
length-read_block_le bytes n = elim (Bool-cases (length bytes == n)) [
  | inl s ↦ rw s (ground (arith, s))
  | inr s ↦ rw s (omega arith)
]

memory-IsFile : IsFile memory
memory-IsFile = record {
  at = λ f. f.at;
  block = λ f. f.block;
  seek-at = λ f o h. refl;
  block-seek = λ f o p. refl;
  read-block = λ f p h l.
      read_block_whole (f.block (f.at / page_size)) page_size (omega arith) l
      ∙ ap f.block (let here : f.at / page_size ≡ p = omega (arith, h) in here);
  length-read = λ f n. length-read_block_le (f.block (f.at / page_size)) n;
  block-read = λ f n p. refl;
  block-write = λ f p bytes h l w.
      let here : (p == f.at / page_size) ≡ true = eq→== _ _ (omega (arith, h)) in rw here refl;
  block-write_ne = λ f p q bytes h l n.
      let away : (q == f.at / page_size) ≡ false = ground (arith, h, n) in rw away refl;
}

memory-IsReliable : IsReliable memory-IsFile
memory-IsReliable = record { seeks = λ f o. refl; writes = λ f bytes. refl }

-- The page 1 is loaded in the first of two frames.
abbrev pool : Pool memory
pool = record {
  file = record { at = 0; block = λ p. page_of p };
  frames = page_of 1 ∷ page_of 7 ∷ [];
  pages = record no_page { page = 1; loaded = true } ∷ no_page ∷ [];
  clock_cursor = 0;
  n_pages_in_file = 3;
}

only_first : (i : ℕ) → (page_at pool.pages i).loaded ≡ true → i ≡ 0
only_first zero h = refl
only_first (suc zero) h = cc
only_first (suc (suc i)) h = cc

never_dirty : (i : ℕ) → (page_at pool.pages i).dirty ≡ true → (page_at pool.pages i).loaded ≡ true
never_dirty zero h = refl
never_dirty (suc zero) h = cc
never_dirty (suc (suc i)) h = cc

whole_frames : (i : ℕ) → i < 2 → length (get_or pool.frames i []) ≡ page_size
whole_frames zero l = length-page_of 1
whole_frames (suc zero) l = length-page_of 7
whole_frames (suc (suc i)) l = absurd (omega arith)

own_frame : (i : ℕ) → i ≡ 0 → (page_at pool.pages i).frame ≡ i
own_frame i e = rw e refl

in_file : (i : ℕ) → i ≡ 0 → get_or pool.frames i [] ≡ page_of (page_at pool.pages i).page
in_file i e = rw e refl

pool-IsPool : IsPool memory-IsFile pool
unfolding memory-IsFile
pool-IsPool = record {
  sizes = refl;
  few = omega arith;
  own = λ i h. own_frame i (only_first i h);
  unique = λ i j l m h. only_first i l ∙ sym (only_first j m);
  clean = λ i l d. in_file i (only_first i l);
  kept = never_dirty;
  full = whole_frames;
}

-- The page 2 is not in the pool yet.
load_page-Loads_example :
    (r : Option ℕ × Pool memory) × (load_page memory 2 pool ≡ some r) × Loads memory-IsFile pool 2 r
load_page-Loads_example = load_page-Loads memory-IsFile 2 pool-IsPool (omega arith)

flush-file_example :
    (memory-IsFile.block (flush memory pool).file 1 ≡ view memory-IsFile pool 1)
    × (view memory-IsFile (flush memory pool) 1 ≡ view memory-IsFile pool 1)
flush-file_example = flush-file memory-IsFile 1 memory-IsReliable pool-IsPool
