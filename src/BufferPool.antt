-- ===== src/BufferPool.antt =====
-- buffer_pool.c, deconz/buffer_pool.h: a cache of the pages of a file in frames of memory, with the
-- clock as its replacement. The `FS_*` functions are the parameter `api`. A pointer to a page or to
-- the data of a frame is an index; `n_frames` is the number of pages, and the frames that the
-- caller gives are as many. The bits of `flags` are three Boolean fields.
pub mod View
pub mod Sweep
mod Dirt
pub mod Write
mod Evict
pub mod LoadAt
pub mod Load
pub mod Flush
mod Tests
use deconz_lib.Base.{
  ℕ, zero, suc, ◌+◌, ◌*◌, ◌/◌, ◌%◌, Bool, true, false, ◌&&◌, ◌||◌, Option, none, some, List, [],
  ◌∷◌, ◌++◌, u16, u32, ltb, leb, ◌==◌, if◌then◌else◌, length, get_or, set, drop, map,
}

-- FS_SeekFile from the start, FS_ReadFile with the bytes that it reads, FS_WriteFile with the number
-- that it writes, FS_TruncateFile and FS_GetFileSize.
pub record FileApi : Type 1 where
  pub File : Type 0
  pub seek : File → ℕ → Bool × File
  pub read : File → ℕ → List ℕ × File
  pub write : File → List ℕ → ℕ × File
  pub truncate : File → ℕ → Bool × File
  pub size : File → ℕ

-- BP_PAGE_SIZE
abbrev pub page_size : ℕ
page_size = 4096

-- `BP_Page`, with BP_PAGE_FLAG_ACCESS, BP_PAGE_FLAG_DIRTY and BP_PAGE_FLAG_LOADED.
pub record Page : Type 0 where
  pub frame : ℕ
  pub page : ℕ
  pub accessed : Bool
  pub dirty : Bool
  pub loaded : Bool

abbrev pub no_page : Page
no_page = record { frame = 0; page = 0; accessed = false; dirty = false; loaded = false }

-- `BP_BufferPool`
pub record Pool (api : FileApi) : Type 0 where
  pub file : api.File
  pub frames : List (List ℕ)
  pub pages : List Page
  pub clock_cursor : ℕ
  pub n_pages_in_file : ℕ

-- `BP_GetPagePtr`
pub find_page : List Page → ℕ → Option ℕ
find_page [] pagenum = none
find_page (g ∷ gs) pagenum =
    let rest = find_page gs pagenum in
    if (g.page == pagenum) && g.loaded
    then some 0
    else elim rest [ none ↦ none | some i ↦ some (suc i) ]

-- Where the clock stops: at the page `found`, or after a round without one.
pub record Swept : Type 0 where
  pub found : Option ℕ
  pub pages : List Page
  pub clock_cursor : ℕ
  pub dirty_page : ℕ

-- The loop of `BP_LoadPage`, with `n` rounds left; `none_dirty` is `n_pages_in_file`.
pub sweep : ℕ → ℕ → List Page → ℕ → ℕ → Swept
sweep zero none_dirty pages cursor dirty_page = record {
  found = none;
  pages = pages;
  clock_cursor = cursor;
  dirty_page = dirty_page;
}
sweep (suc n) none_dirty pages cursor dirty_page =
    let i = cursor % length pages in
    let g = get_or pages i no_page in
    let pages' = if g.dirty then pages else set pages i (record g { accessed = false }) in
    let dirty' =
      if g.dirty then (if dirty_page == none_dirty then g.page else dirty_page) else dirty_page in
    let rest = sweep n none_dirty pages' (u32 (cursor + 1)) dirty' in
    if g.dirty || g.accessed
    then rest
    else record { found = some i; pages = pages; clock_cursor = cursor; dirty_page = dirty_page }

module _ (api : FileApi) where
  -- `BP_StatPageFile`
  abbrev stat_page_file : Pool api → Pool api
  stat_page_file bp =
      let n = api.size bp.file in
      record bp { n_pages_in_file = if leb page_size n then n / page_size else 0 }

  -- `BP_Init`, on a file that was opened, with the caller's frames and pages.
  abbrev init : api.File → List (List ℕ) → List Page → Pool api
  init file frames pages = stat_page_file (record {
    file = file;
    frames = frames;
    pages = map (λ _. no_page) pages;
    clock_cursor = 0;
    n_pages_in_file = 0;
  })

  -- `BP_WriteDirtyPage`, with the page at the index `i`.
  pub write_page : ℕ → ℕ → Pool api → Bool × Pool api
  write_page i pagenum bp =
      let g = get_or bp.pages i no_page in
      let (sought, f1) = api.seek bp.file (pagenum * page_size) in
      let (n, f2) = api.write f1 (get_or bp.frames g.frame []) in
      if g.dirty
      then if sought
        then if n == page_size
          then (true, record bp { file = f2; pages = set bp.pages i (record g { dirty = false }) })
          else (false, record bp { file = f2 })
        else (false, record bp { file = f1 })
      else (false, bp)

  -- `BP_WriteDirtyPage`
  pub write_dirty_page : ℕ → Pool api → Bool × Pool api
  write_dirty_page pagenum bp = elim (find_page bp.pages pagenum) [
    | none ↦ (false, bp)
    | some i ↦ write_page i pagenum bp
  ]

  -- The loop of `BP_Flush` from the index `i` on, with `n` pages left.
  pub flush_loop : ℕ → ℕ → Pool api → Pool api
  flush_loop zero i bp = bp
  flush_loop (suc n) i bp =
      let g = get_or bp.pages i no_page in
      let bp' = if g.dirty then (write_dirty_page g.page bp).1 else bp in flush_loop n (i + 1) bp'

  -- `BP_Flush`
  pub flush : Pool api → Pool api
  flush bp = flush_loop (length bp.pages) 0 bp

  -- The end of `BP_LoadPage`: the page is read into the frame `i`. The frame is returned.
  pub load_at : ℕ → ℕ → Pool api → Option ℕ × Pool api
  load_at i pagenum bp =
      let g = record no_page { frame = u16 i; page = pagenum } in
      let (sought, f1) = api.seek bp.file (pagenum * 4096) in
      let (bytes, f2) = api.read f1 page_size in
      let old = get_or bp.frames i [] in
      let frames' = set bp.frames i (bytes ++ drop (length bytes) old) in
      let bp1 = record bp { file = f2; frames = frames' } in
      if sought
      then if length bytes == page_size
        then (some i, record bp1 { pages = set bp.pages i (record g { loaded = true }) })
        else (none, record bp1 { pages = set bp.pages i g })
      else (none, record bp { file = f1; pages = set bp.pages i g })

  -- `BP_LoadPage` from the label `again` on; none when the rounds are used up.
  pub load_again : ℕ → ℕ → Pool api → Option (Option ℕ × Pool api)
  load_again zero pagenum bp = none
  load_again (suc fuel) pagenum bp =
      let np = bp.n_pages_in_file in
      let s = sweep (length bp.pages) np bp.pages bp.clock_cursor (u16 np) in
      let bp1 = record bp { pages = s.pages; clock_cursor = s.clock_cursor } in
      let (written, bp2) = write_dirty_page s.dirty_page bp1 in
      let rest = load_again fuel pagenum bp2 in
      let full =
        if ltb s.dirty_page np
        then if written then rest else some (none, bp2)
        else some (none, bp1) in
      elim s.found [ none ↦ full | some i ↦ some (load_at i pagenum bp1) ]

  -- `BP_LoadPage`: the frame that `dat->data` points to when it returns 1. There are at most as many
  -- rounds as pages that are dirty, and one more.
  pub load_page : ℕ → Pool api → Option (Option ℕ × Pool api)
  load_page pagenum bp =
      let again = load_again (length bp.pages + 1) pagenum bp in
      elim (find_page bp.pages pagenum) [
        | some i ↦
            let g = get_or bp.pages i no_page in
            some (some g.frame, record bp { pages = set bp.pages i (record g { accessed = true }) })
        | none ↦ again
      ]

  -- `BP_MarkPageDirty`
  pub mark_page_dirty : ℕ → Pool api → Pool api
  mark_page_dirty pagenum bp = elim (find_page bp.pages pagenum) [
    | none ↦ bp
    | some i ↦
        let g = get_or bp.pages i no_page in
        record bp { pages = set bp.pages i (record g { dirty = true }) }
  ]

  -- A client's write through `dat->data` of a page that it loaded into the frame `i`, and its
  -- `BP_MarkPageDirty`.
  pub write_and_mark : ℕ → ℕ → List ℕ → Pool api → Pool api
  write_and_mark i pagenum bytes bp =
      mark_page_dirty pagenum (record bp { frames = set bp.frames i bytes })

  -- `BP_AllocPage`: the number of the page and its frame, when it returns 1.
  abbrev alloc_page : Pool api → Option (Option (ℕ × ℕ) × Pool api)
  alloc_page bp =
      let (grown, f) = api.truncate bp.file (u32 ((bp.n_pages_in_file + 1) * page_size)) in
      let page_id = u16 bp.n_pages_in_file in
      let next =
        load_page page_id (record bp { file = f; n_pages_in_file = bp.n_pages_in_file + 1 }) in
      if grown
      then elim next [
        | none ↦ none
        | some r ↦ some (elim r.0 [ none ↦ none | some i ↦ some (page_id, i) ], r.1)
      ]
      else some (none, record bp { file = f })

  -- `BP_Truncate`
  abbrev truncate : ℕ → Pool api → Bool × Pool api
  truncate n bp =
      let (done, f) = api.truncate bp.file (u32 (n * page_size)) in
      if done
      then (true, stat_page_file (record bp { file = f }))
      else (false, record bp { file = f })

  -- `BP_Destroy`, on the file that was closed.
  abbrev destroy : Pool api → Pool api
  destroy bp = record bp { frames = []; pages = [] }
