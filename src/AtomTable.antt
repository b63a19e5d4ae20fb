-- ===== src/AtomTable.antt =====
-- atom_table.c, deconz/atom_table.h: the table of atoms, an open addressing hash table. An entry
-- holds the bytes of its atom (`len` of them at `data`, none when `len` is 0); the bytes of an
-- entry are never moved or shared, and the pages that they are carved from are the room left in
-- the current page and the number of pages. `malloc` is taken to succeed: the code does not test
-- its result. An `AT_AtomIndex` that an operation sets is an Option, none for a null pointer.
mod Probe
mod AddProbe
mod Addition
pub mod Lookup
pub mod Count
mod Tests
use deconz_lib.Base.Text.{strlen}
use deconz_lib.Base.{
  ℕ, zero, suc, ◌+◌, ◌-◌, ◌*◌, ◌%◌, bit_and, bit_xor, Bool, true, false, ◌&&◌, Option, none, some,
  List, [], ◌∷◌, take, take, u32, ◌>>◌, ltb, leb, ◌==◌, if◌then◌else◌, length, get_or, set,
  replicate,
}

-- ATOM_PAGE_SIZE
abbrev pub page_size : ℕ
page_size = 4096 - 8

-- AT_MAX_ATOM_SIZE
abbrev pub max_atom_size : ℕ
max_atom_size = 384

-- `room` is `atom_page_end - atom_page_beg`.
pub record AtomTable : Type 0 where
  pub pages : ℕ
  pub room : ℕ
  pub table : List (List ℕ)
  pub count : ℕ

-- The loop of `AT_Hash`.
pub hash_loop : ℕ → List ℕ → ℕ
hash_loop h [] = h
hash_loop h (c ∷ cs) =
    let shifted = u32 (16 * h + c) in hash_loop (bit_xor shifted (bit_and (shifted >> 24) 0xF0)) cs

pub hash : List ℕ → ℕ
unfolding hash_loop
hash s = bit_and (hash_loop 0 s) 0xfffffff

-- `memcmp(a, b, size) == 0`, for arrays of the same size.
pub same_bytes : List ℕ → List ℕ → Bool
same_bytes [] [] = true
same_bytes [] (y ∷ ys) = false
same_bytes (x ∷ xs) [] = false
same_bytes (x ∷ xs) (y ∷ ys) = let rest = same_bytes xs ys in if x == y then rest else false

-- `AT_AllocPageData`: whether it returns memory for `size` bytes and a zero.
pub alloc_page_data : ℕ → AtomTable → Bool × AtomTable
alloc_page_data size t =
    let fresh = if t.pages == 0 then true else ltb t.room (size + 1) in
    let t1 = if fresh then record t { pages = t.pages + 1; room = page_size } else t in
    if leb (size + 1) t1.room
    then (true, record t1 { room = t1.room - (size + 1) })
    else (false, t1)

-- `AT_Init`
pub init : ℕ → AtomTable
unfolding alloc_page_data
init max_atoms =
    let (_, t) =
      alloc_page_data 3
        (record { pages = 0; room = 0; table = replicate max_atoms []; count = 0 }) in
    record t { table = set t.table 0 (b'N' ∷ b'U' ∷ b'L' ∷ []) }

-- `atom_table[idx]`
abbrev pub entry : AtomTable → ℕ → List ℕ
entry t idx = get_or t.table idx []

-- The loop of `AT_AddAtom` from its step `i` on, with `n` steps left.
pub add_loop : ℕ → ℕ → List ℕ → AtomTable → Option ℕ × AtomTable
unfolding same_bytes alloc_page_data
add_loop zero i bytes t = (none, t)
add_loop (suc n) i bytes t =
    let idx = (hash bytes + i) % length t.table in
    let a = entry t idx in
    let (memory, t1) = alloc_page_data (length bytes) t in
    let rest = add_loop n (i + 1) bytes t in
    let rest_failed = add_loop n (i + 1) bytes t1 in
    let added = record t1 { table = set t1.table idx bytes; count = t1.count + 1 } in
    if length a == length bytes
    then if same_bytes bytes a then (some idx, t) else rest
    else if length a == 0
    then if memory then (some idx, added) else rest_failed
    else rest

-- `AT_AddAtom`: the index when it returns 1.
pub add_atom : List ℕ → AtomTable → Option ℕ × AtomTable
unfolding add_loop
add_atom bytes t =
    if ltb 0 (length bytes) && leb (length bytes) max_atom_size && ltb t.count (length t.table)
    then add_loop (length t.table) 0 bytes t
    else (none, t)

-- `AT_AddAtomString`, of a null pointer or a C string: whether it returns 1.
abbrev add_atom_string : Option (List ℕ) → AtomTable → Bool × AtomTable
add_atom_string none t = (false, t)
add_atom_string (some s) t =
    let (index, t1) = add_atom (take (strlen s) s) t in
    (elim index [ none ↦ false | some i ↦ true ], t1)

-- `AT_Destroy`
abbrev destroy : AtomTable → AtomTable
destroy t = record { pages = 0; room = 0; table = []; count = 0 }

-- The loop of `AT_GetAtomIndex`.
pub get_loop : ℕ → ℕ → List ℕ → AtomTable → Option ℕ
unfolding same_bytes
get_loop zero i bytes t = none
get_loop (suc n) i bytes t =
    let idx = (hash bytes + i) % length t.table in
    let a = entry t idx in
    let rest = get_loop n (i + 1) bytes t in
    if length a == length bytes
    then if same_bytes bytes a then some idx else rest
    else if length a == 0
    then none
    else rest

-- `AT_GetAtomIndex`: the index when it returns 1.
pub get_atom_index : List ℕ → AtomTable → Option ℕ
unfolding get_loop
get_atom_index bytes t =
    if ltb 0 (length bytes) && leb (length bytes) max_atom_size
    then get_loop (length t.table) 0 bytes t
    else none

-- `AT_GetAtomByIndex`
pub get_atom_by_index : ℕ → AtomTable → List ℕ
get_atom_by_index index t = if ltb index (length t.table) then entry t index else []
