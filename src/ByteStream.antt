-- ===== src/ByteStream.antt =====
-- u_bstream.c, deconz/u_bstream.h: a cursor that reads and writes little and big endian words.
-- `unsigned long` has 64 bits (LP64). The memory behind `data` is a list of bytes; the stream is
-- its only writer.
pub mod Access
pub mod Sequence
pub mod Safety
mod Tests
use deconz_lib.Base.{
  ℕ, ◌+◌, Bool, true, false, Option, none, some, List, bit_or, u16, u32, u64, ltb, get_or, set,
  if◌then◌else◌, ◌<<◌, ◌>>◌, bit_and,
}
use deconz_lib.Base.Int.{ℤ, to_bits, of_bits}
use deconz_lib.Base.Shift.{shift_in}

pub data Status : Type 0 where
  ok read_past_end write_past_end not_initialised : Status

abbrev pub is_ok : Status → Bool
is_ok ok = true
is_ok _ = false

-- `U_BStream`; `none` is the null pointer.
pub record Bstream : Type 0 where
  pub buf : Option (List ℕ)
  pub pos : ℕ
  pub size : ℕ
  pub status : Status

pub init : Option (List ℕ) → ℕ → Bstream
init buf size = record { buf = buf; pos = 0; size = size; status = ok }

-- What a verify function of the C code answers, beside the stream that it may have marked.
pub verify : Status → Bstream → ℕ → Bool × Bstream
verify past_end bs n =
    if is_ok bs.status
    then elim bs.buf [
      | none ↦ (false, record bs { status = not_initialised })
      | some _ ↦
          if ltb bs.size (u64 (bs.pos + n))
          then (false, record bs { status = past_end })
          else (true, bs)
    ]
    else (false, bs)

pub verify_write : Bstream → ℕ → Bool × Bstream
unfolding verify
verify_write = verify write_past_end

pub verify_read : Bstream → ℕ → Bool × Bstream
unfolding verify
verify_read = verify read_past_end

-- `bs->data[bs->pos++] = b`
abbrev pub push : ℕ → Bstream → Bstream
push b bs = record bs {
  buf = elim bs.buf [ none ↦ none | some m ↦ some (set m bs.pos b) ];
  pos = u64 (bs.pos + 1);
}

-- `bs->data[bs->pos + i]`
abbrev pub peek : Bstream → ℕ → ℕ
peek bs i = elim bs.buf [ none ↦ 0 | some m ↦ get_or m (u64 (bs.pos + i)) 0 ]

abbrev pub advance : ℕ → Bstream → Bstream
advance n bs = record bs { pos = u64 (bs.pos + n) }

pub put_u8 : ℕ → Bstream → Bstream
unfolding verify_write
put_u8 v bs = let (fits, bs') = verify_write bs 1 in if fits then push v bs' else bs'

pub put_u16_le : ℕ → Bstream → Bstream
unfolding verify_write
put_u16_le v bs =
    let (fits, bs') = verify_write bs 2 in
    if fits then push (bit_and (v >> 8) 0xff) (push (bit_and (v >> 0) 0xff) bs') else bs'

pub put_s16_le : ℤ → Bstream → Bstream
unfolding put_u16_le
put_s16_le v bs = put_u16_le (to_bits 16 v) bs

pub put_u32_le : ℕ → Bstream → Bstream
unfolding verify_write
put_u32_le v bs =
    let (fits, bs') = verify_write bs 4 in
    if fits
    then push (bit_and (v >> 24) 0xff) (
        push (bit_and (v >> 16) 0xff)
          (push (bit_and (v >> 8) 0xff) (push (bit_and (v >> 0) 0xff) bs')))
    else bs'

pub put_s32_le : ℤ → Bstream → Bstream
unfolding put_u32_le
put_s32_le v bs = put_u32_le (to_bits 64 v) bs

pub get_u8 : Bstream → ℕ × Bstream
unfolding verify_read
get_u8 bs =
    let (fits, bs') = verify_read bs 1 in if fits then (peek bs' 0, advance 1 bs') else (0, bs')

pub get_u16_le : Bstream → ℕ × Bstream
unfolding verify_read
get_u16_le bs =
    let (fits, bs') = verify_read bs 2 in
    if fits then (bit_or (u16 (peek bs' 1 << 8)) (peek bs' 0), advance 2 bs') else (0, bs')

pub get_s16_le : Bstream → ℤ × Bstream
unfolding get_u16_le
get_s16_le bs = let (v, bs') = get_u16_le bs in (of_bits 15 v, bs')

pub get_u16_be : Bstream → ℕ × Bstream
unfolding verify_read
get_u16_be bs =
    let (fits, bs') = verify_read bs 2 in
    if fits then (bit_or (u16 (peek bs' 0 << 8)) (peek bs' 1), advance 2 bs') else (0, bs')

pub get_u32_le : Bstream → ℕ × Bstream
unfolding verify_read
get_u32_le bs =
    let (fits, bs') = verify_read bs 4 in
    if fits
    then (
      shift_in (peek bs' 0) (shift_in (peek bs' 1) (shift_in (peek bs' 2) (peek bs' 3))),
      advance 4 bs',
    )
    else (0, bs')

-- The `__LP64__` branch: the word is cut to `unsigned int` first.
pub get_s32_le : Bstream → ℤ × Bstream
unfolding get_u32_le
get_s32_le bs = let (v, bs') = get_u32_le bs in (of_bits 31 (u32 v), bs')

pub get_u32_be : Bstream → ℕ × Bstream
unfolding verify_read
get_u32_be bs =
    let (fits, bs') = verify_read bs 4 in
    if fits
    then (
      shift_in (peek bs' 3) (shift_in (peek bs' 2) (shift_in (peek bs' 1) (peek bs' 0))),
      advance 4 bs',
    )
    else (0, bs')
