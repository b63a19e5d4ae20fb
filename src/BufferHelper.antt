-- ===== src/BufferHelper.antt =====
-- buffer_helper.c: little endian words at a pointer. A pointer is an index into the memory that
-- it points into; a put returns the memory and the advanced pointer, a get the word and the pointer.
pub mod RoundTrip
mod Tests
use deconz_lib.Base.{ℕ, ◌+◌, bit_and, bit_or, List, u16, u32, u64, ◌<<◌, ◌>>◌, get_or, set}

abbrev pub Put : Type 0
Put = List ℕ → ℕ → ℕ → List ℕ × ℕ

abbrev pub Get : Type 0
Get = List ℕ → ℕ → ℕ × ℕ

pub put_u8_le : Put
put_u8_le mem out v = (set mem out v, out + 1)

pub put_u16_le : Put
put_u16_le mem out v =
    let m1 = set mem out (bit_and v 0x00ff) in
    let m2 = set m1 (out + 1) (bit_and v 0xff00 >> 8) in (m2, out + 2)

pub put_u32_le : Put
put_u32_le mem out v =
    let m1 = set mem out (bit_and v 0x000000ff >> 0) in
    let m2 = set m1 (out + 1) (bit_and v 0x0000ff00 >> 8) in
    let m3 = set m2 (out + 2) (bit_and v 0x00ff0000 >> 16) in
    let m4 = set m3 (out + 3) (bit_and v 0xff000000 >> 24) in (m4, out + 4)

pub put_u64_le : Put
put_u64_le mem out v =
    let m1 = set mem out (bit_and v 0x00000000000000ff >> 0) in
    let m2 = set m1 (out + 1) (bit_and v 0x000000000000ff00 >> 8) in
    let m3 = set m2 (out + 2) (bit_and v 0x0000000000ff0000 >> 16) in
    let m4 = set m3 (out + 3) (bit_and v 0x00000000ff000000 >> 24) in
    let m5 = set m4 (out + 4) (bit_and v 0x000000ff00000000 >> 32) in
    let m6 = set m5 (out + 5) (bit_and v 0x0000ff0000000000 >> 40) in
    let m7 = set m6 (out + 6) (bit_and v 0x00ff000000000000 >> 48) in
    let m8 = set m7 (out + 7) (bit_and v 0xff00000000000000 >> 56) in (m8, out + 8)

-- `p[i]`
abbrev pub at : List ℕ → ℕ → ℕ
at mem p = get_or mem p 0

pub get_u8_le : Get
get_u8_le mem p = (at mem p, p + 1)

pub get_u16_le : Get
get_u16_le mem p = (u16 (bit_or (at mem p) (at mem (p + 1) << 8)), p + 2)

-- The shifts are done on `int`, or-ed and stored into 32 bits: a top byte of 128 or more passes
-- through the sign bit and comes out as the same bits.
pub get_u32_le : Get
get_u32_le mem p =
    let w1 = bit_or (at mem p) (at mem (p + 1) << 8) in
    let w2 = bit_or w1 (at mem (p + 2) << 16) in
    let w3 = bit_or w2 (at mem (p + 3) << 24) in (u32 w3, p + 4)

pub get_u64_le : Get
get_u64_le mem p =
    let w1 = bit_or (at mem p) (at mem (p + 1) << 8) in
    let w2 = bit_or w1 (at mem (p + 2) << 16) in
    let w3 = bit_or w2 (at mem (p + 3) << 24) in
    let w4 = bit_or w3 (at mem (p + 4) << 32) in
    let w5 = bit_or w4 (at mem (p + 5) << 40) in
    let w6 = bit_or w5 (at mem (p + 6) << 48) in
    let w7 = bit_or w6 (at mem (p + 7) << 56) in (u64 w7, p + 8)
