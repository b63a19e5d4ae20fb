-- ===== src/SstreamEx.antt =====
-- u_sstream_ex.c: MAC addresses, hexadecimal bytes and UTF-8 over the string stream.
pub mod Mac
pub mod MacParse
pub mod HexByte
pub mod Utf8
pub mod Valid
mod Tests
use deconz_lib.Base.{
  ℕ, zero, suc, ◌+◌, bit_and, bit_or, Bool, true, false, not, ◌&&◌, Option, none, some, List, u8,
  u32, u64, sub_u32, ◌<<◌, ◌>>◌, ltb, ◌==◌, if◌then◌else◌, get_or,
}
use deconz_lib.Base.Text.{hex_table_lower, hex_value}
use deconz_lib.Sstream.{
  Sstream, is_ok, err_range, err_invalid, err_no_space, fail, memory, put_here, put_char,
}

-- Round `i` of the loop of `U_sstream_put_mac_address`, with `8 - i` rounds to go.
pub put_mac_loop : ℕ → ℕ → ℕ → Sstream → Sstream
put_mac_loop zero i mac ss = ss
put_mac_loop (suc left) i mac ss =
    let nib = bit_and (mac >> 56) 0xff in
    let s1 = put_char (get_or hex_table_lower (bit_and nib 0xf0 >> 4) 0) ss in
    let s2 = put_char (get_or hex_table_lower (bit_and nib 0x0f) 0) s1 in
    put_mac_loop left (i + 1) (u64 (mac << 8)) (if ltb i 7 then put_char b':' s2 else s2)

-- The status is not looked at.
unfoldable pub put_mac_address : ℕ → Sstream → Sstream
unfolding put_mac_loop
put_mac_address mac ss =
    if ltb (sub_u32 ss.len ss.pos) 24
    then fail err_no_space ss
    else put_here 0 (put_mac_loop 8 0 mac ss)

-- `ch == ':' && colon_mask & (1 << i)`
abbrev pub colon_here : ℕ → ℕ → Bool
colon_here ch i = ch == b':' && not (bit_and 0x124924 (1 << i) == 0)

-- Round `i` of the loop of `U_sstream_get_mac_address`, with `left` rounds to go.
unfoldable pub get_mac_loop : ℕ → ℕ → ℕ → Sstream → ℕ × Sstream
get_mac_loop zero i result ss = (result, ss)
get_mac_loop (suc left) i result ss =
    let ch = get_or (memory ss) ss.pos 0 in
    let moved = record ss { pos = u32 (ss.pos + 1) } in
    elim (hex_value ch) [
      | some v ↦ get_mac_loop left (i + 1) (u64 (u64 (result << 4) + bit_and v 0xf)) moved
      | none ↦ elim (colon_here ch i) [
        | true ↦ get_mac_loop left (i + 1) result moved
        | false ↦ (0, fail err_invalid moved)
      ]
    ]

unfoldable pub get_mac_address : Sstream → ℕ × Sstream
get_mac_address ss =
    if is_ok ss.status
    then (if ltb (sub_u32 ss.len ss.pos) 23 then (0, fail err_range ss) else get_mac_loop 23 0 0 ss)
    else (0, ss)

-- The loop of `U_sstream_get_hex_byte`, with `left` rounds to go.
unfoldable pub get_hex_loop : ℕ → ℕ → Sstream → ℕ × Sstream
get_hex_loop zero result ss = (result, ss)
get_hex_loop (suc left) result ss =
    if ltb ss.pos ss.len
    then elim (hex_value (get_or (memory ss) ss.pos 0)) [
      | some v ↦
          get_hex_loop left (bit_or (u8 (result << 4)) v) (record ss { pos = u32 (ss.pos + 1) })
      | none ↦ (result, ss)
    ]
    else (result, ss)

unfoldable pub get_hex_byte : Sstream → ℕ × Sstream
get_hex_byte ss = if is_ok ss.status then get_hex_loop 2 0 ss else (0, ss)

-- `cp <<= 6; cp |= (unsigned)*text & 0x3F;`
abbrev pub continue_with : ℕ → ℕ → ℕ
continue_with b cp = bit_or (u32 (cp << 6)) (bit_and b 0x3f)

-- `U_sstream_utf8_codepoint` on the text at an index: the code point and the index behind it.
-- What stands behind the memory reads as NUL.
unfoldable pub utf8_codepoint : List ℕ → ℕ → ℕ × ℕ
utf8_codepoint m t =
    let b = bit_and (get_or m t 0) 0xff in
    let b1 = get_or m (t + 1) 0 in
    let b2 = get_or m (t + 2) 0 in
    let b3 = get_or m (t + 3) 0 in
    if bit_and b 0x80 == 0
    then (b, t + 1)
    else if bit_and b 0xe0 == 0xc0 && not (b1 == 0)
    then (continue_with b1 (bit_and b 0x1f), t + 2)
    else if bit_and b 0xf0 == 0xe0 && not (b1 == 0) && not (b2 == 0)
    then (continue_with b2 (continue_with b1 (bit_and b 0x0f)), t + 3)
    else if bit_and b 0xf8 == 0xf0 && not (b1 == 0) && not (b2 == 0) && not (b3 == 0)
    then (continue_with b3 (continue_with b2 (continue_with b1 (bit_and b 0x07))), t + 4)
    else (0xfffd, t + 1)

-- The loop of `U_sstream_is_valid_utf8`: `none` is out of fuel.
pub valid_loop : ℕ → List ℕ → ℕ → ℕ → Option Bool
valid_loop zero m len t = none
valid_loop (suc fuel) m len t =
    let rest = valid_loop fuel m len (utf8_codepoint m t).1 in
    if ltb t len
    then if (utf8_codepoint m t).0 == 0xfffd
      then some false
      else if (utf8_codepoint m t).0 == 0
      then some true
      else rest
    else some true

-- Each round goes on by one byte at least, so `len + 1` rounds are enough.
unfoldable pub is_valid_utf8 : Sstream → Option Bool
unfolding valid_loop utf8_codepoint
is_valid_utf8 ss =
    if is_ok ss.status && not (ss.len == 0)
    then valid_loop (ss.len + 1) (memory ss) ss.len 0
    else some false
