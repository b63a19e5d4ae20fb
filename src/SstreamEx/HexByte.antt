-- ===== src/SstreamEx/HexByte.antt =====
-- Bytes that `U_sstream_put_hex` wrote, read back by `U_sstream_get_hex_byte`.
use deconz_lib.Base.{
  ℕ, zero, suc, ◌+◌, ◌-◌, ◌*◌, ◌/◌, ◌%◌, ◌^◌, ◌≤◌, ◌<◌, bit_or, ◌≡◌, refl, sym, ◌∙◌, some, List, [],
  ◌∷◌, arith, IsByte, lt→ltb, le→leb, length, get_or, store, All, length-set, length-store, Reads,
  Reads-store, Reads-set, or_fields,
}
use Prim.Native.Nat.{bit_or-bitwise}
use mathlib.Core.Path.{subst}
use deconz_lib.Base.Text.{hex_value-upper}
use deconz_lib.Sstream.{Sstream, memory, IsOpen, seek}
use deconz_lib.Sstream.Put.{put_hex}
use deconz_lib.Sstream.Put.Text.{appended}
use deconz_lib.Sstream.Put.Hex.{hex_digit, hex_text, length-hex_text, put_hex-emit}
use deconz_lib.SstreamEx.{get_hex_loop, get_hex_byte}

-- One round on a digit.
get_hex_round :
    (left r d : ℕ) (m : List ℕ) (ss : Sstream)
    → d < 16
    → r < 16
    → ss.str ≡ some m
    → ss.pos < ss.len
    → ss.len < 2 ^ 32
    → get_or m ss.pos 0 ≡ hex_digit d
    → get_hex_loop (suc left) r ss
      ≡ get_hex_loop left (bit_or (r * 2 ^ 4) d) (record ss { pos = ss.pos + 1 })
unfolding get_hex_loop
get_hex_round left r d m ss h k s room small e = ground (arith, hex_value-upper d h)

get_hex_end : (r : ℕ) (ss : Sstream) → get_hex_loop 0 r ss ≡ (r, ss)
unfolding get_hex_loop
get_hex_end r ss = refl

-- Two digits at the cursor.
get_hex_byte-digits :
    (b : ℕ) (m : List ℕ) (ss : Sstream)
    → IsByte b
    → IsOpen m ss
    → ss.pos + 2 ≤ ss.len
    → Reads m ss.pos (hex_digit (b / 16) ∷ hex_digit (b % 16) ∷ [])
    → get_hex_byte ss ≡ (b, record ss { pos = ss.pos + 2 })
unfolding get_hex_byte
get_hex_byte-digits b m ss h o room d = ground (
  arith,
  get_hex_round 1 0 (b / 16) m ss,
  get_hex_round 0 (b / 16) (b % 16) m (record ss { pos = ss.pos + 1 }),
  get_hex_end (bit_or ((b / 16) * 2 ^ 4) (b % 16)) (record ss { pos = ss.pos + 1 + 1 }),
  or_fields 4 (b / 16) (b % 16),
  bit_or-bitwise 0 (b / 16),
)

-- As many reads as there are bytes.
get_hex_bytes : ℕ → Sstream → List ℕ × Sstream
get_hex_bytes zero ss = ([], ss)
get_hex_bytes (suc n) ss =
    let (b, s1) = get_hex_byte ss in let (bs, s2) = get_hex_bytes n s1 in (b ∷ bs, s2)

get_hex_bytes-text :
    (bs m : List ℕ) (ss : Sstream)
    → All IsByte bs
    → IsOpen m ss
    → ss.pos + 2 * length bs ≤ ss.len
    → Reads m ss.pos (hex_text bs)
    → get_hex_bytes (length bs) ss ≡ (bs, record ss { pos = ss.pos + 2 * length bs })
unfolding get_hex_bytes
get_hex_bytes-text [] m ss h o room d = ground arith
get_hex_bytes-text (b ∷ bs) m ss (hb, h) o room (p, (q, d)) = ground (
  arith,
  get_hex_byte-digits b m ss hb o (omega arith) (p, (q, tt)),
  get_hex_bytes-text bs m (record ss { pos = ss.pos + 2 }) h moved (omega arith) later,
)
  where
    moved : IsOpen m (record ss { pos = ss.pos + 2 })
    moved = ground arith

    shift : ss.pos + 1 + 1 ≡ ss.pos + 2
    shift = omega arith

    later : Reads m (ss.pos + 2) (hex_text bs)
    later = subst (λ k. Reads m k (hex_text bs)) shift d

-- Bytes that were put as hexadecimal text on an open text with room for them and the NUL are read
-- back one by one from where they were put, and the reading stops where the writing did.
get_hex_bytes-put_hex :
    (bs : List ℕ) {m : List ℕ} {ss : Sstream}
    → All IsByte bs
    → IsOpen m ss
    → ss.pos + 2 * length bs < ss.len
    → get_hex_bytes (length bs) (seek ss.pos (put_hex bs ss)) ≡ (bs, put_hex bs ss)
unfolding seek
get_hex_bytes-put_hex bs {m} {ss} h o room =
    subst (λ t. get_hex_bytes (length bs) (seek ss.pos t) ≡ (bs, t)) (sym written)
      (rw (le→leb ss.pos ss.len o.within) (
          get_hex_bytes-text bs t (record (appended m (hex_text bs) ss) { pos = ss.pos }) h again
            (omega arith) spelled)
        ∙ λ i. (bs, record (appended m (hex_text bs) ss) { pos = end i }))
  where
    t : List ℕ
    t = memory (appended m (hex_text bs) ss)

    end : ss.pos + 2 * length bs ≡ ss.pos + length (hex_text bs)
    end = omega (arith, length-hex_text bs)

    written : put_hex bs ss ≡ appended m (hex_text bs) ss
    written =
        put_hex-emit bs h o (omega arith)
        ∙ rw (lt→ltb (length (hex_text bs)) (ss.len - ss.pos) (omega (arith, length-hex_text bs)))

    spelled : Reads t ss.pos (hex_text bs)
    spelled =
        Reads-set (hex_text bs) (store m ss.pos (hex_text bs)) ss.pos
          (ss.pos + length (hex_text bs)) 0 (omega arith)
          (Reads-store (hex_text bs) m ss.pos (omega (arith, length-hex_text bs)))

    again : IsOpen t (record (appended m (hex_text bs) ss) { pos = ss.pos })
    again = ground (
      arith,
      length-set (store m ss.pos (hex_text bs)) (ss.pos + length (hex_text bs)) 0,
      length-store m ss.pos (hex_text bs),
    )
