-- ===== src/SstreamEx/MacParse.antt =====
-- Reading a MAC address: the texts that are written, and others that are accepted.
use deconz_lib.Base.{
  ℕ, zero, suc, ◌+◌, ◌-◌, ◌*◌, ◌/◌, ◌%◌, ◌^◌, ◌≤◌, ◌<◌, ◌≡◌, refl, sym, ap, ◌∙◌, true, none, some,
  List, [], ◌∷◌, arith, IsByte, le→ltb, length, get_or, store, All, Reads, Reads-store, Reads-set,
  bit_and_ones,
}
use mathlib.Core.Path.{subst}
use deconz_lib.Base.Text.{hex_value, hex_value-lower}
use deconz_lib.Sstream.{Sstream, memory, IsOpen, seek}
use deconz_lib.Sstream.Put.Text.{appended}
use deconz_lib.SstreamEx.{colon_here, get_mac_loop, get_mac_address, put_mac_address}
use deconz_lib.SstreamEx.Mac.{nibble, octet_text, octets, mac_text, put_mac_address-emit}

-- The number of bytes written most significant first, behind `r`.
abbrev pub big_endian : ℕ → List ℕ → ℕ
big_endian r [] = r
big_endian r (b ∷ bs) = big_endian (r * 256 + b) bs

le-big_endian : (bs : List ℕ) (r : ℕ) → r ≤ big_endian r bs
le-big_endian [] r = omega arith
le-big_endian (b ∷ bs) r = omega (arith, le-big_endian bs (r * 256 + b))

-- Two hexadecimal digits make a byte, in a word that has room for it.
get_pair :
    (left i r b : ℕ) (m : List ℕ) (ss : Sstream)
    → ss.str ≡ some m
    → ss.pos + 2 < 2 ^ 32
    → IsByte b
    → r * 256 + b < 2 ^ 64
    → Reads m ss.pos (nibble (b / 16) ∷ nibble (b % 16) ∷ [])
    → get_mac_loop (suc (suc left)) i r ss
      ≡ get_mac_loop left (i + 2) (r * 256 + b) (record ss { pos = ss.pos + 2 })
unfolding get_mac_loop
get_pair left i r b m ss s room h fits d = ground (
  arith,
  hex_value-lower (b / 16),
  hex_value-lower (b % 16),
  bit_and_ones 4 (b / 16),
  bit_and_ones 4 (b % 16),
)

hex_value-colon : hex_value b':' ≡ none
unfolding hex_value
hex_value-colon = refl

-- A colon is passed over where the mask allows one.
get_colon :
    (left i r : ℕ) (m : List ℕ) (ss : Sstream)
    → ss.str ≡ some m
    → ss.pos + 1 < 2 ^ 32
    → get_or m ss.pos 0 ≡ b':'
    → colon_here b':' i ≡ true
    → get_mac_loop (suc left) i r ss ≡ get_mac_loop left (i + 1) r (record ss { pos = ss.pos + 1 })
unfolding get_mac_loop
get_colon left i r m ss s room c mask = ground (arith, hex_value-colon)

-- The mask has a bit behind each of the first seven pairs.
colon_mask : (k : ℕ) → k < 7 → colon_here b':' (3 * k + 2) ≡ true
colon_mask zero h = refl
colon_mask (suc zero) h = refl
colon_mask (suc (suc zero)) h = refl
colon_mask (suc (suc (suc zero))) h = refl
colon_mask (suc (suc (suc (suc zero)))) h = refl
colon_mask (suc (suc (suc (suc (suc zero))))) h = refl
colon_mask (suc (suc (suc (suc (suc (suc zero)))))) h = refl
colon_mask (suc (suc (suc (suc (suc (suc (suc k))))))) h = absurd (omega arith)

get_octets :
    (b : ℕ) (bs : List ℕ) (k r i left : ℕ) (m : List ℕ) (ss : Sstream)
    → k + suc (length bs) ≡ 8
    → i ≡ 3 * k
    → left ≡ 3 * length bs + 2
    → ss.str ≡ some m
    → ss.pos + 3 * length bs + 2 < 2 ^ 32
    → All IsByte (b ∷ bs)
    → big_endian r (b ∷ bs) < 2 ^ 64
    → Reads m ss.pos (octet_text (b ∷ bs))
    → get_mac_loop left i r ss
      ≡ (big_endian r (b ∷ bs), record ss { pos = ss.pos + 3 * length bs + 2 })
get_octets b [] k r i left m ss e ik l s room (h, hs) fits d =
    let two : left ≡ 2 = omega arith in
    rw two (get_pair 0 i r b m ss s (omega arith) h fits d ∙ unfold get_mac_loop in ground arith)
get_octets b (c ∷ bs) k r i left m ss e ik l s room (h, hs) fits (p, (q, (colon, d))) =
    let more : left ≡ suc (suc (suc (3 * length bs + 2))) = omega arith in
    let behind : (i + 2 ≡ 3 * k + 2) = omega arith in
    let at : ss.pos + 1 + 1 ≡ ss.pos + 2 = omega arith in
    rw more (
      get_pair (suc (3 * length bs + 2)) i r b m ss s (omega arith) h
        (omega (arith, le-big_endian (c ∷ bs) (r * 256 + b))) (p, (q, tt))
      ∙ get_colon (3 * length bs + 2) (i + 2) (r * 256 + b) m (record ss { pos = ss.pos + 2 }) s
          (omega arith) (subst (λ j. get_or m j 0 ≡ b':') at colon)
          (rw behind (colon_mask k (omega arith)))
      ∙ get_octets c bs (suc k) (r * 256 + b) (i + 2 + 1) (3 * length bs + 2) m
          (record ss { pos = ss.pos + 2 + 1 }) (omega arith) (omega arith) refl s (omega arith) hs
          fits (subst (λ j. Reads m j (octet_text (c ∷ bs))) (omega arith) d)
      ∙ ground arith)

octets-value : (w : ℕ) → w < 2 ^ 64 → big_endian 0 (octets 8 w) ≡ w
octets-value w h = omega arith

octets-IsByte : (n w : ℕ) → w < 2 ^ 64 → All IsByte (octets n w)
octets-IsByte zero w h = tt
octets-IsByte (suc n) w h = (omega arith, octets-IsByte n (w * 256 % 2 ^ 64) (omega arith))

-- What stands between the guards of the reader and its loop, for a text of 23 characters.
get_appended :
    (text m : List ℕ) (v : ℕ) (ss : Sstream)
    → length text ≡ 23
    → IsOpen m ss
    → ss.pos + 24 ≤ ss.len
    → get_mac_loop 23 0 0 (record (appended m text ss) { pos = ss.pos }) ≡ (v, appended m text ss)
    → get_mac_address (seek ss.pos (appended m text ss)) ≡ (v, appended m text ss)
unfolding get_mac_address seek
get_appended text m v ss size o room e = ground arith

length-octets : (b : ℕ) (bs : List ℕ) → length (octet_text (b ∷ bs)) ≡ 3 * length bs + 2
length-octets b [] = refl
length-octets b (c ∷ bs) = omega (arith, length-octets c bs)

read_octets :
    (bs m : List ℕ) (ss : Sstream)
    → length bs ≡ 8
    → All IsByte bs
    → big_endian 0 bs < 2 ^ 64
    → IsOpen m ss
    → ss.pos + 24 ≤ ss.len
    → get_mac_address (seek ss.pos (appended m (octet_text bs) ss))
      ≡ (big_endian 0 bs, appended m (octet_text bs) ss)
read_octets [] m ss e h fits o room = absurd (omega arith)
read_octets (b ∷ bs) m ss e h fits o room =
    get_appended (octet_text (b ∷ bs)) m (big_endian 0 (b ∷ bs)) ss
      (omega (arith, length-octets b bs)) o room
      (get_octets b bs 0 0 0 23 t (record (appended m (octet_text (b ∷ bs)) ss) { pos = ss.pos })
          (omega arith) (omega arith) (omega arith) refl (omega arith) h fits spelled
        ∙ λ i.
            (big_endian 0 (b ∷ bs), record (appended m (octet_text (b ∷ bs)) ss) { pos = end i }))
  where
    t : List ℕ
    t = memory (appended m (octet_text (b ∷ bs)) ss)

    spelled : Reads t ss.pos (octet_text (b ∷ bs))
    spelled =
        Reads-set (octet_text (b ∷ bs)) (store m ss.pos (octet_text (b ∷ bs))) ss.pos
          (ss.pos + length (octet_text (b ∷ bs))) 0 (omega arith)
          (Reads-store (octet_text (b ∷ bs)) m ss.pos (omega (arith, length-octets b bs)))

    end : ss.pos + 3 * length bs + 2 ≡ ss.pos + length (octet_text (b ∷ bs))
    end = omega (arith, length-octets b bs)

-- An address that `U_sstream_put_mac_address` wrote to an open text with room for it is read back
-- from where it was written by `U_sstream_get_mac_address`.
get_mac-put_mac :
    (mac : ℕ) {m : List ℕ} {ss : Sstream}
    → mac < 2 ^ 64
    → IsOpen m ss
    → ss.pos + 24 ≤ ss.len
    → get_mac_address (seek ss.pos (put_mac_address mac ss)) ≡ (mac, put_mac_address mac ss)
get_mac-put_mac mac {m} {ss} b o room =
    subst (λ t. get_mac_address (seek ss.pos t) ≡ (mac, t)) (sym written)
      (read_octets (octets 8 mac) m ss refl (octets-IsByte 8 mac b)
          (omega (arith, octets-value mac b)) o room
        ∙ ap (λ v. (v, appended m (mac_text mac) ss)) (octets-value mac b))
  where
    written : put_mac_address mac ss ≡ appended m (mac_text mac) ss
    written = put_mac_address-emit mac b o ∙ rw (le→ltb (ss.len - ss.pos) 24 (omega arith))
