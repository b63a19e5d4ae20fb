-- ===== src/Sstream/Parse/RoundTrip.antt =====
-- U_sstream_get_long on what U_sstream_put_long appends.
use deconz_lib.Base.{
  ℕ, ◌+◌, ◌-◌, ◌≤◌, ◌<◌, ◌≡◌, refl, ap, ◌∙◌, inr, some, List, ◌++◌, arith, lt→ltb, length, get_or,
  store, length-append, get_or-set_self, length-store, Reads, Reads-store, Reads-set,
}
use deconz_lib.Base.Int.{ℤ, pos, negsuc, InRange}
use deconz_lib.Base.Text.{is_digit}
use deconz_lib.Sstream.{Sstream, memory, IsOpen, seek}
use deconz_lib.Sstream.Put.{put_long, is_negative}
use deconz_lib.Sstream.Put.Text.{appended}
use deconz_lib.Sstream.Put.Decimal.{IsDecimal, magnitude}
use deconz_lib.Sstream.Put.Numbers.{sign, put_long-emit}
use deconz_lib.Sstream.Parse.{limit, apply_sign, get_long, strtol}
use deconz_lib.Sstream.Parse.Strtol.{Ends, strtol-apply_sign}

magnitude-le-limit : (z : ℤ) → InRange 63 z → magnitude z ≤ limit (is_negative z)
magnitude-le-limit (pos n) r = omega arith
magnitude-le-limit (negsuc n) r = omega arith

apply_sign-magnitude : (z : ℤ) → InRange 63 z → apply_sign (is_negative z) (magnitude z) ≡ z
apply_sign-magnitude (pos n) r = ground arith
apply_sign-magnitude (negsuc n) r = ground arith

sign_short : (z : ℤ) → length (sign z) ≤ 1
sign_short (pos n) = omega arith
sign_short (negsuc n) = omega arith

-- What a numeral and the NUL behind it are to the parser.
module _ (z : ℤ) (cs m : List ℕ) (ss : Sstream) (d : IsDecimal 20 (magnitude z) cs)
    (r : InRange 63 z) where
  text_fits :
      IsOpen m ss
      → ss.pos + length (sign z ++ cs) < ss.len
      → strtol (memory (appended m (sign z ++ cs) ss)) ss.pos (ss.len - ss.pos)
        ≡ record { value = z; endp = ss.pos + length (sign z ++ cs); err = 0 }
  text_fits o room = text_at _ refl
    where
      t : List ℕ
      t = memory (appended m (sign z ++ cs) ss)

      spelled : Reads t ss.pos (sign z ++ cs)
      spelled =
          Reads-set (sign z ++ cs) (store m ss.pos (sign z ++ cs)) ss.pos
            (ss.pos + length (sign z ++ cs)) 0 (omega arith)
            (Reads-store (sign z ++ cs) m ss.pos (omega arith))

      nul : get_or t (ss.pos + length (sign z ++ cs)) 0 ≡ 0
      nul =
          get_or-set_self (store m ss.pos (sign z ++ cs)) (ss.pos + length (sign z ++ cs)) 0 0
            (omega (arith, length-store m ss.pos (sign z ++ cs)))

      split : length (sign z ++ cs) ≡ length (sign z) + length cs
      split = length-append (sign z) cs

      ends :
          Ends t
            (ss.pos + length (sign z) + length cs)
            (ss.len - ss.pos - length (sign z) - length cs)
      ends = inr (ap (λ k. is_digit (get_or t k 0)) (omega (arith, split)) ∙ ap is_digit nul)

      text_at :
          (e : ℕ)
          → e ≡ ss.pos + length (sign z ++ cs)
          → strtol t ss.pos (ss.len - ss.pos) ≡ record { value = z; endp = e; err = 0 }
      text_at e q =
          strtol-apply_sign (is_negative z) cs t ss.pos (ss.len - ss.pos) spelled d.digits
            d.some_digit (omega (arith, split)) ends (rw d.value (magnitude-le-limit z r))
          ∙ rw d.value
              (λ i. record { value = apply_sign-magnitude z r i; endp = end_at i; err = 0 })
        where
          end_at : ss.pos + length (sign z) + length cs ≡ e
          end_at = omega (arith, split, q)

  get_long-appended :
      IsOpen m ss
      → ss.pos + length (sign z ++ cs) < ss.len
      → get_long (seek ss.pos (appended m (sign z ++ cs) ss)) ≡ (z, appended m (sign z ++ cs) ss)
  unfolding get_long seek
  get_long-appended o room = ground (arith, text_fits o room)

-- On an open text with room for 21 characters and the NUL, every `long` that is put is read back
-- from where it was put, and the reading stops where the writing did.
pub get_long-put_long :
    (z : ℤ) {m : List ℕ} {ss : Sstream}
    → InRange 63 z
    → IsOpen m ss
    → ss.pos + 21 < ss.len
    → (t : Sstream) × (put_long z ss ≡ some t) × (get_long (seek ss.pos t) ≡ (z, t))
get_long-put_long z {m} {ss} r o room =
    let (cs, d, e) = put_long-emit z r o (omega arith) in
    let small : length (sign z ++ cs) ≤ 21 =
      omega (arith, length-append (sign z) cs, sign_short z, d.short) in
    (
      appended m (sign z ++ cs) ss,
      e ∙ ap some (rw (lt→ltb (length (sign z ++ cs)) (ss.len - ss.pos) (omega arith))),
      get_long-appended z cs m ss d r o (omega arith),
    )
