-- ===== src/DataStream/Rules.antt =====
-- What readers and writers do to the bytes of a stream, composed along `>>=`.
use native.Mathlib.Nat.{pow-suc}
use mathlib.Core.Path.{subst}
use mathlib.Core.List.{append_assoc, append-nil}
use deconz_lib.Base.{
  Bool, true, false, if◌then◌else◌, ℕ, zero, suc, ◌≡◌, refl, false, List, [], ◌∷◌, ◌++◌, ◌<◌, ◌≤◌,
  ◌^◌, ◌/◌, arith, length, All, IsByte, ◌∙◌, sym, ap,
}
use deconz_lib.Base.Shift.{bytes_le, value_le, length-bytes_le}
use deconz_lib.DataStream.{
  StreamApi, IsStream, is_empty, Reader, ◌>>=◌, ◌▸◌, give, unless_end, read_all, read_n, read_up_to,
  status_ok, put_all, put_words,
}

pub value_le-bytes_le : (n v : ℕ) → v < 256 ^ n → value_le (bytes_le n v) ≡ v
value_le-bytes_le zero v h = omega arith
value_le-bytes_le (suc n) v h =
    omega (arith, pow-suc 256 n, value_le-bytes_le n (v / 256) (omega (arith, pow-suc 256 n)))

-- The bytes of words of 16 bits.
abbrev pub word_bytes : List ℕ → List ℕ
word_bytes [] = []
word_bytes (w ∷ ws) = bytes_le 2 w ++ word_bytes ws

one_byte : (b : ℕ) → IsByte b → bytes_le 1 b ≡ b ∷ []
one_byte b h = ap (λ (t : ℕ). t ∷ []) (omega arith)

module _ (q : StreamApi) (laws : IsStream q) where
  open q use {Stream, get, put, past_end}
  open laws use {rest, written}

  -- The bytes left to read are `bs`, and nothing was read past the end.
  abbrev pub At : Stream → List ℕ → Type 0
  At s bs = (rest s ≡ bs) × (past_end s ≡ false)

  -- At bytes that start with `bs`, `m` takes these and gives `a`.
  pub record Reads {A : Type 0} (m : Reader Stream A) (bs : List ℕ) (a : A) : Type 0 where
    pub run : (s : Stream) (ts : List ℕ) → At s (bs ++ ts) → ((m s).0 ≡ a) × At (m s).1 ts

  -- At the bytes `bs` and no more, `m` takes all and gives `a`.
  pub record ReadsAll {A : Type 0} (m : Reader Stream A) (bs : List ℕ) (a : A) : Type 0 where
    pub run : (s : Stream) → At s bs → ((m s).0 ≡ a) × At (m s).1 []

  pub record Writes (w : Stream → Stream) (bs : List ℕ) : Type 0 where
    pub run : (s : Stream) → written (w s) ≡ written s ++ bs

  pub Reads-give : {A : Type 0} (a : A) → Reads (give a) [] a
  unfolding give
  Reads-give a = record { run = λ s ts h. (refl, h) }

  get-bytes :
      (n v : ℕ) (s : Stream) (ts : List ℕ)
      → v < 256 ^ n
      → At s (bytes_le n v ++ ts)
      → ((get n s).0 ≡ v) × At (get n s).1 ts
  get-bytes n v s ts fits h =
      let bs : List ℕ = bytes_le n v in
      let value = laws.get_value s bs ts h.0 in
      let left = laws.get_rest s bs ts h.0 in
      let status = laws.get_status s bs ts h.0 in
      let k : length bs ≡ n = length-bytes_le n v in
      (
        ap (λ (l : ℕ). (get l s).0) (sym k) ∙ value ∙ value_le-bytes_le n v fits,
        (
          ap (λ (l : ℕ). rest (get l s).1) (sym k) ∙ left,
          ap (λ (l : ℕ). past_end (get l s).1) (sym k) ∙ status ∙ h.1,
        ),
      )

  pub Reads-get : (n v : ℕ) → v < 256 ^ n → Reads (get n) (bytes_le n v) v
  Reads-get n v fits = record { run = λ s ts h. get-bytes n v s ts fits h }

  pub Reads-byte : (b : ℕ) → IsByte b → Reads (get 1) (b ∷ []) b
  Reads-byte b h = subst (λ bs. Reads (get 1) bs b) (one_byte b h) (Reads-get 1 b h)

  module _ {A B : Type 0} {m : Reader Stream A} (k : A → Reader Stream B) {a : A} {b : B}
      {bs cs : List ℕ} where
    pub Reads->>= : Reads m bs a → Reads (k a) cs b → Reads (m >>= k) (bs ++ cs) b
    unfolding ◌>>=◌
    Reads->>= first next = record {
      run = λ s ts h.
          let one = first.run s (cs ++ ts) (h.0 ∙ append_assoc bs cs ts, h.1) in
          subst (λ x. ((k x (m s).1).0 ≡ b) × At (k x (m s).1).1 ts) (sym one.0)
            (next.run (m s).1 ts one.1);
    }

    pub ReadsAll->>= : Reads m bs a → ReadsAll (k a) cs b → ReadsAll (m >>= k) (bs ++ cs) b
    unfolding ◌>>=◌
    ReadsAll->>= first next = record {
      run = λ s h.
          let one = first.run s cs h in
          subst (λ x. ((k x (m s).1).0 ≡ b) × At (k x (m s).1).1 []) (sym one.0)
            (next.run (m s).1 one.1);
    }

  -- A reader of all bytes may be the first, where the next ones take none.
  pub ReadsAll-end :
      {A B : Type 0} {m : Reader Stream A} (k : A → Reader Stream B) {a : A} {b : B} {bs : List ℕ}
      → ReadsAll m bs a
      → Reads (k a) [] b
      → ReadsAll (m >>= k) bs b
  unfolding ◌>>=◌
  ReadsAll-end {m} k {b} first next = record {
    run = λ s h.
        let one = first.run s h in
        subst (λ x. ((k x (m s).1).0 ≡ b) × At (k x (m s).1).1 []) (sym one.0)
          (next.run (m s).1 [] one.1);
  }

  pub Reads-unless_end :
      {A : Type 0} (e : A) {m : Reader Stream A} {b : ℕ} {bs : List ℕ} {a : A}
      → Reads m (b ∷ bs) a
      → Reads (unless_end q e m) (b ∷ bs) a
  unfolding unless_end
  Reads-unless_end e r = record {
    run = λ s ts h. rw (laws.at_end_lem s ∙ ap is_empty h.0) (r.run s ts h);
  }

  pub ReadsAll-unless_end :
      {A : Type 0} (e : A) {m : Reader Stream A} {b : ℕ} {bs : List ℕ} {a : A}
      → ReadsAll m (b ∷ bs) a
      → ReadsAll (unless_end q e m) (b ∷ bs) a
  unfolding unless_end
  ReadsAll-unless_end e r = record {
    run = λ s h. rw (laws.at_end_lem s ∙ ap is_empty h.0) (r.run s h);
  }

  pub ReadsAll-give : {A : Type 0} (a : A) → ReadsAll (give a) [] a
  unfolding give
  ReadsAll-give a = record { run = λ s h. (refl, h) }

  -- A field that a test announces.
  pub ReadsAll-if :
      {A : Type 0} (test : Bool) {m n : Reader Stream A} {bs cs : List ℕ} {a : A}
      → (test ≡ true → ReadsAll m bs a)
      → (test ≡ false → ReadsAll n cs a)
      → ReadsAll (if test then m else n) (if test then bs else cs) a
  ReadsAll-if true h k = h refl
  ReadsAll-if false h k = k refl

  read_all-bytes :
      (n : ℕ) (bs : List ℕ) (s : Stream)
      → length bs ≤ n
      → All IsByte bs
      → At s bs
      → ((read_all q n s).0 ≡ bs) × At (read_all q n s).1 []
  unfolding read_all
  read_all-bytes zero [] s l h here = (refl, here)
  read_all-bytes zero (b ∷ bs) s l h here = absurd (omega arith)
  read_all-bytes (suc n) [] s l h here = rw (laws.at_end_lem s ∙ ap is_empty here.0) (refl, here)
  read_all-bytes (suc n) (b ∷ bs) s l h here =
      let one = (Reads-byte b h.0).run s bs here in
      let more = read_all-bytes n bs (get 1 s).1 (omega arith) h.1 one.1 in
      rw (laws.at_end_lem s ∙ ap is_empty here.0) (cc (one.0, more.0), more.1)

  pub ReadsAll-read_all :
      (n : ℕ) (bs : List ℕ) → length bs ≤ n → All IsByte bs → ReadsAll (read_all q n) bs bs
  ReadsAll-read_all n bs l h = record { run = λ s here. read_all-bytes n bs s l h here }

  pub Reads-read_n : (bs : List ℕ) → All IsByte bs → Reads (read_n q (length bs)) bs bs
  unfolding read_n
  Reads-read_n [] h = Reads-give []
  Reads-read_n (b ∷ bs) h = Reads->>= _ (Reads-byte b h.0) (
      subst (λ l. Reads (read_n q (length bs) >>= λ t. give (b ∷ t)) l (b ∷ bs)) (append-nil bs)
        (Reads->>= _ (Reads-read_n bs h.1) (Reads-give (b ∷ bs))))

  up_to-bytes :
      (bs : List ℕ) (s : Stream) (ts : List ℕ)
      → All IsByte bs
      → At s (bs ++ ts)
      → ((read_up_to q (length bs) s).0 ≡ bs) × At (read_up_to q (length bs) s).1 ts
  unfolding read_up_to
  up_to-bytes [] s ts h here = (refl, here)
  up_to-bytes (b ∷ bs) s ts h here =
      let one = (Reads-byte b h.0).run s (bs ++ ts) here in
      let more = up_to-bytes bs (get 1 s).1 ts h.1 one.1 in
      rw (laws.at_end_lem s ∙ ap is_empty here.0) (cc (one.0, more.0), more.1)

  pub Reads-read_up_to : (bs : List ℕ) → All IsByte bs → Reads (read_up_to q (length bs)) bs bs
  Reads-read_up_to bs h = record { run = λ s ts here. up_to-bytes bs s ts h here }

  pub Reads-status_ok : Reads (status_ok q) [] true
  Reads-status_ok = record { run = λ s ts h. (rw (h.1), h) }

  pub Writes-put : (n v : ℕ) → Writes (put n v) (bytes_le n v)
  Writes-put n v = record { run = λ s. laws.put_lem s n v }

  pub Writes-▸ :
      {w v : Stream → Stream} {bs cs : List ℕ}
      → Writes w bs
      → Writes v cs
      → Writes (w ▸ v) (bs ++ cs)
  unfolding ◌▸◌
  Writes-▸ {w} {v} {bs} {cs} h k = record {
    run = λ s. k.run (w s) ∙ ap (λ l. l ++ cs) (h.run s) ∙ append_assoc (written s) bs cs;
  }

  pub Writes-none : Writes (λ s. s) []
  Writes-none = record { run = λ s. sym (append-nil (written s)) }

  put_all-bytes :
      (bs : List ℕ) (s : Stream) → All IsByte bs → written (put_all q bs s) ≡ written s ++ bs
  unfolding put_all
  put_all-bytes [] s h = sym (append-nil (written s))
  put_all-bytes (b ∷ bs) s h =
      put_all-bytes bs (put 1 b s) h.1
      ∙ ap (λ l. l ++ bs) (laws.put_lem s 1 b ∙ ap (λ l. written s ++ l) (one_byte b h.0))
      ∙ append_assoc (written s) (b ∷ []) bs

  pub Writes-put_all : (bs : List ℕ) → All IsByte bs → Writes (put_all q bs) bs
  Writes-put_all bs h = record { run = λ s. put_all-bytes bs s h }

  put_words-bytes :
      (ws : List ℕ) (s : Stream) → written (put_words q ws s) ≡ written s ++ word_bytes ws
  unfolding put_words
  put_words-bytes [] s = sym (append-nil (written s))
  put_words-bytes (w ∷ ws) s =
      put_words-bytes ws (put 2 w s)
      ∙ ap (λ l. l ++ word_bytes ws) (laws.put_lem s 2 w)
      ∙ append_assoc (written s) (bytes_le 2 w) (word_bytes ws)

  pub Writes-put_words : (ws : List ℕ) → Writes (put_words q ws) (word_bytes ws)
  Writes-put_words ws = record { run = λ s. put_words-bytes ws s }
