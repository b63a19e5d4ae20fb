-- ===== src/Downloader/Text.antt =====
-- n_downloader.c: the text of a request.
use mathlib.Core.Path.{subst}
use mathlib.Core.List.{append_assoc, append-nil}
use deconz_lib.Base.{
  ℕ, ◌+◌, ◌-◌, ◌<◌, ◌≡◌, refl, sym, ap, ◌∙◌, Bool, true, false, some, List, [], ◌∷◌, ◌++◌, arith,
  ltb, if◌then◌else◌, length, take, replicate, All, length-append, length-replicate, lt→ltb, ltb→lt,
  inl, inr, Bool-cases,
}
use deconz_lib.Base.Text.{IsChar}
use deconz_lib.Sstream.{Sstream, IsOpen, init, memory}
use deconz_lib.Sstream.Put.{put_str}
use deconz_lib.Sstream.Put.Text.{appended, put_str-emit, appended_text, appended-IsOpen}
use deconz_lib.Downloader.{
  get_word, version, host_word, line_end, accept_line, close_line, request_end, request_size,
  request,
}

-- A stream that holds a text, in a buffer of `n` bytes.
record Built (n : ℕ) (t : List ℕ) (ss : Sstream) : Type 0 where
  opened : IsOpen (memory ss) ss
  at : ss.pos ≡ length t
  size : ss.len ≡ n
  text : take ss.pos (memory ss) ≡ t

Built-put_str :
    (n : ℕ) (t s : List ℕ) (ss : Sstream)
    → All IsChar s
    → length t + length s < n
    → Built n t ss
    → Built n (t ++ s) (put_str (some s) ss)
Built-put_str n t s ss cs room b = subst (Built n (t ++ s)) (sym e) (record {
  opened = appended-IsOpen s b.opened fits;
  at = omega (arith, b.at, length-append t s);
  size = b.size;
  text = (appended_text s (memory ss) ss inside).0 ∙ ap (λ l. l ++ s) b.text;
})
  where
    fits : ss.pos + length s < ss.len
    fits = omega (arith, b.at, b.size, room)

    inside : ss.pos + length s < length (memory ss)
    inside = omega (arith, fits, b.opened.fits)

    e : put_str (some s) ss ≡ appended (memory ss) s ss
    e =
        put_str-emit s cs b.opened (omega (arith, fits))
        ∙ (let free : ltb (length s) (ss.len - ss.pos) ≡ true = lt→ltb _ _ (omega (arith, fits)) in
            rw free refl)

abbrev pub put_all : List (List ℕ) → Sstream → Sstream
put_all [] ss = ss
put_all (p ∷ ps) ss = put_all ps (put_str (some p) ss)

abbrev pub joined_texts : List (List ℕ) → List ℕ
joined_texts [] = []
joined_texts (p ∷ ps) = p ++ joined_texts ps

Built-put_all :
    (n : ℕ) (ps : List (List ℕ)) (t : List ℕ) (ss : Sstream)
    → All (All IsChar) ps
    → length t + length (joined_texts ps) < n
    → Built n t ss
    → Built n (t ++ joined_texts ps) (put_all ps ss)
Built-put_all n [] t ss cs room b = subst (λ l. Built n l ss) (sym (append-nil t)) b
Built-put_all n (p ∷ ps) t ss (c, cs) room b =
    let size = length-append p (joined_texts ps) in
    let size' = length-append t p in
    subst (λ l. Built n l (put_all ps (put_str (some p) ss))) (append_assoc t p (joined_texts ps))
      (Built-put_all n ps (t ++ p) (put_str (some p) ss) cs (omega (arith, size, size', room))
        (Built-put_str n t p ss c (omega (arith, size, room)) b))

abbrev pub parts : List ℕ → List ℕ → List (List ℕ)
parts urlpath host =
    get_word ∷ urlpath ∷ version ∷ host_word ∷ host ∷ line_end ∷ accept_line ∷ close_line
    ∷ request_end ∷ []

fresh-Built : Built request_size [] (init (some (replicate request_size 0)) request_size)
unfolding init
fresh-Built = record {
  opened = record {
    over = refl;
    fine = refl;
    fits = omega (arith, length-replicate {A = ℕ} request_size 0);
    small = omega arith;
    within = omega arith;
  };
  at = refl;
  size = refl;
  text = refl;
}

all_chars : List ℕ → Bool
all_chars [] = true
all_chars (c ∷ cs) = if ltb 0 c then all_chars cs else false

all_chars→All : (s : List ℕ) → all_chars s ≡ true → All IsChar s
unfolding all_chars
all_chars→All [] h = tt
all_chars→All (c ∷ cs) h = elim (Bool-cases (ltb 0 c)) [
  | inl b ↦
      (ltb→lt _ _ b, all_chars→All cs (let q : all_chars cs ≡ true = ground (arith, h, b) in q))
  | inr b ↦ let q : false ≡ true = ground (arith, h, b) in absurd cc
]

parts-IsChar :
    (urlpath host : List ℕ)
    → All IsChar urlpath
    → All IsChar host
    → All (All IsChar) (parts urlpath host)
unfolding all_chars
parts-IsChar urlpath host cu ch = (
  all_chars→All get_word refl,
  (
    cu,
    (
      all_chars→All version refl,
      (
        all_chars→All host_word refl,
        (
          ch,
          (
            all_chars→All line_end refl,
            (
              all_chars→All accept_line refl,
              (all_chars→All close_line refl, (all_chars→All request_end refl, tt)),
            ),
          ),
        ),
      ),
    ),
  ),
)

length-parts :
    (urlpath host : List ℕ)
    → length (joined_texts (parts urlpath host)) ≡ length urlpath + length host + 59
length-parts urlpath host =
    let tail = line_end ++ accept_line ++ close_line ++ request_end ++ [] in
    let behind = length-append host tail in
    let front = length-append urlpath (version ++ host_word ++ host ++ tail) in
    omega (arith, behind, front)

-- When the path and the host have together fewer than 965 characters, what stands in the buffer up to
-- the cursor, which is what is sent, is the whole request: the line with the path, the host, the two
-- other fields and the end, in this order.
request-text :
    (urlpath host : List ℕ)
    → All IsChar urlpath
    → All IsChar host
    → length urlpath + length host < 965
    → take (request urlpath host).pos (memory (request urlpath host))
      ≡ joined_texts (parts urlpath host)
unfolding request
request-text urlpath host cu ch room =
    (Built-put_all request_size (parts urlpath host) []
      (init (some (replicate request_size 0)) request_size) (parts-IsChar urlpath host cu ch)
      (omega (arith, room, length-parts urlpath host)) fresh-Built).text
