-- ===== src/BufferPool/Evict.antt =====
-- BP_LoadPage: the pool behind a slot that is given to another page.
use mathlib.Core.Path.{subst}
use mathlib.Core.List.{append-nil}
use mathlib.Core.Option.{none-ne-some}
use deconz_lib.Base.{
  ℕ, zero, suc, ◌-◌, ◌<◌, ◌≡◌, refl, sym, ap, ◌∙◌, ◌≢◌, inl, inr, Bool, true, false, none, List, [],
  ◌∷◌, ◌++◌, arith, u16, ◌==◌, Bool-cases, length, get_or, set, drop, length-set, ==→eq,
}
use deconz_lib.BufferPool.{FileApi, Page, Pool, no_page, page_size, find_page}
use deconz_lib.BufferPool.View.{
  IsFile, IsPool, page_at, at-set, view, view-held, view-absent, find_page_lem, absent, present,
}

pub length-drop {ℓ} : {A : Type ℓ} (n : ℕ) (xs : List A) → length (drop n xs) ≡ length xs - n
length-drop zero xs = omega arith
length-drop (suc n) [] = omega arith
length-drop (suc n) (x ∷ xs) = length-drop n xs ∙ omega arith

length-zero {ℓ} : {A : Type ℓ} (xs : List A) → length xs ≡ 0 → xs ≡ []
length-zero [] e = refl
length-zero (x ∷ xs) e = absurd (omega (arith, e))

pub append-empty {ℓ} : {A : Type ℓ} (xs ys : List A) → length ys ≡ 0 → xs ++ ys ≡ xs
append-empty xs ys e = ap (λ zs. xs ++ zs) (length-zero ys e) ∙ append-nil xs

module _ {api : FileApi} (law : IsFile api) where
  -- The slot `i`, with no dirty page, is given to the page `p`, which no slot holds.
  module _ {bp : Pool api} (ok : IsPool law bp) (i p : ℕ) (low : i < length bp.pages)
      (dry : (page_at bp.pages i).dirty ≡ false) (away : find_page bp.pages p ≡ none) (f : api.File)
      (fs : List (List ℕ)) (b : Bool) (files : (q : ℕ) → law.block f q ≡ law.block bp.file q)
      (extent : length fs ≡ length bp.frames)
      (others : (j : ℕ) → j ≢ i → get_or fs j [] ≡ get_or bp.frames j [])
      (sized : length (get_or fs i []) ≡ page_size)
      (filled : b ≡ true → get_or fs i [] ≡ law.block bp.file p) where
    abbrev pub slot : Page
    slot = record no_page { frame = u16 i; page = p; loaded = b }

    abbrev pub after : Pool api
    after = record bp { file = f; frames = fs; pages = set bp.pages i slot }

    not_held : (j : ℕ) → (page_at bp.pages j).loaded ≡ true → (page_at bp.pages j).page ≢ p
    not_held j l same = elim (find_page_lem bp.pages p) [
      | absent h e ↦ h j l same
      | present k lk hk sk e ↦ none-ne-some k (sym away ∙ e)
    ]

    pub after-IsPool : IsPool law after
    after-IsPool = record {
      sizes = extent ∙ ok.sizes ∙ sym (length-set bp.pages i slot);
      few = rw (length-set bp.pages i slot) ok.few;
      own = λ j l. elim (at-set bp.pages i j slot no_page low) [
        | inl (e, v) ↦ ap (λ g. g.frame) v ∙ omega (arith, low, ok.few) ∙ sym e
        | inr (e, v) ↦ ap (λ g. g.frame) v ∙ ok.own j (sym (ap (λ g. g.loaded) v) ∙ l)
      ];
      unique = λ j k l m h. elim (at-set bp.pages i j slot no_page low) [
        | inl (e, v) ↦ elim (at-set bp.pages i k slot no_page low) [
          | inl (e', v') ↦ e ∙ sym e'
          | inr (e', v') ↦ absurd (
              not_held k (sym (ap (λ g. g.loaded) v') ∙ m)
                (sym (ap (λ g. g.page) v') ∙ sym h ∙ ap (λ g. g.page) v))
        ]
        | inr (e, v) ↦ elim (at-set bp.pages i k slot no_page low) [
          | inl (e', v') ↦ absurd (
              not_held j (sym (ap (λ g. g.loaded) v) ∙ l)
                (sym (ap (λ g. g.page) v) ∙ h ∙ ap (λ g. g.page) v'))
          | inr (e', v') ↦
              ok.unique j k (sym (ap (λ g. g.loaded) v) ∙ l) (sym (ap (λ g. g.loaded) v') ∙ m)
                (sym (ap (λ g. g.page) v) ∙ h ∙ ap (λ g. g.page) v')
        ]
      ];
      clean = λ j l d. elim (at-set bp.pages i j slot no_page low) [
        | inl (e, v) ↦
            ap (λ k. get_or fs k []) e
            ∙ filled (sym (ap (λ g. g.loaded) v) ∙ l)
            ∙ sym (files p)
            ∙ ap (law.block f) (sym (ap (λ g. g.page) v))
        | inr (e, v) ↦
            others j e
            ∙ ok.clean j (sym (ap (λ g. g.loaded) v) ∙ l) (sym (ap (λ g. g.dirty) v) ∙ d)
            ∙ sym (files _)
            ∙ ap (law.block f) (sym (ap (λ g. g.page) v))
      ];
      kept = λ j d. elim (at-set bp.pages i j slot no_page low) [
        | inl (e, v) ↦ let clash : false ≡ true = sym (ap (λ g. g.dirty) v) ∙ d in absurd cc
        | inr (e, v) ↦ ap (λ g. g.loaded) v ∙ ok.kept j (sym (ap (λ g. g.dirty) v) ∙ d)
      ];
      full = λ j l. elim (Bool-cases (j == i)) [
        | inl e ↦ ap (λ k. length (get_or fs k [])) (==→eq j i e) ∙ sized
        | inr e ↦
            ap length (others j (λ q. ground (arith, e))) ∙ ok.full j (subst (λ n. j < n) extent l)
      ];
    }

    -- In the new slots a page is at slot `i`, which now is `p`, or where it was.
    data Now (j : ℕ) : Type 0 where
      here : j ≡ i → (page_at after.pages j).page ≡ p → (page_at after.pages j).loaded ≡ b → Now j
      there :
          j ≢ i
          → (page_at after.pages j).page ≡ (page_at bp.pages j).page
          → (page_at after.pages j).loaded ≡ (page_at bp.pages j).loaded
          → Now j

    now : (j : ℕ) → Now j
    now j = elim (at-set bp.pages i j slot no_page low) [
      | inl (e, v) ↦ here e (ap (λ g. g.page) v) (ap (λ g. g.loaded) v)
      | inr (e, v) ↦ there e (ap (λ g. g.page) v) (ap (λ g. g.loaded) v)
    ]

    view_in : (q : ℕ) → find_page bp.pages q ≡ none → view law after q ≡ view law bp q
    view_in q e = elim (find_page_lem after.pages q) [
      | absent h' e' ↦ view-absent law after q e' ∙ files q ∙ sym (view-absent law bp q e)
      | present k lk held same e' ↦ elim (now k) [
        | here at g m ↦
            let p_is_q : p ≡ q = sym g ∙ same in
            view-held law k q after-IsPool held same
            ∙ ap (λ n. get_or fs n []) at
            ∙ filled (sym m ∙ held)
            ∙ ap (law.block bp.file) p_is_q
            ∙ sym (view-absent law bp q e)
        | there at g m ↦ elim (find_page_lem bp.pages q) [
          | absent h e'' ↦ absurd (h k (sym m ∙ held) (sym g ∙ same))
          | present j lj held' same' e'' ↦ absurd (none-ne-some j (sym e ∙ e''))
        ]
      ]
    ]

    view_out :
        (j q : ℕ)
        → (page_at bp.pages j).loaded ≡ true
        → (page_at bp.pages j).page ≡ q
        → j ≡ i
        → view law after q ≡ view law bp q
    view_out j q held same j_is_i =
        let dry' : (page_at bp.pages j).dirty ≡ false =
          ap (λ k. (page_at bp.pages k).dirty) j_is_i ∙ dry in
        let old : view law bp q ≡ law.block bp.file q =
          view-held law j q ok held same ∙ ok.clean j held dry' ∙ ap (law.block bp.file) same in
        elim (find_page_lem after.pages q) [
          | absent h' e' ↦ view-absent law after q e' ∙ files q ∙ sym old
          | present k lk held' same' e' ↦ elim (now k) [
            | here at g m ↦ absurd (not_held j held (same ∙ sym same' ∙ g))
            | there at g m ↦
                absurd (at (ok.unique k j (sym m ∙ held') held (sym g ∙ same' ∙ sym same) ∙ j_is_i))
          ]
        ]

    pub after-view : (q : ℕ) → view law after q ≡ view law bp q
    after-view q = elim (find_page_lem bp.pages q) [
      | absent h e ↦ view_in q e
      | present j lj held same e ↦ elim (now j) [
        | here at g m ↦ view_out j q held same at
        | there at g m ↦
            view-held law j q after-IsPool (m ∙ held) (g ∙ same)
            ∙ others j at
            ∙ sym (view-held law j q ok held same)
      ]
    ]
