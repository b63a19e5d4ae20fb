-- ===== src/BufferPool/View.antt =====
-- What a client of the pool sees: for each page number the bytes of the frame that holds the page,
-- or those of the file.
use deconz_lib.Base.{
  ℕ, zero, suc, ◌*◌, ◌^◌, ◌≤◌, ◌<◌, ◌≡◌, refl, sym, ap, ◌∙◌, ◌≢◌, ◌⊎◌, inl, inr, true, false, ◌&&◌,
  none, some, List, [], ◌∷◌, arith, ◌==◌, Bool-cases, length, get_or, set, get_or-set_self,
  get_or-set_ne,
}
use deconz_lib.BufferPool.{FileApi, Page, Pool, no_page, page_size, find_page}

-- Files of pages: `at` is the position of the next read or write, and `block` gives the page of a
-- file by its number.
pub record IsFile (api : FileApi) : Type 0 where
  pub at : api.File → ℕ
  pub block : api.File → ℕ → List ℕ
  pub seek-at : (f : api.File) (o : ℕ) → (api.seek f o).0 ≡ true → at (api.seek f o).1 ≡ o
  pub block-seek : (f : api.File) (o p : ℕ) → block (api.seek f o).1 p ≡ block f p
  pub read-block :
      (f : api.File) (p : ℕ)
      → at f ≡ p * page_size
      → length (api.read f page_size).0 ≡ page_size
      → (api.read f page_size).0 ≡ block f p
  pub length-read : (f : api.File) (n : ℕ) → length (api.read f n).0 ≤ n
  pub block-read : (f : api.File) (n p : ℕ) → block (api.read f n).1 p ≡ block f p
  pub block-write :
      (f : api.File) (p : ℕ) (bytes : List ℕ)
      → at f ≡ p * page_size
      → length bytes ≡ page_size
      → (api.write f bytes).0 ≡ page_size
      → block (api.write f bytes).1 p ≡ bytes
  pub block-write_ne :
      (f : api.File) (p q : ℕ) (bytes : List ℕ)
      → at f ≡ p * page_size
      → length bytes ≡ page_size
      → q ≢ p
      → block (api.write f bytes).1 q ≡ block f q

abbrev pub page_at : List Page → ℕ → Page
page_at pages i = get_or pages i no_page

-- Where a page number is found.
pub data Found (pages : List Page) (pagenum : ℕ) : Type 0 where
  absent :
      ((i : ℕ) → (page_at pages i).loaded ≡ true → (page_at pages i).page ≢ pagenum)
      → find_page pages pagenum ≡ none
      → Found pages pagenum
  present :
      (i : ℕ)
      → i < length pages
      → (page_at pages i).loaded ≡ true
      → (page_at pages i).page ≡ pagenum
      → find_page pages pagenum ≡ some i
      → Found pages pagenum

not_here :
    (g : Page) (gs : List Page) (p : ℕ)
    → ((g.page == p) && g.loaded) ≡ false
    → ((i : ℕ) → (page_at gs i).loaded ≡ true → (page_at gs i).page ≢ p)
    → (i : ℕ) → (page_at (g ∷ gs) i).loaded ≡ true
    → (page_at (g ∷ gs) i).page ≢ p
not_here g gs p other h zero l same = ground (arith, other)
not_here g gs p other h (suc i) l same = h i l same

pub find_page_lem : (pages : List Page) (pagenum : ℕ) → Found pages pagenum
unfolding find_page
find_page_lem [] p = absent (λ i h. cc) refl
find_page_lem (g ∷ gs) p = elim (Bool-cases ((g.page == p) && g.loaded)) [
  | inl here ↦ present 0 (omega arith) (ground (arith, here)) (ground (arith, here)) (rw here refl)
  | inr other ↦ elim (find_page_lem gs p) [
    | absent h e ↦ absent (not_here g gs p other h) (rw (other, e) refl)
    | present i l h same e ↦ present (suc i) (omega arith) h same (rw (other, e) refl)
  ]
]

pub at-set {ℓ} :
    {A : Type ℓ} (xs : List A) (i j : ℕ) (v d : A)
    → i < length xs
    → ((j ≡ i) × (get_or (set xs i v) j d ≡ v))
      ⊎ ((j ≢ i) × (get_or (set xs i v) j d ≡ get_or xs j d))
at-set xs i j v d l = elim (Bool-cases (j == i)) [
  | inl e ↦ let same : j ≡ i = ground (arith, e) in inl (same, rw same (get_or-set_self xs i v d l))
  | inr e ↦
      let other : i ≢ j = λ q. ground (arith, e) in
      inr ((λ q. other (sym q)), get_or-set_ne xs i j v d other)
]

module _ {api : FileApi} (law : IsFile api) where
  -- Each page that is loaded has its own frame, no number is loaded twice, and the frame of a page
  -- that is not dirty has the bytes of the file.
  pub record IsPool (bp : Pool api) : Type 0 where
    pub sizes : length bp.frames ≡ length bp.pages
    pub few : length bp.pages ≤ 2 ^ 16
    pub own : (i : ℕ) → (page_at bp.pages i).loaded ≡ true → (page_at bp.pages i).frame ≡ i
    pub unique :
        (i j : ℕ)
        → (page_at bp.pages i).loaded ≡ true
        → (page_at bp.pages j).loaded ≡ true
        → (page_at bp.pages i).page ≡ (page_at bp.pages j).page
        → i ≡ j
    pub clean :
        (i : ℕ)
        → (page_at bp.pages i).loaded ≡ true
        → (page_at bp.pages i).dirty ≡ false
        → get_or bp.frames i [] ≡ law.block bp.file (page_at bp.pages i).page
    pub kept : (i : ℕ) → (page_at bp.pages i).dirty ≡ true → (page_at bp.pages i).loaded ≡ true
    pub full : (i : ℕ) → i < length bp.frames → length (get_or bp.frames i []) ≡ page_size

  pub view : Pool api → ℕ → List ℕ
  view bp p = elim (find_page bp.pages p) [
    | none ↦ law.block bp.file p
    | some i ↦ get_or bp.frames i []
  ]

  pub view-held :
      {bp : Pool api} (i p : ℕ)
      → IsPool bp
      → (page_at bp.pages i).loaded ≡ true
      → (page_at bp.pages i).page ≡ p
      → view bp p ≡ get_or bp.frames i []
  unfolding view
  view-held {bp} i p ok l same = elim (find_page_lem bp.pages p) [
    | absent h e ↦ absurd (h i l same)
    | present j b l' same' e ↦
        rw (view, e) (ap (λ k. get_or bp.frames k []) (ok.unique j i l' l (same' ∙ sym same)))
  ]

  pub view-absent :
      (bp : Pool api) (p : ℕ) → find_page bp.pages p ≡ none → view bp p ≡ law.block bp.file p
  unfolding view
  view-absent bp p e = rw (view, e) refl

  pub find_page-held :
      {bp : Pool api} (i p : ℕ)
      → IsPool bp
      → (page_at bp.pages i).loaded ≡ true
      → (page_at bp.pages i).page ≡ p
      → find_page bp.pages p ≡ some i
  find_page-held {bp} i p ok l same = elim (find_page_lem bp.pages p) [
    | absent h e ↦ absurd (h i l same)
    | present j b l' same' e ↦ e ∙ ap some (ok.unique j i l' l (same' ∙ sym same))
  ]
