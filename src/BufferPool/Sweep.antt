-- ===== src/BufferPool/Sweep.antt =====
-- BP_LoadPage: the round of the clock over the pages.
use mathlib.Core.Path.{subst}
use native.Mathlib.Nat.{mod-lt}
use mathlib.Core.Option.{none-ne-some, some-injective}
use deconz_lib.Base.{
  ℕ, zero, suc, ◌+◌, ◌%◌, ◌<◌, ◌≡◌, refl, sym, ap, ◌∙◌, inl, inr, false, none, some, List, u32,
  ◌==◌, if◌then◌else◌, Bool-cases, length, set, length-set,
}
use deconz_lib.BufferPool.{Page, Swept, no_page, find_page, sweep}
use deconz_lib.BufferPool.View.{page_at, at-set, find_page_lem, absent, present}

-- The slots of `qs` hold the same pages in the same frames as those of `ps`.
pub record SameSlots (ps qs : List Page) : Type 0 where
  pub size : length qs ≡ length ps
  pub frame : (i : ℕ) → (page_at qs i).frame ≡ (page_at ps i).frame
  pub page : (i : ℕ) → (page_at qs i).page ≡ (page_at ps i).page
  pub loaded : (i : ℕ) → (page_at qs i).loaded ≡ (page_at ps i).loaded

pub SameSlots-trans : {ps qs rs : List Page} → SameSlots ps qs → SameSlots qs rs → SameSlots ps rs
SameSlots-trans p q = record {
  size = q.size ∙ p.size;
  frame = λ i. q.frame i ∙ p.frame i;
  page = λ i. q.page i ∙ p.page i;
  loaded = λ i. q.loaded i ∙ p.loaded i;
}

-- A slot is put back with other flags.
pub set-SameSlots :
    (ps : List Page) (i : ℕ) (g : Page)
    → i < length ps
    → g.frame ≡ (page_at ps i).frame
    → g.page ≡ (page_at ps i).page
    → g.loaded ≡ (page_at ps i).loaded
    → SameSlots ps (set ps i g)
set-SameSlots ps i g l ef ep el = record {
  size = length-set ps i g;
  frame = λ j. elim (at-set ps i j g no_page l) [
    | inl (e, v) ↦ ap (λ p. p.frame) v ∙ ef ∙ ap (λ k. (page_at ps k).frame) (sym e)
    | inr (e, v) ↦ ap (λ p. p.frame) v
  ];
  page = λ j. elim (at-set ps i j g no_page l) [
    | inl (e, v) ↦ ap (λ p. p.page) v ∙ ep ∙ ap (λ k. (page_at ps k).page) (sym e)
    | inr (e, v) ↦ ap (λ p. p.page) v
  ];
  loaded = λ j. elim (at-set ps i j g no_page l) [
    | inl (e, v) ↦ ap (λ p. p.loaded) v ∙ el ∙ ap (λ k. (page_at ps k).loaded) (sym e)
    | inr (e, v) ↦ ap (λ p. p.loaded) v
  ];
}

pub find_page-SameSlots :
    {ps qs : List Page} (p : ℕ) → SameSlots ps qs → find_page ps p ≡ none → find_page qs p ≡ none
find_page-SameSlots {ps} {qs} p s e = elim (find_page_lem qs p) [
  | absent h e' ↦ e'
  | present i l held same e' ↦ elim (find_page_lem ps p) [
    | absent h e'' ↦ absurd (h i (sym (s.loaded i) ∙ held) (sym (s.page i) ∙ same))
    | present j l' held' same' e'' ↦ absurd (none-ne-some j (sym e ∙ e''))
  ]
]

abbrev pub SameDirt : List Page → List Page → Type 0
SameDirt ps qs = (i : ℕ) → (page_at qs i).dirty ≡ (page_at ps i).dirty

pub set-SameDirt :
    (ps : List Page) (i : ℕ) (g : Page)
    → i < length ps
    → g.dirty ≡ (page_at ps i).dirty
    → SameDirt ps (set ps i g)
set-SameDirt ps i g l ed j = elim (at-set ps i j g no_page l) [
  | inl (e, v) ↦ ap (λ p. p.dirty) v ∙ ed ∙ ap (λ k. (page_at ps k).dirty) (sym e)
  | inr (e, v) ↦ ap (λ p. p.dirty) v
]

-- The round keeps what the slots hold and which are dirty; it stops at a slot that is not dirty.
pub record SweepKeeps (ps : List Page) (s : Swept) : Type 0 where
  pub slots : SameSlots ps s.pages
  pub dirt : SameDirt ps s.pages
  pub stop : (i : ℕ) → s.found ≡ some i → (i < length ps) × ((page_at s.pages i).dirty ≡ false)

after_touch :
    (ps : List Page) (i : ℕ) (g : Page) (s : Swept)
    → i < length ps
    → g.frame ≡ (page_at ps i).frame
    → g.page ≡ (page_at ps i).page
    → g.loaded ≡ (page_at ps i).loaded
    → g.dirty ≡ (page_at ps i).dirty
    → SweepKeeps (set ps i g) s
    → SweepKeeps ps s
after_touch ps i g s l ef ep el ed k = record {
  slots = SameSlots-trans (set-SameSlots ps i g l ef ep el) k.slots;
  dirt = λ j. k.dirt j ∙ set-SameDirt ps i g l ed j;
  stop = λ j e. (subst (λ n. j < n) (length-set ps i g) (k.stop j e).0, (k.stop j e).1);
}

pub sweep-SweepKeeps :
    (n np : ℕ) (ps : List Page) (cursor dirty : ℕ)
    → 0 < length ps
    → SweepKeeps ps (sweep n np ps cursor dirty)
unfolding sweep
sweep-SweepKeeps zero np ps cursor dirty h = record {
  slots = record { size = refl; frame = λ i. refl; page = λ i. refl; loaded = λ i. refl };
  dirt = λ i. refl;
  stop = λ i e. absurd (none-ne-some i e);
}
sweep-SweepKeeps (suc n) np ps cursor dirty h =
    let i = cursor % length ps in
    let g = page_at ps i in
    let low : i < length ps = mod-lt cursor h in
    elim (Bool-cases g.dirty) [
      | inl d ↦
          rw d
            (sweep-SweepKeeps n np ps (u32 (cursor + 1)) (if dirty == np then g.page else dirty) h)
      | inr d ↦ rw d (elim (Bool-cases g.accessed) [
        | inl a ↦ rw a (
            after_touch ps i (record g { accessed = false; dirty = false }) _ low refl refl refl
              (sym d)
              (sweep-SweepKeeps n np (set ps i (record g { accessed = false; dirty = false }))
                (u32 (cursor + 1)) dirty
                (rw (length-set ps i (record g { accessed = false; dirty = false })) h)))
        | inr a ↦ rw a (record {
          slots = record { size = refl; frame = λ j. refl; page = λ j. refl; loaded = λ j. refl };
          dirt = λ j. refl;
          stop = λ j e.
              let same = some-injective _ _ e in
              (
                subst (λ k. k < length ps) same low,
                subst (λ k. (page_at ps k).dirty ≡ false) same d,
              );
        })
      ])
    ]
