-- ===== src/BufferPool/Load.antt =====
-- BP_LoadPage against the view of the pool.
use mathlib.Core.Path.{subst}
use mathlib.Core.Option.{some-injective}
use deconz_lib.Base.{
  ℕ, zero, suc, ◌+◌, ◌<◌, ◌≡◌, refl, sym, ap, ◌∙◌, ◌⊎◌, inl, inr, true, Option, none, some, [],
  arith, u16, ltb, Bool-cases, length, get_or, set,
}
use deconz_lib.BufferPool.{
  FileApi, Page, Pool, find_page, sweep, write_dirty_page, load_at, load_again, load_page,
}
use deconz_lib.BufferPool.View.{IsFile, IsPool, page_at, view-held, find_page_lem, absent, present}
use deconz_lib.BufferPool.Sweep.{set-SameSlots, set-SameDirt, find_page-SameSlots, sweep-SweepKeeps}
use deconz_lib.BufferPool.Write.{IsPool-same, view-same, write_dirty_page-Writes}
use deconz_lib.BufferPool.Dirt.{dirty_count, dirty_count-SameDirt, dirty_count_le}
use deconz_lib.BufferPool.LoadAt.{Loads, Loads-after, Loads-none, load_at-Loads}

Option-cases {ℓ} : {A : Type ℓ} (o : Option A) → (o ≡ none) ⊎ (a : A) × (o ≡ some a)
Option-cases none = inl refl
Option-cases (some a) = inr (a, refl)

module _ {api : FileApi} (law : IsFile api) where
  -- The loop ends when there is more fuel than dirty pages.
  load_again-Loads :
      (fuel p : ℕ) {bp : Pool api}
      → IsPool law bp
      → 0 < length bp.pages
      → dirty_count bp.pages < fuel
      → find_page bp.pages p ≡ none
      → (r : Option ℕ × Pool api) × (load_again api fuel p bp ≡ some r) × Loads law bp p r
  unfolding load_again
  load_again-Loads zero p ok some_slot enough away = absurd (omega arith)
  load_again-Loads (suc fuel) p {bp} ok some_slot enough away =
      let np = bp.n_pages_in_file in
      let s = sweep (length bp.pages) np bp.pages bp.clock_cursor (u16 np) in
      let k = sweep-SweepKeeps (length bp.pages) np bp.pages bp.clock_cursor (u16 np) some_slot in
      let t : Pool api = record bp { pages = s.pages; clock_cursor = s.clock_cursor } in
      let ok' : IsPool law t =
        IsPool-same law ok refl k.slots
          (λ i l d. ok.clean i (sym (k.slots.loaded i) ∙ l) (sym (k.dirt i) ∙ d))
          (λ i d. ok.kept i (sym (k.dirt i) ∙ d)) in
      let same = λ (q : ℕ). view-same law q ok ok' refl k.slots (λ h. refl) in
      let away' = find_page-SameSlots p k.slots away in
      let (w, fewer) = write_dirty_page-Writes law s.dirty_page ok' in
      let t2 = (write_dirty_page api s.dirty_page t).1 in
      let same2 = λ (q : ℕ). w.same q ∙ same q in
      let some_slot' : 0 < length t2.pages = rw (w.slots.size, k.slots.size) some_slot in
      elim (Option-cases s.found) [
        | inr (i, e) ↦
            let (low, dry) = k.stop i e in
            (
              load_at api i p t,
              rw (load_again, e) refl,
              Loads-after law same (load_at-Loads law i p ok' (rw k.slots.size low) dry away'),
            )
        | inl e ↦ elim (Bool-cases (ltb s.dirty_page np)) [
          | inr clean ↦ (
            (none, t),
            rw (load_again, e, clean) refl,
            Loads-after law same (Loads-none law p ok'),
          )
          | inl dirty ↦ elim (Bool-cases (write_dirty_page api s.dirty_page t).0) [
            | inr failed ↦ (
              (none, t2),
              rw (load_again, e, dirty, failed) refl,
              Loads-after law same2 (Loads-none law p w.pool),
            )
            | inl written ↦
                let count = dirty_count-SameDirt bp.pages s.pages k.slots.size k.dirt in
                let (r, same_run, l) =
                  load_again-Loads fuel p w.pool some_slot' (omega (arith, fewer written, count))
                    (find_page-SameSlots p w.slots away') in
                (r, rw (load_again, e, dirty, written) same_run, Loads-after law same2 l)
          ]
        ]
      ]

  -- In a pool with a frame, whatever reads and writes of the file fail, `BP_LoadPage` ends. The pool
  -- then shows the same bytes for every page, and a frame that it returns holds the page and has
  -- its bytes.
  pub load_page-Loads :
      (p : ℕ) {bp : Pool api}
      → IsPool law bp
      → 0 < length bp.pages
      → (r : Option ℕ × Pool api) × (load_page api p bp ≡ some r) × Loads law bp p r
  unfolding load_page
  load_page-Loads p {bp} ok some_slot = elim (find_page_lem bp.pages p) [
    | absent h e ↦
        let (r, same, l) =
          load_again-Loads (length bp.pages + 1) p ok some_slot
            (omega (arith, dirty_count_le bp.pages)) e in
        (r, rw (load_page, e) same, l)
    | present i low held here e ↦
        let g = page_at bp.pages i in
        let g' : Page = record g { accessed = true } in
        let slots = set-SameSlots bp.pages i g' low refl refl refl in
        let dirt = set-SameDirt bp.pages i g' low refl in
        let t : Pool api = record bp { pages = set bp.pages i g' } in
        let pool : IsPool law t =
          IsPool-same law ok refl slots
            (λ j l d. ok.clean j (sym (slots.loaded j) ∙ l) (sym (dirt j) ∙ d))
            (λ j d. ok.kept j (sym (dirt j) ∙ d)) in
        let own : g.frame ≡ i = ok.own i held in
        (
          (some g.frame, t),
          rw (load_page, e) refl,
          record {
            pool = pool;
            same = λ q. view-same law q ok pool refl slots (λ h. refl);
            shown = λ j z.
                ap (λ k. get_or bp.frames k []) (sym (some-injective _ _ z) ∙ own)
                ∙ sym (view-held law i p ok held here);
            held = λ j z.
                subst
                  (λ k.
                    (k < length t.pages)
                    × ((page_at t.pages k).loaded ≡ true)
                    × ((page_at t.pages k).page ≡ p))
                  (sym own ∙ some-injective _ _ z)
                  (rw slots.size low, slots.loaded i ∙ held, slots.page i ∙ here);
          },
        )
  ]
