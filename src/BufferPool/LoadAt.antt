-- ===== src/BufferPool/LoadAt.antt =====
-- BP_LoadPage: the page that is read into a frame.
use mathlib.Core.Path.{subst}
use mathlib.Core.Option.{none-ne-some, some-injective}
use deconz_lib.Base.{
  ℕ, ◌*◌, ◌<◌, ◌≡◌, refl, sym, ap, ◌∙◌, ◌≢◌, inl, inr, true, false, Option, none, some, [], ◌++◌,
  arith, u16, ◌==◌, Bool-cases, length, get_or, set, drop, length-set, length-append, ==→eq,
  get_or-set_self, get_or-set_ne,
}
use deconz_lib.BufferPool.{FileApi, Page, Pool, no_page, page_size, find_page, load_at}
use deconz_lib.BufferPool.View.{IsFile, IsPool, page_at, view, view-absent}
use deconz_lib.BufferPool.Evict.{length-drop, append-empty, after-IsPool, after-view}

module _ {api : FileApi} (law : IsFile api) where
  -- A load of the page `p`: the pool shows the same pages, and a frame that is returned has the
  -- bytes of the page `p`.
  pub record Loads (bp : Pool api) (p : ℕ) (r : Option ℕ × Pool api) : Type 0 where
    pub pool : IsPool law r.1
    pub same : (q : ℕ) → view law r.1 q ≡ view law bp q
    pub shown : (i : ℕ) → r.0 ≡ some i → get_or r.1.frames i [] ≡ view law bp p
    pub held :
        (i : ℕ)
        → r.0 ≡ some i
        → (i < length r.1.pages)
          × ((page_at r.1.pages i).loaded ≡ true)
          × ((page_at r.1.pages i).page ≡ p)

  -- After steps that show the same pages.
  pub Loads-after :
      {bp t : Pool api} {p : ℕ} {r : Option ℕ × Pool api}
      → ((q : ℕ) → view law t q ≡ view law bp q)
      → Loads t p r
      → Loads bp p r
  Loads-after {bp} {t} {p} {r} e k = record {
    pool = k.pool;
    same = λ q. k.same q ∙ e q;
    shown = λ i h. k.shown i h ∙ e p;
    held = k.held;
  }

  pub Loads-none : {bp : Pool api} (p : ℕ) → IsPool law bp → Loads bp p (none, bp)
  Loads-none p ok = record {
    pool = ok;
    same = λ q. refl;
    shown = λ i e. absurd (none-ne-some i e);
    held = λ i e. absurd (none-ne-some i e);
  }

  pub load_at-Loads :
      (i p : ℕ) {bp : Pool api}
      → IsPool law bp
      → i < length bp.pages
      → (page_at bp.pages i).dirty ≡ false
      → find_page bp.pages p ≡ none
      → Loads bp p (load_at api i p bp)
  unfolding load_at
  load_at-Loads i p {bp} ok low dry away =
      let f1 = (api.seek bp.file (p * 4096)).1 in
      let bytes = (api.read f1 page_size).0 in
      let f2 = (api.read f1 page_size).1 in
      let old = get_or bp.frames i [] in
      let fs = set bp.frames i (bytes ++ drop (length bytes) old) in
      let inside : i < length bp.frames = rw ok.sizes low in
      let sought = λ (q : ℕ). law.block-seek bp.file (p * 4096) q in
      let files = λ (q : ℕ). law.block-read f1 page_size q ∙ sought q in
      let mine : get_or fs i [] ≡ bytes ++ drop (length bytes) old =
        get_or-set_self bp.frames i _ [] inside in
      let others = λ (j : ℕ) (n : j ≢ i).
        get_or-set_ne bp.frames i j (bytes ++ drop (length bytes) old) [] (λ e. n (sym e)) in
      let sized : length (get_or fs i []) ≡ page_size =
        ap length mine
        ∙ omega (
          arith,
          length-append bytes (drop (length bytes) old),
          length-drop (length bytes) old,
          ok.full i inside,
          law.length-read f1 page_size,
        ) in
      let extent = length-set bp.frames i (bytes ++ drop (length bytes) old) in
      elim (Bool-cases (api.seek bp.file (p * 4096)).0) [
        | inr s ↦ rw s (record {
          pool =
              after-IsPool law ok i p low dry away f1 bp.frames false sought refl (λ j n. refl)
                (ok.full i inside) (λ (z : false ≡ true). cc);
          same =
              after-view law ok i p low dry away f1 bp.frames false sought refl (λ j n. refl)
                (ok.full i inside) (λ (z : false ≡ true). cc);
          shown = λ j e. absurd (none-ne-some j e);
          held = λ j e. absurd (none-ne-some j e);
        })
        | inl s ↦ rw s (elim (Bool-cases (length bytes == page_size)) [
          | inr n ↦ rw n (record {
            pool =
                after-IsPool law ok i p low dry away f2 fs false files extent others sized
                  (λ (z : false ≡ true). cc);
            same =
                after-view law ok i p low dry away f2 fs false files extent others sized
                  (λ (z : false ≡ true). cc);
            shown = λ j e. absurd (none-ne-some j e);
            held = λ j e. absurd (none-ne-some j e);
          })
          | inl n ↦
              let whole = ==→eq (length bytes) page_size n in
              let g : Page = record no_page { frame = u16 i; page = p; loaded = true } in
              let slot = get_or-set_self bp.pages i g no_page low in
              let rest : length (drop (length bytes) old) ≡ 0 =
                omega (arith, length-drop (length bytes) old, ok.full i inside, whole) in
              let filled : get_or fs i [] ≡ law.block bp.file p =
                mine
                ∙ append-empty bytes (drop (length bytes) old) rest
                ∙ law.read-block f1 p (law.seek-at bp.file (p * 4096) s) whole
                ∙ sought p in
              rw n (record {
                pool =
                    after-IsPool law ok i p low dry away f2 fs true files extent others sized
                      (λ z. filled);
                same =
                    after-view law ok i p low dry away f2 fs true files extent others sized
                      (λ z. filled);
                shown = λ j e.
                    ap (λ k. get_or fs k []) (sym (some-injective _ _ e))
                    ∙ filled
                    ∙ sym (view-absent law bp p away);
                held = λ j e.
                    subst
                      (λ k.
                        (k < length (set bp.pages i g))
                        × ((page_at (set bp.pages i g) k).loaded ≡ true)
                        × ((page_at (set bp.pages i g) k).page ≡ p))
                      (some-injective _ _ e)
                      (
                        rw (length-set bp.pages i g) low,
                        ap (λ x. x.loaded) slot,
                        ap (λ x. x.page) slot,
                      );
              })
        ])
      ]
