-- ===== src/BufferPool/Flush.antt =====
-- BP_MarkPageDirty and BP_Flush against the view of the pool.
use mathlib.Core.Path.{subst}
use deconz_lib.Base.{
  ℕ, zero, suc, ◌+◌, ◌*◌, ◌<◌, ◌≡◌, refl, sym, ap, ◌∙◌, ◌≢◌, inl, inr, true, false, some, List, [],
  arith, ◌==◌, if◌then◌else◌, Bool-cases, length, get_or, set, length-set, ==→eq, eq→==,
  get_or-set_self, get_or-set_ne,
}
use deconz_lib.BufferPool.{
  FileApi, Page, Pool, no_page, page_size, find_page, write_page, write_dirty_page, mark_page_dirty,
  write_and_mark, flush_loop, flush,
}
use deconz_lib.BufferPool.View.{
  IsFile, IsPool, page_at, at-set, view, view-held, find_page-held, view-absent, find_page_lem,
  absent, present,
}
use deconz_lib.BufferPool.Sweep.{SameSlots-trans, set-SameSlots, find_page-SameSlots}
use deconz_lib.BufferPool.Write.{Writes, Writes-refl, write_dirty_page-Writes}

module _ {api : FileApi} (law : IsFile api) where
  -- A client that has the frame of a loaded page writes a whole page to it and marks it: the pool
  -- then shows the new bytes for that page, and the same as before for the others.
  write_and_mark-view :
      (i p : ℕ) (bytes : List ℕ) {bp : Pool api}
      → IsPool law bp
      → i < length bp.pages
      → (page_at bp.pages i).loaded ≡ true
      → (page_at bp.pages i).page ≡ p
      → length bytes ≡ page_size
      → IsPool law (write_and_mark api i p bytes bp)
        × (view law (write_and_mark api i p bytes bp) p ≡ bytes)
        × ((q : ℕ) → q ≢ p → view law (write_and_mark api i p bytes bp) q ≡ view law bp q)
  unfolding write_and_mark mark_page_dirty
  write_and_mark-view i p bytes {bp} ok low held here size =
      let g' : Page = record (page_at bp.pages i) { dirty = true } in
      let fs = set bp.frames i bytes in
      let t : Pool api = record bp { frames = fs; pages = set bp.pages i g' } in
      let inside : i < length bp.frames = rw ok.sizes low in
      let slots = set-SameSlots bp.pages i g' low refl refl refl in
      let mine = get_or-set_self bp.frames i bytes [] inside in
      let others = λ (j : ℕ) (n : j ≢ i). get_or-set_ne bp.frames i j bytes [] (λ e. n (sym e)) in
      let found : find_page bp.pages p ≡ some i = find_page-held law i p ok held here in
      let same_run : write_and_mark api i p bytes bp ≡ t = rw (mark_page_dirty, found) refl in
      let pool : IsPool law t = record {
        sizes = length-set bp.frames i bytes ∙ ok.sizes ∙ sym slots.size;
        few = rw slots.size ok.few;
        own = λ j l. slots.frame j ∙ ok.own j (sym (slots.loaded j) ∙ l);
        unique = λ j k l m h.
            ok.unique j k (sym (slots.loaded j) ∙ l) (sym (slots.loaded k) ∙ m)
              (sym (slots.page j) ∙ h ∙ slots.page k);
        clean = λ j l d. elim (at-set bp.pages i j g' no_page low) [
          | inl (e, v) ↦ let clash : true ≡ false = sym (ap (λ x. x.dirty) v) ∙ d in absurd cc
          | inr (e, v) ↦
              others j e
              ∙ ok.clean j (sym (slots.loaded j) ∙ l) (sym (ap (λ x. x.dirty) v) ∙ d)
              ∙ ap (law.block bp.file) (sym (slots.page j))
        ];
        kept = λ j d. slots.loaded j ∙ elim (at-set bp.pages i j g' no_page low) [
          | inl (e, v) ↦ ap (λ k. (page_at bp.pages k).loaded) e ∙ held
          | inr (e, v) ↦ ok.kept j (sym (ap (λ x. x.dirty) v) ∙ d)
        ];
        full = λ j l. elim (Bool-cases (j == i)) [
          | inl e ↦ ap (λ k. length (get_or fs k [])) (==→eq j i e) ∙ ap length mine ∙ size
          | inr e ↦
              ap length (others j (λ q. ground (arith, e)))
              ∙ ok.full j (subst (λ n. j < n) (length-set bp.frames i bytes) l)
        ];
      } in
      rw same_run (
        pool,
        view-held law i p pool (slots.loaded i ∙ held) (slots.page i ∙ here) ∙ mine,
        λ q n. elim (find_page_lem bp.pages q) [
          | absent h e ↦
              view-absent law t q (find_page-SameSlots q slots e) ∙ sym (view-absent law bp q e)
          | present j lj hj sj e ↦
              view-held law j q pool (slots.loaded j ∙ hj) (slots.page j ∙ sj)
              ∙ others j (λ z. n (sym sj ∙ ap (λ k. (page_at bp.pages k).page) z ∙ here))
              ∙ sym (view-held law j q ok hj sj)
        ],
      )

  -- Seeks that succeed, and writes of all the bytes.
  pub record IsReliable : Type 0 where
    pub seeks : (f : api.File) (o : ℕ) → (api.seek f o).0 ≡ true
    pub writes : (f : api.File) (bytes : List ℕ) → (api.write f bytes).0 ≡ length bytes

  write_dirty_page-cleans :
      (i : ℕ) {bp : Pool api}
      → IsReliable
      → IsPool law bp
      → i < length bp.pages
      → (page_at bp.pages i).dirty ≡ true
      → (write_dirty_page api (page_at bp.pages i).page bp).1.pages
        ≡ set bp.pages i (record (page_at bp.pages i) { dirty = false })
  unfolding write_dirty_page write_page
  write_dirty_page-cleans i {bp} sure ok low dirty =
      let g = page_at bp.pages i in
      let held = ok.kept i dirty in
      let f1 = (api.seek bp.file (g.page * page_size)).1 in
      let in_frame = ap (λ k. get_or bp.frames k []) (ok.own i held) in
      let size : length (get_or bp.frames g.frame []) ≡ page_size =
        ap length in_frame ∙ ok.full i (rw ok.sizes low) in
      let all = eq→== _ page_size (sure.writes f1 (get_or bp.frames g.frame []) ∙ size) in
      rw
        (
          write_dirty_page,
          find_page-held law i g.page ok held refl,
          dirty,
          sure.seeks bp.file (g.page * page_size),
          all,
        )
        refl

  Writes-trans : {a b c : Pool api} → Writes law a b → Writes law b c → Writes law a c
  Writes-trans p q = record {
    pool = q.pool;
    frames = q.frames ∙ p.frames;
    slots = SameSlots-trans p.slots q.slots;
    same = λ r. q.same r ∙ p.same r;
    extent = q.extent ∙ p.extent;
  }

  flush_loop-Writes :
      (n i : ℕ) {bp : Pool api} → IsPool law bp → Writes law bp (flush_loop api n i bp)
  unfolding flush_loop
  flush_loop-Writes zero i ok = Writes-refl law ok
  flush_loop-Writes (suc n) i {bp} ok = elim (Bool-cases (page_at bp.pages i).dirty) [
    | inr clean ↦ rw clean (flush_loop-Writes n (i + 1) ok)
    | inl dirty ↦
        let (w, count) = write_dirty_page-Writes law (page_at bp.pages i).page ok in
        rw dirty (Writes-trans w (flush_loop-Writes n (i + 1) w.pool))
  ]

  flush_loop-next :
      (n i : ℕ) (bp t : Pool api)
      → (if (page_at bp.pages i).dirty
          then (write_dirty_page api (page_at bp.pages i).page bp).1
          else bp)
        ≡ t
      → flush_loop api (suc n) i bp ≡ flush_loop api n (i + 1) t
  unfolding flush_loop
  flush_loop-next n i bp t e = ap (flush_loop api n (i + 1)) e

  flush_loop-clean :
      (n i : ℕ) {bp : Pool api}
      → IsReliable
      → IsPool law bp
      → i + n ≡ length bp.pages
      → ((j : ℕ) → j < i → (page_at bp.pages j).dirty ≡ false)
      → (j : ℕ) → j < length bp.pages
      → (page_at (flush_loop api n i bp).pages j).dirty ≡ false
  flush_loop-clean zero i sure ok e h j l = unfold flush_loop in h j (omega arith)
  flush_loop-clean (suc n) i {bp} sure ok e h j l = elim (Bool-cases (page_at bp.pages i).dirty) [
    | inr clean ↦ rw (flush_loop-next n i bp bp (rw clean refl)) (
        flush_loop-clean n (i + 1) sure ok (omega arith)
          (λ k m. elim (Bool-cases (k == i)) [
            | inl z ↦ ap (λ x. (page_at bp.pages x).dirty) (==→eq k i z) ∙ clean
            | inr z ↦ h k (ground (arith, z))
          ])
          j l)
    | inl dirty ↦
        let t = (write_dirty_page api (page_at bp.pages i).page bp).1 in
        let (w, count) = write_dirty_page-Writes law (page_at bp.pages i).page ok in
        let low : i < length bp.pages = omega (arith, e) in
        let g' : Page = record (page_at bp.pages i) { dirty = false } in
        let cleaned = write_dirty_page-cleans i sure ok low dirty in
        rw (flush_loop-next n i bp t (rw dirty refl)) (
          flush_loop-clean n (i + 1) sure w.pool (omega (arith, e, w.slots.size))
            (λ k m.
              ap (λ ps. (page_at ps k).dirty) cleaned ∙ elim (at-set bp.pages i k g' no_page low) [
                | inl (z, v) ↦ ap (λ x. x.dirty) v
                | inr (z, v) ↦ ap (λ x. x.dirty) v ∙ h k (omega (arith, m, z))
              ])
            j (rw w.slots.size l))
  ]

  -- When the seeks of the file succeed and its writes are complete, `BP_Flush` leaves every page in
  -- the file as the pool showed it before, and the pool shows it unchanged.
  pub flush-file :
      {bp : Pool api} (p : ℕ)
      → IsReliable
      → IsPool law bp
      → (law.block (flush api bp).file p ≡ view law bp p)
        × (view law (flush api bp) p ≡ view law bp p)
  unfolding flush
  flush-file {bp} p sure ok =
      let w = flush_loop-Writes (length bp.pages) 0 ok in
      let clean =
        flush_loop-clean (length bp.pages) 0 sure ok (omega arith) (λ j l. absurd (omega arith)) in
      let t = flush_loop api (length bp.pages) 0 bp in
      let shown : view law t p ≡ law.block t.file p = elim (find_page_lem t.pages p) [
        | absent h e ↦ view-absent law t p e
        | present i l held same e ↦
            view-held law i p w.pool held same
            ∙ w.pool.clean i held (clean i (subst (λ n. i < n) w.slots.size l))
            ∙ ap (law.block t.file) same
      ] in
      (sym shown ∙ w.same p, w.same p)
