-- ===== src/BufferPool/Write.antt =====
-- BP_WriteDirtyPage, BP_Flush: pages on their way to the file.
use mathlib.Core.Path.{subst}
use deconz_lib.Base.{
  ℕ, ◌+◌, ◌*◌, ◌<◌, ◌≡◌, refl, sym, ap, ◌∙◌, ◌≢◌, inl, inr, true, false, [], ◌==◌, Bool-cases,
  length, get_or, set, ==→eq,
}
use deconz_lib.BufferPool.{FileApi, Pool, no_page, page_size, write_page, write_dirty_page}
use deconz_lib.BufferPool.View.{
  IsFile, IsPool, page_at, at-set, view, view-held, view-absent, find_page_lem, absent, present,
}
use deconz_lib.BufferPool.Sweep.{SameSlots, set-SameSlots, find_page-SameSlots}
use deconz_lib.BufferPool.Dirt.{dirty_count, dirty_count-clean}

module _ {api : FileApi} (law : IsFile api) where
  -- A step that leaves the frames and what the slots hold.
  pub IsPool-same :
      {bp t : Pool api}
      → IsPool law bp
      → t.frames ≡ bp.frames
      → SameSlots bp.pages t.pages
      → ((i : ℕ)
          → (page_at t.pages i).loaded ≡ true
          → (page_at t.pages i).dirty ≡ false
          → get_or bp.frames i [] ≡ law.block t.file (page_at bp.pages i).page)
      → ((i : ℕ) → (page_at t.pages i).dirty ≡ true → (page_at bp.pages i).loaded ≡ true)
      → IsPool law t
  IsPool-same {bp} {t} ok e s clean kept = record {
    sizes = ap length e ∙ ok.sizes ∙ sym s.size;
    few = rw s.size ok.few;
    own = λ i l. s.frame i ∙ ok.own i (sym (s.loaded i) ∙ l);
    unique = λ i j l m h.
        ok.unique i j (sym (s.loaded i) ∙ l) (sym (s.loaded j) ∙ m) (sym (s.page i) ∙ h ∙ s.page j);
    clean =
        λ i l d. ap (λ fs. get_or fs i []) e ∙ clean i l d ∙ ap (law.block t.file) (sym (s.page i));
    kept = λ i d. s.loaded i ∙ kept i d;
    full =
        λ i l. ap (λ fs. length (get_or fs i [])) e ∙ ok.full i (subst (λ fs. i < length fs) e l);
  }

  pub view-same :
      {bp t : Pool api} (p : ℕ)
      → IsPool law bp
      → IsPool law t
      → t.frames ≡ bp.frames
      → SameSlots bp.pages t.pages
      → (((i : ℕ) → (page_at bp.pages i).loaded ≡ true → (page_at bp.pages i).page ≢ p)
          → law.block t.file p ≡ law.block bp.file p)
      → view law t p ≡ view law bp p
  view-same {bp} {t} p ok ok' e s outside = elim (find_page_lem bp.pages p) [
    | absent h none_found ↦
        view-absent law t p (find_page-SameSlots p s none_found)
        ∙ outside h
        ∙ sym (view-absent law bp p none_found)
    | present i l held same found ↦
        view-held law i p ok' (s.loaded i ∙ held) (s.page i ∙ same)
        ∙ ap (λ fs. get_or fs i []) e
        ∙ sym (view-held law i p ok held same)
  ]

  -- What a write of the page at slot `i` with the number `p` leaves.
  pub record Writes (bp t : Pool api) : Type 0 where
    pub pool : IsPool law t
    pub frames : t.frames ≡ bp.frames
    pub slots : SameSlots bp.pages t.pages
    pub same : (q : ℕ) → view law t q ≡ view law bp q
    pub extent : t.n_pages_in_file ≡ bp.n_pages_in_file

  pub Writes-refl : {bp : Pool api} → IsPool law bp → Writes bp bp
  Writes-refl ok = record {
    pool = ok;
    frames = refl;
    slots = record { size = refl; frame = λ i. refl; page = λ i. refl; loaded = λ i. refl };
    same = λ q. refl;
    extent = refl;
  }

  -- The file changed at the page `p` at most, which slot `i` holds dirty.
  file-Writes :
      {bp : Pool api} (f : api.File) (i p : ℕ)
      → IsPool law bp
      → (page_at bp.pages i).loaded ≡ true
      → (page_at bp.pages i).dirty ≡ true
      → (page_at bp.pages i).page ≡ p
      → ((q : ℕ) → q ≢ p → law.block f q ≡ law.block bp.file q)
      → Writes bp (record bp { file = f })
  file-Writes {bp} f i p ok held dirty same outside =
      let slots : SameSlots bp.pages bp.pages = record {
        size = refl;
        frame = λ j. refl;
        page = λ j. refl;
        loaded = λ j. refl;
      } in
      let t : Pool api = record bp { file = f } in
      let pool : IsPool law t =
        IsPool-same ok refl slots
          (λ j l d.
            ok.clean j l d
            ∙ sym (
                outside _ (λ e.
                  let j_is_i : j ≡ i = ok.unique j i l held (e ∙ sym same) in
                  let clash : false ≡ true =
                    sym d ∙ ap (λ k. (page_at bp.pages k).dirty) j_is_i ∙ dirty in
                  cc)))
          ok.kept in
      record {
        pool = pool;
        frames = refl;
        slots = slots;
        same = λ q. view-same q ok pool refl slots (λ h. outside q (λ e. h i held (same ∙ sym e)));
        extent = refl;
      }

  done-Writes :
      {bp : Pool api} (f : api.File) (i p : ℕ)
      → IsPool law bp
      → i < length bp.pages
      → (page_at bp.pages i).loaded ≡ true
      → (page_at bp.pages i).page ≡ p
      → law.block f p ≡ get_or bp.frames i []
      → ((q : ℕ) → q ≢ p → law.block f q ≡ law.block bp.file q)
      → Writes bp (record bp {
        file = f;
        pages = set bp.pages i (record (page_at bp.pages i) { dirty = false });
      })
  done-Writes {bp} f i p ok low held same written outside =
      let g = record (page_at bp.pages i) { dirty = false } in
      let slots = set-SameSlots bp.pages i g low refl refl refl in
      let t : Pool api = record bp { file = f; pages = set bp.pages i g } in
      let pool : IsPool law t =
        IsPool-same ok refl slots
          (λ j l d. elim (at-set bp.pages i j g no_page low) [
            | inl (e, v) ↦
                ap (λ k. get_or bp.frames k []) e
                ∙ sym written
                ∙ ap (law.block f) (sym same ∙ ap (λ k. (page_at bp.pages k).page) (sym e))
            | inr (e, v) ↦
                let l' : (page_at bp.pages j).loaded ≡ true = sym (ap (λ x. x.loaded) v) ∙ l in
                ok.clean j l' (sym (ap (λ x. x.dirty) v) ∙ d)
                ∙ sym (outside _ (λ e'. e (ok.unique j i l' held (e' ∙ sym same))))
          ])
          (λ j d. elim (at-set bp.pages i j g no_page low) [
            | inl (e, v) ↦ ap (λ k. (page_at bp.pages k).loaded) e ∙ held
            | inr (e, v) ↦ ok.kept j (sym (ap (λ x. x.dirty) v) ∙ d)
          ]) in
      record {
        pool = pool;
        frames = refl;
        slots = slots;
        same = λ q. view-same q ok pool refl slots (λ h. outside q (λ e. h i held (same ∙ sym e)));
        extent = refl;
      }

  pub write_page-Writes :
      (i p : ℕ) {bp : Pool api}
      → IsPool law bp
      → i < length bp.pages
      → (page_at bp.pages i).loaded ≡ true
      → (page_at bp.pages i).page ≡ p
      → Writes bp (write_page api i p bp).1
  unfolding write_page
  write_page-Writes i p {bp} ok low held same =
      let g = page_at bp.pages i in
      let f1 = (api.seek bp.file (p * page_size)).1 in
      let bytes = get_or bp.frames g.frame [] in
      let in_frame : bytes ≡ get_or bp.frames i [] =
        ap (λ k. get_or bp.frames k []) (ok.own i held) in
      let size : length bytes ≡ page_size = ap length in_frame ∙ ok.full i (rw ok.sizes low) in
      elim (Bool-cases g.dirty) [
        | inr d ↦ rw d (Writes-refl ok)
        | inl d ↦ rw d (elim (Bool-cases (api.seek bp.file (p * page_size)).0) [
          | inr s ↦
              rw s (
                file-Writes f1 i p ok held d same (λ q n. law.block-seek bp.file (p * page_size) q))
          | inl s ↦
              let at : law.at f1 ≡ p * page_size = law.seek-at bp.file (p * page_size) s in
              let others = λ (q : ℕ) (n : q ≢ p).
                law.block-write_ne f1 p q bytes at size n
                ∙ law.block-seek bp.file (p * page_size) q in
              rw s (elim (Bool-cases ((api.write f1 bytes).0 == page_size)) [
                | inr n ↦ rw n (file-Writes (api.write f1 bytes).1 i p ok held d same others)
                | inl n ↦ rw n (
                    done-Writes (api.write f1 bytes).1 i p ok low held same
                      (law.block-write f1 p bytes at size (==→eq _ _ n) ∙ in_frame) others)
              ])
        ])
      ]

  pub write_page-count :
      (i p : ℕ) (bp : Pool api)
      → i < length bp.pages
      → (write_page api i p bp).0 ≡ true
      → dirty_count (write_page api i p bp).1.pages + 1 ≡ dirty_count bp.pages
  unfolding write_page
  write_page-count i p bp low =
      let g = page_at bp.pages i in
      let f1 = (api.seek bp.file (p * page_size)).1 in
      let bytes = get_or bp.frames g.frame [] in
      elim (Bool-cases g.dirty) [
        | inr d ↦ rw d (λ (z : false ≡ true). cc)
        | inl d ↦ rw d (elim (Bool-cases (api.seek bp.file (p * page_size)).0) [
          | inr s ↦ rw s (λ (z : false ≡ true). cc)
          | inl s ↦ rw s (elim (Bool-cases ((api.write f1 bytes).0 == page_size)) [
            | inr n ↦ rw n (λ (z : false ≡ true). cc)
            | inl n ↦
                rw n (λ z. dirty_count-clean bp.pages i (record g { dirty = false }) low d refl)
          ])
        ])
      ]

  pub write_dirty_page-Writes :
      (p : ℕ) {bp : Pool api}
      → IsPool law bp
      → Writes bp (write_dirty_page api p bp).1
        × ((write_dirty_page api p bp).0 ≡ true
            → dirty_count (write_dirty_page api p bp).1.pages + 1 ≡ dirty_count bp.pages)
  unfolding write_dirty_page
  write_dirty_page-Writes p {bp} ok = elim (find_page_lem bp.pages p) [
    | absent h e ↦
        rw (write_dirty_page, e) (Writes-refl ok, λ z. let clash : false ≡ true = z in absurd cc)
    | present i low held same e ↦
        rw (write_dirty_page, e)
          (write_page-Writes i p ok low held same, write_page-count i p bp low)
  ]
