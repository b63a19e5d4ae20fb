-- ===== src/ZdpDescriptors/Node/Wire.antt =====
-- A node descriptor is read from its 13 bytes, or is none.
use mathlib.Core.Path.{subst}
use deconz_lib.Base.{
  ℕ, zero, suc, ◌≡◌, refl, ◌<◌, ◌+◌, Bool, true, false, List, [], ◌∷◌, ◌++◌, arith, length, get_or,
  set, take, store, replicate, All, IsByte, take-store, length-store, ◌∙◌, sym, ap,
}
use deconz_lib.BufferHelper.{get_u16_le}
use deconz_lib.DataStream.{StreamApi, IsStream, is_empty, ◌>>=◌, give}
use deconz_lib.DataStream.Rules.{At, Reads-byte}
use deconz_lib.ZdpDescriptors.Node.{
  NodeDescriptor, raw_size, unknown_device, type_of, read_raw, read_node,
}

take-all : (bs : List ℕ) → take (length bs) bs ≡ bs
take-all [] = refl
take-all (b ∷ bs) = ap (λ t. b ∷ t) (take-all bs)

store-all : (xs bs : List ℕ) → length bs ≡ length xs → store xs 0 bs ≡ bs
store-all xs bs e =
    let k : 0 + length bs ≡ length (store xs 0 bs) = omega (arith, length-store {A = ℕ} xs 0 bs) in
    sym (take-all (store xs 0 bs))
    ∙ ap (λ (n : ℕ). take n (store xs 0 bs)) (sym k)
    ∙ take-store bs xs 0 (omega arith)

one_more : (i : ℕ) → suc i ≡ i + 1
one_more i = omega arith

-- What 13 bytes say of a node.
abbrev pub described : List ℕ → NodeDescriptor → NodeDescriptor
described bs d = record d {
  raw = bs;
  is_null = false;
  device_type = type_of (get_or bs 0 0);
  server_mask = (get_u16_le bs 8).0;
}

-- A descriptor without bytes.
abbrev pub undescribed : NodeDescriptor → NodeDescriptor
undescribed d = record d {
  raw = replicate raw_size 0;
  is_null = true;
  device_type = unknown_device;
}

module _ (q : StreamApi) (laws : IsStream q) where
  open q use {Stream, get, at_end}
  open laws use {rest}

  read_raw-bytes :
      (bs : List ℕ) (i : ℕ) (d : NodeDescriptor) (s : Stream) (ts : List ℕ)
      → All IsByte bs
      → At q laws s (bs ++ ts)
      → ((read_raw q (length bs) i d s).0 ≡ (true, record d { raw = store d.raw i bs }))
        × At q laws (read_raw q (length bs) i d s).1 ts
  unfolding read_raw ◌>>=◌
  read_raw-bytes [] i d s ts h here = (refl, here)
  read_raw-bytes (b ∷ bs) i d s ts h here =
      let one = (Reads-byte q laws b h.0).run s (bs ++ ts) here in
      let more =
        read_raw-bytes bs (suc i) (record d { raw = set d.raw i b }) (get 1 s).1 ts h.1 one.1 in
      let next =
        λ (x k : ℕ). read_raw q (length bs) k (record d { raw = set d.raw i x }) (get 1 s).1 in
      let goal : Bool × NodeDescriptor = (true, record d { raw = store d.raw i (b ∷ bs) }) in
      rw (laws.at_end_lem s ∙ ap is_empty here.0) (
        subst (λ (x : ℕ). ((next x (i + 1)).0 ≡ goal) × At q laws (next x (i + 1)).1 ts) (sym one.0)
          (subst (λ (k : ℕ). ((next b k).0 ≡ goal) × At q laws (next b k).1 ts) (one_more i) more))

  read_raw-short :
      (n i : ℕ) (d : NodeDescriptor) (s : Stream) (bs : List ℕ)
      → rest s ≡ bs
      → length bs < n
      → (read_raw q n i d s).0
        ≡ (false, record d { raw = replicate raw_size 0; device_type = unknown_device })
  unfolding read_raw ◌>>=◌
  read_raw-short zero i d s bs e h = absurd (omega arith)
  read_raw-short (suc n) i d s [] e h = rw (laws.at_end_lem s ∙ ap is_empty e)
  read_raw-short (suc n) i d s (b ∷ bs) e h = rw (laws.at_end_lem s ∙ ap is_empty e) (
      read_raw-short n (i + 1) (record d { raw = set d.raw i (get 1 s).0 }) (get 1 s).1 bs
        (laws.get_rest s (b ∷ []) bs e) (omega arith))

  -- Where there are fewer than 13 bytes, the descriptor is null, its device type unknown and its
  -- bytes are 0; the server mask is the one of before.
  pub read_node-short :
      (d : NodeDescriptor) (t : Stream)
      → length (rest t) < raw_size
      → (read_node q d t).0 ≡ undescribed d
  unfolding read_node ◌>>=◌ give
  read_node-short d t h =
      rw (read_raw-short raw_size 0 (record d { is_null = true }) t (rest t) refl h)

  -- From 13 bytes a descriptor has these bytes, the device type that the first of them tells and the
  -- server mask of the ninth and tenth, and the bytes behind them are left.
  pub read_node-bytes :
      (d : NodeDescriptor) (t : Stream) (bs ts : List ℕ)
      → length d.raw ≡ raw_size
      → length bs ≡ raw_size
      → All IsByte bs
      → At q laws t (bs ++ ts)
      → ((read_node q d t).0 ≡ described bs d) × At q laws (read_node q d t).1 ts
  unfolding read_node ◌>>=◌ give
  read_node-bytes d t bs ts old size h here =
      let run = λ (n : ℕ). read_raw q n 0 (record d { is_null = true }) t in
      let r = read_raw-bytes bs 0 (record d { is_null = true }) t ts h here in
      let all = store-all d.raw bs (size ∙ sym old) in
      let read : (run raw_size).0 ≡ (true, record d { is_null = true; raw = bs }) =
        ap (λ (n : ℕ). (run n).0) (sym size)
        ∙ r.0
        ∙ ap (λ l. (true, record d { is_null = true; raw = l })) all in
      (rw read, subst (λ (n : ℕ). At q laws (run n).1 ts) size r.1)
