-- ===== src/ZdpDescriptors/Simple/Wire.antt =====
-- The loops over the clusters of a side.
use mathlib.Core.Path.{subst}
use mathlib.Core.List.{map-append, append_assoc, append-nil}
use deconz_lib.Base.{
  ℕ, suc, ◌≡◌, refl, ◌<◌, ◌^◌, Bool, true, false, ◌||◌, List, [], ◌∷◌, ◌++◌, arith, length, map,
  All, lt→ltb, ◌==◌, u8, sym, ap,
}
use deconz_lib.Base.Shift.{bytes_le}
use deconz_lib.DataStream.{StreamApi, IsStream, ◌▸◌, give, put_words}
use deconz_lib.DataStream.Rules.{
  Reads, Writes, Reads-give, Reads-get, Reads->>=, Writes-put, Writes-▸, Writes-put_words,
  word_bytes,
}
use deconz_lib.ZdpDescriptors.Simple.{
  ClusterApi, has_cluster, add_cluster, ended, read_clusters, put_clusters,
}

abbrev pub has_id : List ℕ → ℕ → Bool
has_id [] id = false
has_id (x ∷ xs) id = x == id || has_id xs id

-- No id stands twice, nor among those that were seen before.
abbrev pub NoneTwice : List ℕ → List ℕ → Type 0
NoneTwice seen [] = Unit
NoneTwice seen (id ∷ ids) = (has_id seen id ≡ false) × NoneTwice (seen ++ (id ∷ [])) ids

-- The ids of one side fit their count and the stream.
pub record IsSide (ids : List ℕ) : Type 0 where
  pub few : length ids < 0xff
  pub words : All (λ id. id < 256 ^ 2) ids
  pub distinct : NoneTwice [] ids

module _ (c : ClusterApi) (make : ℕ → c.Cluster) (makes : (id : ℕ) → c.id_of (make id) ≡ id) where
  has_cluster-map : (seen : List ℕ) (id : ℕ) → has_cluster c (map make seen) id ≡ has_id seen id
  unfolding has_cluster
  has_cluster-map [] id = refl
  has_cluster-map (x ∷ seen) id = rw (makes x, has_cluster-map seen id)

  pub map-ids : (ids : List ℕ) → map c.id_of (map make ids) ≡ ids
  map-ids [] = refl
  map-ids (id ∷ ids) = rw (makes id, map-ids ids)

  pub length-map_make : (ids : List ℕ) → length (map make ids) ≡ length ids
  length-map_make [] = refl
  length-map_make (id ∷ ids) = ap suc (length-map_make ids)

  add_cluster-new :
      (seen : List ℕ) (id : ℕ)
      → has_id seen id ≡ false
      → add_cluster c make (map make seen) id ≡ map make (seen ++ (id ∷ []))
  add_cluster-new seen id new =
      rw (has_cluster-map seen id, new) (sym (map-append make seen (id ∷ [])))

  module _ (q : StreamApi) (laws : IsStream q) where
    open q use {Stream, get, put}

    pub Reads-ended : Reads q laws (ended c q) [] false
    Reads-ended = record { run = λ s ts h. (h.1, h) }

    pub Reads-read_clusters :
        (ids seen : List ℕ)
        → All (λ id. id < 256 ^ 2) ids
        → NoneTwice seen ids
        → Reads q laws
            (read_clusters c q (length ids) make (map make seen))
            (word_bytes ids)
            (true, map make (seen ++ ids))
    unfolding read_clusters
    Reads-read_clusters [] seen w n =
        subst
          (λ l.
            Reads q laws {A = Bool × List c.Cluster} (give (true, map make seen)) []
              (true, map make l))
          (sym (append-nil seen)) (Reads-give q laws _)
    Reads-read_clusters (id ∷ ids) seen w n = Reads->>= q laws _ (Reads-get q laws 2 id w.0) (
        Reads->>= q laws _ Reads-ended (
          rw (add_cluster-new seen id n.0) (
            rw (← append_assoc seen (id ∷ []) ids)
              (Reads-read_clusters ids (seen ++ (id ∷ [])) w.1 n.1))))

    pub Writes-put_clusters :
        (ids : List ℕ)
        → length ids < 0xff
        → Writes q laws
            (put_clusters c q (map make ids))
            (bytes_le 1 (length ids) ++ word_bytes ids)
    unfolding put_clusters
    Writes-put_clusters ids few =
        rw (length-map_make ids, lt→ltb (length ids) 0xff few, map-ids ids)
          (subst
            (λ (n : ℕ).
              Writes q laws (put 1 n ▸ put_words q ids) (bytes_le 1 (length ids) ++ word_bytes ids))
            (sym fits)
            (Writes-▸ q laws (Writes-put q laws 1 (length ids)) (Writes-put_words q laws ids)))
      where
        fits : u8 (length ids) ≡ length ids
        fits = omega arith
