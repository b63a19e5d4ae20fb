-- ===== src/ZdpDescriptors/Simple/Cut.antt =====
-- A simple descriptor whose bytes end too early is invalid.
use deconz_lib.Base.{
  ℕ, zero, suc, ◌≡◌, false, not, List, arith, if◌then◌else◌, Bool-cases, inl, inr,
}
use deconz_lib.DataStream.{StreamApi, ◌>>=◌, give}
use deconz_lib.ZdpDescriptors.Simple.{
  ClusterApi, SimpleDescriptor, add_cluster, read_clusters, read_out, read_in, read_simple,
}

module _ (c : ClusterApi) (q : StreamApi) where
  open q use {Stream, get, past_end}

  -- The loop fails exactly when it has read past the end.
  read_clusters-ok :
      (n : ℕ) (make : ℕ → c.Cluster) (xs : List c.Cluster) (s : Stream)
      → past_end s ≡ false
      → (read_clusters c q n make xs s).0.0 ≡ not (past_end (read_clusters c q n make xs s).1)
  unfolding read_clusters ◌>>=◌ give
  read_clusters-ok zero make xs s fine = rw fine
  read_clusters-ok (suc n) make xs s fine = elim (Bool-cases (past_end (get 2 s).1)) [
    | inl over ↦ rw (over, over)
    | inr more ↦
        rw more (read_clusters-ok n make (add_cluster c make xs (get 2 s).0) (get 2 s).1 more)
  ]

  -- The endpoint behind a reader that started with `endpoint`, in the status that it left.
  abbrev EndpointBehind : ℕ → SimpleDescriptor c × Stream → Type 0
  EndpointBehind endpoint r = r.0.endpoint ≡ (if past_end r.1 then 0xff else endpoint)

  read_out-endpoint :
      (mfcode : ℕ) (d : SimpleDescriptor c) (s : Stream)
      → EndpointBehind d.endpoint (read_out c q mfcode d s)
  unfolding read_out ◌>>=◌ give
  read_out-endpoint mfcode d s = elim (Bool-cases (past_end (get 1 s).1)) [
    | inl over ↦ rw (over, over)
    | inr more ↦ rw more (
        ground (
          arith,
          read_clusters-ok (get 1 s).0 (λ id. c.out_cluster d.profile_id id mfcode) d.out_clusters
              (get 1 s).1 more,
        ))
  ]

  read_in-endpoint :
      (mfcode : ℕ) (d : SimpleDescriptor c) (s : Stream)
      → EndpointBehind d.endpoint (read_in c q mfcode d s)
  unfolding read_in ◌>>=◌ give
  read_in-endpoint mfcode d s = elim (Bool-cases (past_end (get 1 s).1)) [
    | inl over ↦ rw (over, over)
    | inr more ↦
        let make = λ (id : ℕ). c.in_cluster d.profile_id id mfcode in
        let r = read_clusters c q (get 1 s).0 make d.in_clusters (get 1 s).1 in
        rw more (
          ground (
            arith,
            read_clusters-ok (get 1 s).0 make d.in_clusters (get 1 s).1 more,
            read_out-endpoint mfcode (record d { in_clusters = r.0.1 }) r.1,
          ))
  ]

  -- A descriptor has the endpoint that was read first, unless the stream was read past its end: then
  -- the endpoint is 0xff, which is that of no descriptor.
  pub read_simple-endpoint :
      (mfcode : ℕ) (d : SimpleDescriptor c) (s : Stream)
      → (read_simple c q mfcode d s).0.endpoint
        ≡ (if past_end (read_simple c q mfcode d s).1 then 0xff else (get 1 s).0)
  unfolding read_simple ◌>>=◌
  read_simple-endpoint mfcode d s = read_in-endpoint mfcode _ _
