-- ===== src/ZdpDescriptors/Simple.antt =====
-- zdp_descriptors.cpp: `SimpleDescriptor`, the clusters of an endpoint. The ZCL data base, which makes
-- a cluster of its id, is the parameter `ClusterApi`.
pub mod Cut
pub mod RoundTrip
pub mod Wire
use deconz_lib.Base.{
  ℕ, ◌≡◌, zero, suc, Bool, true, false, not, List, [], ◌∷◌, ◌++◌, length, map, bit_and, ltb, ◌==◌,
  ◌||◌, if◌then◌else◌, u8,
}
use deconz_lib.DataStream.{StreamApi, Reader, ◌>>=◌, ◌▸◌, give, put_words}

-- `ZclCluster::id`, `ZclDataBase::inCluster` and `outCluster` of profile, id and manufacturer.
pub record ClusterApi : Type 1 where
  pub Cluster : Type 0
  pub id_of : Cluster → ℕ
  pub in_cluster : ℕ → ℕ → ℕ → Cluster
  pub out_cluster : ℕ → ℕ → ℕ → Cluster

-- The data base gives a cluster of the id that is asked for.
pub record IsClusterApi (c : ClusterApi) : Type 0 where
  pub id-in_cluster : (profile id mfcode : ℕ) → c.id_of (c.in_cluster profile id mfcode) ≡ id
  pub id-out_cluster : (profile id mfcode : ℕ) → c.id_of (c.out_cluster profile id mfcode) ≡ id

module _ (c : ClusterApi) where
  open c use {Cluster, id_of, in_cluster, out_cluster}

  -- `SimpleDescriptorPrivate`
  pub record SimpleDescriptor : Type 0 where
    pub endpoint : ℕ
    pub profile_id : ℕ
    pub device_id : ℕ
    pub device_version : ℕ
    pub in_clusters : List Cluster
    pub out_clusters : List Cluster

  abbrev pub no_descriptor : SimpleDescriptor
  no_descriptor = record {
    endpoint = 0xff;
    profile_id = 0;
    device_id = 0;
    device_version = 0;
    in_clusters = [];
    out_clusters = [];
  }

  -- `SimpleDescriptor::isValid`
  abbrev pub is_valid_descriptor : SimpleDescriptor → Bool
  is_valid_descriptor d = not (d.endpoint == 0xff)

  -- `SimpleDescriptor::cluster` on the clusters of one side: whether one is found.
  pub has_cluster : List Cluster → ℕ → Bool
  has_cluster [] id = false
  has_cluster (x ∷ xs) id = id_of x == id || has_cluster xs id

  abbrev pub add_cluster : (ℕ → Cluster) → List Cluster → ℕ → List Cluster
  add_cluster make xs id = if has_cluster xs id then xs else xs ++ (make id ∷ [])

  abbrev pub invalid : SimpleDescriptor → SimpleDescriptor
  invalid d = record d { endpoint = 0xff }

  module _ (q : StreamApi) where
    open q use {Stream, get, put, past_end}

    -- `status() == QDataStream::ReadPastEnd`
    abbrev pub ended : Reader Stream Bool
    ended s = (past_end s, s)

    -- The loops over the clusters of a side: whether they reached the end, and the clusters.
    pub read_clusters : ℕ → (ℕ → Cluster) → List Cluster → Reader Stream (Bool × List Cluster)
    read_clusters zero make xs = give (true, xs)
    read_clusters (suc n) make xs = get 2 >>= λ id.
        ended >>= λ e. if e then give (false, xs) else read_clusters n make (add_cluster make xs id)

    -- The client clusters.
    pub read_out : ℕ → SimpleDescriptor → Reader Stream SimpleDescriptor
    read_out mfcode d = get 1 >>= λ count. ended >>= λ e.
        if e
        then give (invalid d)
        else (read_clusters count (λ id. out_cluster d.profile_id id mfcode) d.out_clusters >>= λ r.
            let d' = record d { out_clusters = r.1 } in give (if r.0 then d' else invalid d'))

    -- The server clusters, and all that follows.
    pub read_in : ℕ → SimpleDescriptor → Reader Stream SimpleDescriptor
    read_in mfcode d = get 1 >>= λ count. ended >>= λ e.
        if e
        then give (invalid d)
        else (read_clusters count (λ id. in_cluster d.profile_id id mfcode) d.in_clusters >>= λ r.
            let d' = record d { in_clusters = r.1 } in
            if r.0 then read_out mfcode d' else give (invalid d'))

    -- `SimpleDescriptor::readFromStream`
    pub read_simple : ℕ → SimpleDescriptor → Reader Stream SimpleDescriptor
    read_simple mfcode d = get 1 >>= λ endpoint. get 2 >>= λ profile. get 2 >>= λ device.
        get 1 >>= λ version. read_in mfcode (record d {
          endpoint = endpoint;
          profile_id = profile;
          device_id = device;
          device_version = bit_and version 0x0f;
        })

    -- The count and the ids of one side; 255 clusters or more are left out.
    pub put_clusters : List Cluster → Stream → Stream
    put_clusters xs =
        if ltb (length xs) 0xff
        then (put 1 (u8 (length xs)) ▸ put_words q (map id_of xs))
        else put 1 0

    -- `SimpleDescriptor::writeToStream`
    pub write_simple : SimpleDescriptor → Stream → Stream
    write_simple d =
        put 1 d.endpoint
        ▸ put 2 d.profile_id
        ▸ put 2 d.device_id
        ▸ put 1 d.device_version
        ▸ put_clusters d.in_clusters
        ▸ put_clusters d.out_clusters
