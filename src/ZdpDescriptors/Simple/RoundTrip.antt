-- ===== src/ZdpDescriptors/Simple/RoundTrip.antt =====
-- A simple descriptor that is written is read back.
use mathlib.Core.Path.{subst}
use mathlib.Core.List.{append-nil}
use deconz_lib.Base.{
  ℕ, ◌≡◌, refl, ◌<◌, ◌^◌, List, [], ◌++◌, arith, length, map, IsByte, if◌then◌else◌, bit_and,
  bit_and_ones, ◌∙◌, ap,
}
use deconz_lib.Base.Shift.{bytes_le}
use deconz_lib.DataStream.{StreamApi, IsStream, Reader, ◌>>=◌, give}
use deconz_lib.DataStream.Rules.{
  At, Reads, Writes, Reads-give, Reads-get, Reads->>=, Writes-put, Writes-▸, word_bytes,
}
use deconz_lib.ZdpDescriptors.Simple.Wire.{
  IsSide, Reads-ended, Reads-read_clusters, Writes-put_clusters,
}
use deconz_lib.ZdpDescriptors.Simple.{
  ClusterApi, IsClusterApi, SimpleDescriptor, no_descriptor, read_clusters, read_out, read_in,
  read_simple, write_simple,
}

module _ (c : ClusterApi) (laws : IsClusterApi c) (mfcode endpoint profile device version : ℕ)
    (ins outs : List ℕ) where
  open c use {Cluster, id_of, in_cluster, out_cluster}

  -- The descriptor of an endpoint with these clusters, of the data base.
  abbrev pub descriptor : SimpleDescriptor c
  descriptor = record {
    endpoint = endpoint;
    profile_id = profile;
    device_id = device;
    device_version = version;
    in_clusters = map (λ id. in_cluster profile id mfcode) ins;
    out_clusters = map (λ id. out_cluster profile id mfcode) outs;
  }

  abbrev side_bytes : List ℕ → List ℕ
  side_bytes ids = bytes_le 1 (length ids) ++ word_bytes ids

  module _ (q : StreamApi) (stream : IsStream q) where
    open q use {Stream, get, put}
    open stream use {written}

    Reads-read_out :
        (d : SimpleDescriptor c)
        → d.out_clusters ≡ []
        → IsSide outs
        → Reads q stream
            (read_out c q mfcode d)
            (side_bytes outs)
            (record d { out_clusters = map (λ id. out_cluster d.profile_id id mfcode) outs })
    unfolding read_out
    Reads-read_out d new h = rw new (
        Reads->>= q stream _ (Reads-get q stream 1 (length outs) (omega (arith, h.few))) (
          Reads->>= q stream _
            (Reads-ended c (λ id. out_cluster d.profile_id id mfcode) makes q stream)
            (subst
              (λ l.
                Reads q stream {A = SimpleDescriptor c} (loop d) l
                  (record d { out_clusters = map (λ id. out_cluster d.profile_id id mfcode) outs }))
              (append-nil (word_bytes outs))
              (Reads->>= q stream _
                (Reads-read_clusters c (λ id. out_cluster d.profile_id id mfcode) makes q stream
                  outs [] h.words h.distinct)
                (Reads-give q stream _)))))
      where
        makes : (id : ℕ) → c.id_of (out_cluster d.profile_id id mfcode) ≡ id
        makes id = laws.id-out_cluster d.profile_id id mfcode

        loop : SimpleDescriptor c → Reader Stream (SimpleDescriptor c)
        loop d =
            read_clusters c q (length outs) (λ id. out_cluster d.profile_id id mfcode) [] >>= λ r.
            let d' = record d { out_clusters = r.1 } in
            give (if r.0 then d' else record d' { endpoint = 0xff })

    Reads-read_in :
        (d : SimpleDescriptor c)
        → d.in_clusters ≡ []
        → d.out_clusters ≡ []
        → IsSide ins
        → IsSide outs
        → Reads q stream (read_in c q mfcode d) (side_bytes ins ++ side_bytes outs) (record d {
          in_clusters = map (λ id. in_cluster d.profile_id id mfcode) ins;
          out_clusters = map (λ id. out_cluster d.profile_id id mfcode) outs;
        })
    unfolding read_in
    Reads-read_in d new none h k = rw new (
        Reads->>= q stream _ (Reads-get q stream 1 (length ins) (omega (arith, h.few))) (
          Reads->>= q stream _
            (Reads-ended c (λ id. in_cluster d.profile_id id mfcode) makes q stream)
            (Reads->>= q stream _
              (Reads-read_clusters c (λ id. in_cluster d.profile_id id mfcode) makes q stream ins []
                h.words h.distinct)
              (Reads-read_out
                (record d { in_clusters = map (λ id. in_cluster d.profile_id id mfcode) ins }) none
                k))))
      where
        makes : (id : ℕ) → c.id_of (in_cluster d.profile_id id mfcode) ≡ id
        makes id = laws.id-in_cluster d.profile_id id mfcode

    abbrev descriptor_bytes : List ℕ
    descriptor_bytes =
        bytes_le 1 endpoint
        ++ (bytes_le 2 profile
            ++ (bytes_le 2 device ++ (bytes_le 1 version ++ (side_bytes ins ++ side_bytes outs))))

    Writes-write_simple :
        IsSide ins → IsSide outs → Writes q stream (write_simple c q descriptor) descriptor_bytes
    unfolding write_simple
    Writes-write_simple h k = Writes-▸ q stream (Writes-put q stream 1 endpoint) (
        Writes-▸ q stream (Writes-put q stream 2 profile) (
          Writes-▸ q stream (Writes-put q stream 2 device) (
            Writes-▸ q stream (Writes-put q stream 1 version) (
              Writes-▸ q stream
                (Writes-put_clusters c _ (λ id. laws.id-in_cluster profile id mfcode) q stream ins
                  h.few)
                (Writes-put_clusters c _ (λ id. laws.id-out_cluster profile id mfcode) q stream outs
                  k.few)))))

    -- The descriptor of an endpoint with server and client clusters that the data base makes of their
    -- ids comes back from the bytes that are written of it, and no more are taken. The fields are
    -- in range, a side has fewer than 255 clusters and none twice, it is written to an empty
    -- stream, and the reader starts from a new descriptor.
    pub read_simple-write_simple :
        (s t : Stream) (ts : List ℕ)
        → IsByte endpoint
        → profile < 256 ^ 2
        → device < 256 ^ 2
        → version < 16
        → IsSide ins
        → IsSide outs
        → written s ≡ []
        → At q stream t (written (write_simple c q descriptor s) ++ ts)
        → ((read_simple c q mfcode (no_descriptor c) t).0 ≡ descriptor)
          × At q stream (read_simple c q mfcode (no_descriptor c) t).1 ts
    unfolding read_simple
    read_simple-write_simple s t ts e p d v h k empty here =
        (Reads->>= q stream _ (Reads-get q stream 1 endpoint e) (
            Reads->>= q stream _ (Reads-get q stream 2 profile p) (
              Reads->>= q stream _ (Reads-get q stream 2 device d) (
                Reads->>= q stream _ {cs = side_bytes ins ++ side_bytes outs}
                  (Reads-get q stream 1 version (omega arith))
                  (rw nibble (Reads-read_in start refl refl h k)))))).run
          t ts (here.0 ∙ ap (λ l. l ++ ts) all, here.1)
      where
        nibble : bit_and version 0x0f ≡ version
        nibble = bit_and_ones 4 version ∙ omega arith

        start : SimpleDescriptor c
        start = record {
          endpoint = endpoint;
          profile_id = profile;
          device_id = device;
          device_version = version;
          in_clusters = [];
          out_clusters = [];
        }

        all : written (write_simple c q descriptor s) ≡ descriptor_bytes
        all = (Writes-write_simple h k).run s ∙ ap (λ l. l ++ descriptor_bytes) empty
