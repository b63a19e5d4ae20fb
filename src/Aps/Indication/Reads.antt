-- ===== src/Aps/Indication/Reads.antt =====
-- Reading an indication of version 1 or 2 from its bytes.
use mathlib.Core.Path.{subst}
use deconz_lib.Base.{
  ℕ, ◌≡◌, Bool, true, false, [], ◌++◌, arith, length, leb, if◌then◌else◌, take, min, ◌∙◌, ap,
  length-take_le,
}
use deconz_lib.Base.Shift.{bytes_le}
use deconz_lib.Aps.{
  Mode, no_target, group_target, nwk_target, ext_target, nwk_ext_target, no_such_mode, mode_of,
  mode_byte,
}
use deconz_lib.Aps.Request.Wire.{mode_of-mode_byte, mode_byte-IsByte}
use deconz_lib.Aps.Indication.{
  ApsDataIndication, buf_size, read_quality, read_status, read_fields, read_src, read_source,
  read_dst,
}
use deconz_lib.Aps.Indication.Wire.{
  IsIndication, IsPlain, address_read, address_bytes, take_quality, take_fields, quality_bytes,
  field_bytes,
}
use deconz_lib.DataStream.{StreamApi, IsStream, ◌>>=◌, give, read_n, unless_end}
use deconz_lib.DataStream.Rules.{
  Reads, Reads-give, Reads-get, Reads->>=, Reads-read_n, Reads-unless_end,
}

module _ (q : StreamApi) (laws : IsStream q) (v : ApsDataIndication) (h : IsIndication v) where
  open q use {Stream, get, put}
  open laws use {written}

  Reads-rssi :
      (old : ApsDataIndication) (b : Bool)
      → Reads q laws
          (if b
            then unless_end q old (get 1 >>= λ rssi. give (record old { rssi = rssi }))
            else give old)
          (if b then bytes_le 1 v.rssi else [])
          (record old { rssi = if b then v.rssi else old.rssi })
  Reads-rssi old true =
      Reads-unless_end q laws old
        (Reads->>= q laws _ (Reads-get q laws 1 v.rssi h.rssi_byte) (Reads-give q laws _))
  Reads-rssi old false = Reads-give q laws old

  Reads-read_quality :
      (old : ApsDataIndication)
      → old.version ≡ v.version
      → Reads q laws (read_quality q old) (quality_bytes v) (take_quality v old)
  unfolding read_quality
  Reads-read_quality old e = rw (← e) (
      Reads->>= q laws _ (Reads-get q laws 1 v.link_quality h.quality_byte) (
        Reads->>= q laws _ (Reads-get q laws 4 v.rx_time h.time_word) (
          Reads-rssi (record old { link_quality = v.link_quality; rx_time = v.rx_time })
            (leb 2 old.version))))

  Reads-read_fields :
      (old : ApsDataIndication)
      → old.version ≡ v.version
      → leb 3 old.version ≡ false
      → Reads q laws (read_fields q old) (field_bytes v) (take_fields v old)
  unfolding read_fields read_status
  Reads-read_fields old e small =
      Reads->>= q laws _ (Reads-get q laws 1 v.src_endpoint h.src_endpoint_byte) (
        Reads->>= q laws _ (Reads-get q laws 2 v.profile_id h.profile_word) (
          Reads->>= q laws _ (Reads-get q laws 2 v.cluster_id h.cluster_word) (
            Reads->>= q laws _ (Reads-get q laws 2 v.asdu_size (omega (arith, h.inside))) (
              Reads->>= q laws _ bytes (
                rw small (
                  Reads->>= q laws _ (Reads-get q laws 1 v.status h.status_byte) (
                    Reads->>= q laws _ (Reads-get q laws 1 v.security_status h.security_byte)
                      (Reads-read_quality _ e))))))))
    where
      size : length (take v.asdu_size v.asdu_buf) ≡ min v.asdu_size buf_size
      size =
          length-take_le {A = ℕ} v.asdu_size v.asdu_buf (omega (arith, h.inside, h.buf))
          ∙ omega (arith, h.inside)

      bytes :
          Reads q laws
            (read_n q (min v.asdu_size buf_size))
            (take v.asdu_size v.asdu_buf)
            (take v.asdu_size v.asdu_buf)
      bytes =
          subst
            (λ (n : ℕ).
              Reads q laws (read_n q n) (take v.asdu_size v.asdu_buf) (take v.asdu_size v.asdu_buf))
            size (Reads-read_n q laws _ h.asdu_bytes)

  Reads-read_src :
      (m : Mode) (old : ApsDataIndication)
      → IsPlain m
      → old.version ≡ v.version
      → leb 3 old.version ≡ false
      → Reads q laws
          (read_src q m old)
          (address_bytes m v.src_addr ++ field_bytes v)
          (take_fields v (record old { src_addr = address_read m v.src_addr old.src_addr }))
  unfolding read_src
  Reads-read_src no_target old p e small = Reads-read_fields old e small
  Reads-read_src group_target old p e small =
      Reads->>= q laws _ (Reads-get q laws 2 _ h.src_address.group_word)
        (Reads-read_fields _ e small)
  Reads-read_src nwk_target old p e small =
      Reads->>= q laws _ (Reads-get q laws 2 _ h.src_address.nwk_word) (Reads-read_fields _ e small)
  Reads-read_src ext_target old p e small =
      Reads->>= q laws _ (Reads-get q laws 8 _ h.src_address.ext_word) (Reads-read_fields _ e small)
  Reads-read_src nwk_ext_target old p e small = absurd p
  Reads-read_src no_such_mode old p e small = absurd p

  module _ (src : Mode) (p : IsPlain src) (k : v.src_addr_mode ≡ mode_byte src) where
    Reads-read_source :
        (old : ApsDataIndication)
        → old.version ≡ v.version
        → leb 3 old.version ≡ false
        → Reads q laws
            (read_source q old)
            (bytes_le 1 v.dst_endpoint
              ++ (bytes_le 1 v.src_addr_mode ++ (address_bytes src v.src_addr ++ field_bytes v)))
            (take_fields v (record old {
              dst_endpoint = v.dst_endpoint;
              src_addr_mode = v.src_addr_mode;
              src_addr = address_read src v.src_addr old.src_addr;
            }))
    unfolding read_source
    Reads-read_source old e small =
        Reads->>= q laws _ (Reads-get q laws 1 v.dst_endpoint h.dst_endpoint_byte) (
          Reads->>= q laws _ (Reads-get q laws 1 v.src_addr_mode (rw k (mode_byte-IsByte src)))
            (rw (ap mode_of k ∙ mode_of-mode_byte src) (Reads-read_src src _ p e small)))

    pub Reads-read_dst :
        (m : Mode) (old : ApsDataIndication)
        → IsPlain m
        → old.version ≡ v.version
        → leb 3 old.version ≡ false
        → Reads q laws
            (read_dst q m old)
            (address_bytes m v.dst_addr
              ++ (bytes_le 1 v.dst_endpoint
                  ++ (bytes_le 1 v.src_addr_mode
                      ++ (address_bytes src v.src_addr ++ field_bytes v))))
            (take_fields v (record old {
              dst_addr = address_read m v.dst_addr old.dst_addr;
              dst_endpoint = v.dst_endpoint;
              src_addr_mode = v.src_addr_mode;
              src_addr = address_read src v.src_addr old.src_addr;
            }))
    unfolding read_dst
    Reads-read_dst no_target old d e small = Reads-read_source old e small
    Reads-read_dst group_target old d e small =
        Reads->>= q laws _ (Reads-get q laws 2 _ h.dst_address.group_word)
          (Reads-read_source _ e small)
    Reads-read_dst nwk_target old d e small =
        Reads->>= q laws _ (Reads-get q laws 2 _ h.dst_address.nwk_word)
          (Reads-read_source _ e small)
    Reads-read_dst ext_target old d e small =
        Reads->>= q laws _ (Reads-get q laws 8 _ h.dst_address.ext_word)
          (Reads-read_source _ e small)
    Reads-read_dst nwk_ext_target old d e small = absurd d
    Reads-read_dst no_such_mode old d e small = absurd d
