-- ===== src/Aps/Indication/RoundTrip.antt =====
-- An indication of version 1 or 2 that is written is read back.
use deconz_lib.Base.{
  ℕ, ◌≡◌, refl, Bool, true, false, List, [], ◌++◌, arith, ltb, leb, if◌then◌else◌, ◌∙◌, ap, u16,
}
use deconz_lib.Base.Shift.{bytes_le}
use deconz_lib.BindingTable.{Address}
use deconz_lib.Aps.{
  Mode, no_target, group_target, nwk_target, ext_target, nwk_ext_target, no_such_mode, mode_of,
  mode_byte,
}
use deconz_lib.Aps.Request.Wire.{mode_of-mode_byte, mode_byte-IsByte}
use deconz_lib.Aps.Indication.{
  ApsDataIndication, read_indication, put_address, put_fields, write_indication,
}
use deconz_lib.Aps.Indication.Wire.{IsIndication, IsPlain, address_bytes, received, field_bytes}
use deconz_lib.Aps.Indication.Reads.{Reads-read_dst}
use deconz_lib.DataStream.{StreamApi, IsStream}
use deconz_lib.DataStream.Rules.{
  At, Writes, Reads-get, Reads->>=, Writes-put, Writes-▸, Writes-none, Writes-put_all,
}

abbrev source_bytes : Mode → ApsDataIndication → List ℕ
source_bytes src v =
    bytes_le 1 v.dst_endpoint
    ++ (bytes_le 1 v.src_addr_mode ++ (address_bytes src v.src_addr ++ field_bytes v))

IsPlain-le : (m : Mode) → IsPlain m → ltb 3 (mode_byte m) ≡ false
IsPlain-le no_target p = refl
IsPlain-le group_target p = refl
IsPlain-le nwk_target p = refl
IsPlain-le ext_target p = refl
IsPlain-le nwk_ext_target p = absurd p
IsPlain-le no_such_mode p = absurd p

module _ (q : StreamApi) (laws : IsStream q) (v : ApsDataIndication) (h : IsIndication v) where
  open q use {Stream, get, put}
  open laws use {written}

  Writes-put_address :
      (m : Mode) (a : Address) → Writes q laws (put_address q m a) (address_bytes m a)
  unfolding put_address
  Writes-put_address no_target a = Writes-none q laws
  Writes-put_address group_target a = Writes-put q laws 2 _
  Writes-put_address nwk_target a = Writes-put q laws 2 _
  Writes-put_address ext_target a = Writes-put q laws 8 _
  Writes-put_address nwk_ext_target a = Writes-none q laws
  Writes-put_address no_such_mode a = Writes-none q laws

  Writes-rssi :
      (b : Bool)
      → Writes q laws (if b then put 1 v.rssi else λ s. s) (if b then bytes_le 1 v.rssi else [])
  Writes-rssi true = Writes-put q laws 1 v.rssi
  Writes-rssi false = Writes-none q laws

  Writes-put_fields :
      (src : Mode)
      → v.src_addr_mode ≡ mode_byte src
      → Writes q laws (put_fields q v) (source_bytes src v)
  unfolding put_fields
  Writes-put_fields src k = rw (fits) (
      Writes-▸ q laws (Writes-put q laws 1 v.dst_endpoint) (
        Writes-▸ q laws (Writes-put q laws 1 v.src_addr_mode) (
          Writes-▸ q laws address (
            Writes-▸ q laws (Writes-put q laws 1 v.src_endpoint) (
              Writes-▸ q laws (Writes-put q laws 2 v.profile_id) (
                Writes-▸ q laws (Writes-put q laws 2 v.cluster_id) (
                  Writes-▸ q laws (Writes-put q laws 2 v.asdu_size) (
                    Writes-▸ q laws (Writes-put_all q laws _ h.asdu_bytes) (
                      Writes-▸ q laws (Writes-put q laws 1 v.status) (
                        Writes-▸ q laws (Writes-put q laws 1 v.security_status) (
                          Writes-▸ q laws (Writes-put q laws 1 v.link_quality) (
                            Writes-▸ q laws (Writes-put q laws 4 v.rx_time)
                              (Writes-rssi (leb 2 v.version))))))))))))))
    where
      fits : u16 v.asdu_size ≡ v.asdu_size
      fits = omega (arith, h.inside)

      address :
          Writes q laws
            (put_address q (mode_of v.src_addr_mode) v.src_addr)
            (address_bytes src v.src_addr)
      address = rw (ap mode_of k ∙ mode_of-mode_byte src) (Writes-put_address src v.src_addr)

  -- An indication of version 1 or 2 comes back from its bytes, and no more of them are taken: the
  -- fields are those that were written, the signal strength from version 2 on; an address is set beside
  -- those that the reader had; the view covers the bytes that were sent, at the start of the reader's
  -- array. The modes are those of one address or none, the fields in the range of their types,
  -- and the view inside of the array. It is written to an empty stream, and the reader's indication
  -- has the same version.
  pub read_indication-write_indication :
      (dst src : Mode) (old : ApsDataIndication) (s t : Stream) (ts : List ℕ)
      → IsPlain dst
      → IsPlain src
      → v.dst_addr_mode ≡ mode_byte dst
      → v.src_addr_mode ≡ mode_byte src
      → old.version ≡ v.version
      → leb 3 old.version ≡ false
      → written s ≡ []
      → At q laws t (written (write_indication q v s) ++ ts)
      → ((read_indication q old t).0 ≡ received dst src v old)
        × At q laws (read_indication q old t).1 ts
  unfolding read_indication write_indication
  read_indication-write_indication dst src old s t ts d p i k e small empty here =
      (Reads->>= q laws _ (Reads-get q laws 1 v.dst_addr_mode (rw i (mode_byte-IsByte dst))) (
          rw (ap mode_of i ∙ mode_of-mode_byte dst) (
            Reads-read_dst q laws v h src p k dst (record old { dst_addr_mode = v.dst_addr_mode }) d
              e small))).run
        t ts (here.0 ∙ ap (λ l. l ++ ts) all, here.1)
    where
      address :
          Writes q laws
            (put_address q (mode_of v.dst_addr_mode) v.dst_addr)
            (address_bytes dst v.dst_addr)
      address = rw (ap mode_of i ∙ mode_of-mode_byte dst) (Writes-put_address dst v.dst_addr)

      sent :
          Writes q laws
            (write_indication q v)
            (bytes_le 1 v.dst_addr_mode ++ (address_bytes dst v.dst_addr ++ source_bytes src v))
      sent = Writes-▸ q laws (Writes-put q laws 1 v.dst_addr_mode) (
          rw (ap (λ (n : ℕ). ltb 3 n) i ∙ IsPlain-le dst d)
            (Writes-▸ q laws address (Writes-put_fields src k)))

      all :
          written (write_indication q v s)
          ≡ bytes_le 1 v.dst_addr_mode ++ (address_bytes dst v.dst_addr ++ source_bytes src v)
      all =
          sent.run s
          ∙ ap
              (λ l.
                l
                ++ (bytes_le 1 v.dst_addr_mode
                    ++ (address_bytes dst v.dst_addr ++ source_bytes src v)))
              empty
