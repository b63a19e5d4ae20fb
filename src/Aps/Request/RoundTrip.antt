-- ===== src/Aps/Request/RoundTrip.antt =====
-- A request of version 1 that is written is read back.
use mathlib.Core.Path.{subst}
use deconz_lib.Base.{
  ℕ, ◌≡◌, refl, ◌<◌, false, List, [], ◌++◌, arith, length, ltb, some, ◌∙◌, ap, u16,
}
use deconz_lib.Base.Shift.{bytes_le}
use deconz_lib.BindingTable.{set_ext, set_group}
use deconz_lib.Aps.{
  set_nwk, Mode, no_target, group_target, nwk_target, ext_target, nwk_ext_target, no_such_mode,
  mode_of, mode_byte,
}
use deconz_lib.Aps.Request.{
  ApsDataRequest, put_head, put_body, target_writer, write_request, read_body, read_target,
  read_request,
}
use deconz_lib.Aps.Request.Wire.{
  IsRequest, HasTarget, received, set_flags-all, body_bytes, target_bytes, sent_bytes,
  mode_of-mode_byte, mode_byte-IsByte,
}
use deconz_lib.DataStream.{StreamApi, IsStream, ◌▸◌}
use deconz_lib.DataStream.Rules.{
  At, Reads, Writes, Reads-give, Reads-get, Reads->>=, Reads-read_n, Writes-put, Writes-▸,
  Writes-none, Writes-put_all,
}

module _ (q : StreamApi) (laws : IsStream q) where
  open q use {Stream, get, put}
  open laws use {written}

  Reads-read_body :
      (r old : ApsDataRequest)
      → IsRequest r
      → old.tx_options < 16
      → Reads q laws (read_body q old) (body_bytes r) (record old {
        profile_id = r.profile_id;
        cluster_id = r.cluster_id;
        src_endpoint = r.src_endpoint;
        asdu = r.asdu;
        tx_options = r.tx_options;
        radius = r.radius;
      })
  unfolding read_body
  Reads-read_body r old h o =
      subst (λ x. Reads q laws (read_body q old) (body_bytes r) x)
        (ap
          (λ (t : ℕ). record old {
            profile_id = r.profile_id;
            cluster_id = r.cluster_id;
            src_endpoint = r.src_endpoint;
            asdu = r.asdu;
            tx_options = t;
            radius = r.radius;
          })
          (set_flags-all old.tx_options r.tx_options o h.options_bits))
        (Reads->>= q laws _ (Reads-get q laws 2 r.profile_id h.profile_word) (
          Reads->>= q laws _ (Reads-get q laws 2 r.cluster_id h.cluster_word) (
            Reads->>= q laws _ (Reads-get q laws 1 r.src_endpoint h.endpoint_byte) (
              Reads->>= q laws _ (Reads-get q laws 2 (length r.asdu) h.size_word) (
                Reads->>= q laws _ (Reads-read_n q laws r.asdu h.asdu_bytes) (
                  Reads->>= q laws _
                    (Reads-get q laws 1 r.tx_options (omega (arith, h.options_bits)))
                    (Reads->>= q laws _ (Reads-get q laws 1 r.radius h.radius_byte)
                      (Reads-give q laws _))))))))

  Reads-read_target :
      (m : Mode) (r old : ApsDataRequest)
      → HasTarget m r
      → IsRequest r
      → old.tx_options < 16
      → old.id ≡ r.id
      → old.dst_addr_mode ≡ r.dst_addr_mode
      → Reads q laws (read_target q m old) (target_bytes m r ++ body_bytes r) (received m r old)
  unfolding read_target
  Reads-read_target no_target r old t h o i e = absurd t
  Reads-read_target nwk_ext_target r old t h o i e = absurd t
  Reads-read_target no_such_mode r old t h o i e = absurd t
  Reads-read_target group_target r old t h o i e =
      rw (← i, ← e)
        (Reads->>= q laws _ (Reads-get q laws 2 r.dst_addr.group h.group_word) (
          Reads-read_body r (record old { dst_addr = set_group r.dst_addr.group old.dst_addr }) h
            o))
  Reads-read_target nwk_target r old t h o i e =
      rw (← i, ← e)
        (Reads->>= q laws _ (Reads-get q laws 2 r.dst_addr.nwk h.nwk_word) (
          Reads->>= q laws _ (Reads-get q laws 1 r.dst_endpoint h.dst_endpoint_byte) (
            Reads-read_body r
              (record old {
                dst_addr = set_nwk r.dst_addr.nwk old.dst_addr;
                dst_endpoint = r.dst_endpoint;
              })
              h o)))
  Reads-read_target ext_target r old t h o i e =
      rw (← i, ← e)
        (Reads->>= q laws _ (Reads-get q laws 8 r.dst_addr.ext h.ext_word) (
          Reads->>= q laws _ (Reads-get q laws 1 r.dst_endpoint h.dst_endpoint_byte) (
            Reads-read_body r
              (record old {
                dst_addr = set_ext r.dst_addr.ext old.dst_addr;
                dst_endpoint = r.dst_endpoint;
              })
              h o)))

  -- The writer of a destination that is set.
  abbrev writer_of : Mode → ApsDataRequest → Stream → Stream
  writer_of group_target r = put 2 r.dst_addr.group
  writer_of nwk_target r = put 2 r.dst_addr.nwk ▸ put 1 r.dst_endpoint
  writer_of ext_target r = put 8 r.dst_addr.ext ▸ put 1 r.dst_endpoint
  writer_of _ r = λ s. s

  target_writer-of :
      (m : Mode) (r : ApsDataRequest)
      → HasTarget m r
      → r.dst_addr_mode ≡ mode_byte m
      → target_writer q r ≡ some (writer_of m r)
  unfolding target_writer
  target_writer-of no_target r t e = absurd t
  target_writer-of nwk_ext_target r t e = absurd t
  target_writer-of no_such_mode r t e = absurd t
  target_writer-of group_target r t e = rw (e, t)
  target_writer-of nwk_target r t e = rw (e, t)
  target_writer-of ext_target r t e = rw (e, t)

  Writes-target : (m : Mode) (r : ApsDataRequest) → Writes q laws (writer_of m r) (target_bytes m r)
  Writes-target group_target r = Writes-put q laws 2 _
  Writes-target nwk_target r = Writes-▸ q laws (Writes-put q laws 2 _) (Writes-put q laws 1 _)
  Writes-target ext_target r = Writes-▸ q laws (Writes-put q laws 8 _) (Writes-put q laws 1 _)
  Writes-target no_target r = Writes-none q laws
  Writes-target nwk_ext_target r = Writes-none q laws
  Writes-target no_such_mode r = Writes-none q laws

  Writes-put_head :
      (r : ApsDataRequest)
      → ltb 1 r.version ≡ false
      → Writes q laws (put_head q r) (bytes_le 1 r.id ++ ([] ++ ([] ++ bytes_le 1 r.dst_addr_mode)))
  unfolding put_head
  Writes-put_head r v = rw v (
      Writes-▸ q laws (Writes-put q laws 1 r.id) (
        Writes-▸ q laws (Writes-none q laws)
          (Writes-▸ q laws (Writes-none q laws) (Writes-put q laws 1 r.dst_addr_mode))))

  Writes-put_body :
      (r : ApsDataRequest)
      → IsRequest r
      → ltb 1 r.version ≡ false
      → Writes q laws (put_body q r) (body_bytes r)
  unfolding put_body
  Writes-put_body r h v =
      rw (v, small)
        (Writes-▸ q laws (Writes-put q laws 2 r.profile_id) (
          Writes-▸ q laws (Writes-put q laws 2 r.cluster_id) (
            Writes-▸ q laws (Writes-put q laws 1 r.src_endpoint) (
              Writes-▸ q laws (Writes-put q laws 2 (length r.asdu)) (
                Writes-▸ q laws (Writes-put_all q laws r.asdu h.asdu_bytes) (
                  Writes-▸ q laws (Writes-put q laws 1 r.tx_options)
                    (Writes-▸ q laws (Writes-put q laws 1 r.radius) (Writes-none q laws))))))))
    where
      small : u16 (length r.asdu) ≡ length r.asdu
      small = omega (arith, h.size_word)

  Reads-read_request :
      (m : Mode) (r old : ApsDataRequest)
      → HasTarget m r
      → r.dst_addr_mode ≡ mode_byte m
      → IsRequest r
      → old.tx_options < 16
      → Reads q laws
          (read_request q old)
          (bytes_le 1 r.id ++ (bytes_le 1 r.dst_addr_mode ++ (target_bytes m r ++ body_bytes r)))
          (received m r old)
  unfolding read_request
  Reads-read_request m r old t e h o = Reads->>= q laws _ (Reads-get q laws 1 r.id h.id_byte) (
      Reads->>= q laws _ (Reads-get q laws 1 r.dst_addr_mode (rw e (mode_byte-IsByte m))) (
        rw (ap mode_of e ∙ mode_of-mode_byte m) (
          Reads-read_target m r (record old { id = r.id; dst_addr_mode = r.dst_addr_mode }) t h o
            (refl) refl)))

  write_request-out :
      (m : Mode) (r : ApsDataRequest) (s : Stream)
      → HasTarget m r
      → r.dst_addr_mode ≡ mode_byte m
      → write_request q r s ≡ (1, (put_head q r ▸ writer_of m r ▸ put_body q r) s)
  unfolding write_request
  write_request-out m r s t e = rw (target_writer-of m r t e, write_request)

  -- A request of version 1 whose mode asks for an address that is set is sent, and a reader takes
  -- its bytes and no more: the fields are those that were sent, with the address set beside those
  -- that the reader had, and what is not sent is as before (the endpoint of a group too). The fields
  -- are in the range of their types, it is written to an empty stream, and the options that the
  -- reader has before are below 16.
  pub read_request-write_request :
      (m : Mode) (r old : ApsDataRequest) (s t : Stream) (ts : List ℕ)
      → HasTarget m r
      → r.dst_addr_mode ≡ mode_byte m
      → IsRequest r
      → ltb 1 r.version ≡ false
      → old.tx_options < 16
      → written s ≡ []
      → At q laws t (written (write_request q r s).1 ++ ts)
      → ((write_request q r s).0 ≡ 1)
        × ((read_request q old t).0 ≡ received m r old)
        × At q laws (read_request q old t).1 ts
  read_request-write_request m r old s t ts k e h v o empty here =
      let out = write_request-out m r s k e in
      let sent =
        (Writes-▸ q laws (Writes-put_head r v)
            (Writes-▸ q laws (Writes-target m r) (Writes-put_body r h v))).run
          s in
      let all = ap (λ x. written x.1) out ∙ sent ∙ ap (λ l. l ++ sent_bytes m r) empty in
      let back =
        (Reads-read_request m r old k e h o).run t ts (here.0 ∙ ap (λ l. l ++ ts) all, here.1) in
      (ap (λ x. x.0) out, back.0, back.1)
