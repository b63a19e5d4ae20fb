-- ===== src/Aps/Indication.antt =====
-- aps.cpp: `ApsDataIndication`, its `readFromStream` and `writeToStream`. `asdu` is taken to be the
-- view of the array that the reader makes of it.
pub mod Reads
pub mod RoundTrip
pub mod Wire
use deconz_lib.Base.{ℕ, List, take, store, min, leb, ltb, ◌==◌, if◌then◌else◌, u16}
use deconz_lib.BindingTable.{Address, set_ext, set_group}
use deconz_lib.Aps.{
  set_nwk, Mode, no_target, group_target, nwk_target, ext_target, nwk_ext_target, no_such_mode,
  mode_of,
}
use deconz_lib.DataStream.{StreamApi, Reader, ◌>>=◌, ◌▸◌, give, read_n, put_all, unless_end}

-- `ApsDataIndicationPrivate`; `asdu_size` is the size of the view `asdu`.
pub record ApsDataIndication : Type 0 where
  pub dst_addr_mode : ℕ
  pub dst_addr : Address
  pub dst_endpoint : ℕ
  pub src_addr_mode : ℕ
  pub src_addr : Address
  pub src_endpoint : ℕ
  pub profile_id : ℕ
  pub cluster_id : ℕ
  pub asdu_size : ℕ
  pub previous_hop : ℕ
  pub status : ℕ
  pub security_status : ℕ
  pub link_quality : ℕ
  pub rx_time : ℕ
  pub rssi : ℕ
  pub version : ℕ
  pub asdu_buf : List ℕ

abbrev pub buf_size : ℕ
buf_size = 118

module _ (q : StreamApi) where
  open q use {Stream, get, put}

  -- Link quality, time, and from version 2 on the signal strength.
  pub read_quality : ApsDataIndication → Reader Stream ApsDataIndication
  read_quality v = get 1 >>= λ quality. get 4 >>= λ time.
      let v' = record v { link_quality = quality; rx_time = time } in
      if leb 2 v.version
      then unless_end q v' (get 1 >>= λ rssi. give (record v' { rssi = rssi }))
      else give v'

  -- Previous hop, or the status, by the version.
  pub read_status : ApsDataIndication → Reader Stream ApsDataIndication
  read_status v =
      if leb 3 v.version
      then (get 2 >>= λ hop. read_quality (record v { previous_hop = hop; status = 0 }))
      else (get 1 >>= λ status. get 1 >>= λ security.
          read_quality (record v { status = status; security_status = security }))

  -- The source endpoint and all that follows it.
  pub read_fields : ApsDataIndication → Reader Stream ApsDataIndication
  read_fields v = get 1 >>= λ endpoint. get 2 >>= λ profile. get 2 >>= λ cluster. get 2 >>= λ size.
      read_n q (min size buf_size) >>= λ bytes. read_status (record v {
        src_endpoint = endpoint;
        profile_id = profile;
        cluster_id = cluster;
        asdu_size = size;
        asdu_buf = store v.asdu_buf 0 bytes;
      })

  -- `switch (srcAddressMode())`
  pub read_src : Mode → ApsDataIndication → Reader Stream ApsDataIndication
  read_src no_target v = read_fields v
  read_src group_target v =
      get 2 >>= λ addr. read_fields (record v { src_addr = set_group addr v.src_addr })
  read_src nwk_target v =
      get 2 >>= λ addr. read_fields (record v { src_addr = set_nwk addr v.src_addr })
  read_src ext_target v =
      get 8 >>= λ addr. read_fields (record v { src_addr = set_ext addr v.src_addr })
  read_src nwk_ext_target v = get 2 >>= λ nwk. get 8 >>= λ ext.
      let addr = set_nwk nwk v.src_addr in
      read_fields
        (record v { src_addr_mode = 2; src_addr = if ext == 0 then addr else set_ext ext addr })
  read_src no_such_mode v = give v

  pub read_source : ApsDataIndication → Reader Stream ApsDataIndication
  read_source v = get 1 >>= λ endpoint. get 1 >>= λ mode.
      read_src (mode_of mode) (record v { dst_endpoint = endpoint; src_addr_mode = mode })

  -- `switch (dstAddressMode())`
  pub read_dst : Mode → ApsDataIndication → Reader Stream ApsDataIndication
  read_dst no_target v = read_source v
  read_dst group_target v =
      get 2 >>= λ addr. read_source (record v { dst_addr = set_group addr v.dst_addr })
  read_dst nwk_target v =
      get 2 >>= λ addr. read_source (record v { dst_addr = set_nwk addr v.dst_addr })
  read_dst ext_target v =
      get 8 >>= λ addr. read_source (record v { dst_addr = set_ext addr v.dst_addr })
  read_dst nwk_ext_target v = give v
  read_dst no_such_mode v = give v

  -- `ApsDataIndication::readFromStream`
  pub read_indication : ApsDataIndication → Reader Stream ApsDataIndication
  read_indication v = get 1 >>= λ mode. read_dst (mode_of mode) (record v { dst_addr_mode = mode })

  pub put_address : Mode → Address → Stream → Stream
  put_address group_target a = put 2 a.group
  put_address nwk_target a = put 2 a.nwk
  put_address ext_target a = put 8 a.ext
  put_address _ a = λ s. s

  -- What follows the destination.
  pub put_fields : ApsDataIndication → Stream → Stream
  put_fields v =
      put 1 v.dst_endpoint
      ▸ put 1 v.src_addr_mode
      ▸ put_address (mode_of v.src_addr_mode) v.src_addr
      ▸ put 1 v.src_endpoint
      ▸ put 2 v.profile_id
      ▸ put 2 v.cluster_id
      ▸ put 2 (u16 v.asdu_size)
      ▸ put_all q (take v.asdu_size v.asdu_buf)
      ▸ put 1 v.status
      ▸ put 1 v.security_status
      ▸ put 1 v.link_quality
      ▸ put 4 v.rx_time
      ▸ (if leb 2 v.version then put 1 v.rssi else λ s. s)

  -- `ApsDataIndication::writeToStream`
  pub write_indication : ApsDataIndication → Stream → Stream
  write_indication v =
      put 1 v.dst_addr_mode
      ▸ (if ltb 3 v.dst_addr_mode
          then (λ s. s)
          else (put_address (mode_of v.dst_addr_mode) v.dst_addr ▸ put_fields v))
