-- ===== src/Aps/Request.antt =====
-- aps.cpp: `ApsDataRequest`, its `writeToStream` and `readFromStream`.
pub mod Wire
pub mod RoundTrip
use deconz_lib.Base.{
  ℕ, ◌-◌, Bool, true, false, not, ◌&&◌, List, [], ◌∷◌, length, take, bit_and, bit_or, ltb, ◌==◌,
  if◌then◌else◌, Option, none, some, u16,
}
use deconz_lib.BindingTable.{Address, set_ext, set_group}
use deconz_lib.Aps.{
  set_nwk, Mode, no_target, group_target, nwk_target, ext_target, nwk_ext_target, no_such_mode,
  mode_of,
}
use deconz_lib.DataStream.{StreamApi, Reader, ◌>>=◌, ◌▸◌, give, read_n, put_all, put_words}

-- `ApsDataRequestPrivate`, without the fields that are not sent.
pub record ApsDataRequest : Type 0 where
  pub id : ℕ
  pub version : ℕ
  pub node_id : ℕ
  pub dst_addr_mode : ℕ
  pub dst_addr : Address
  pub dst_endpoint : ℕ
  pub profile_id : ℕ
  pub cluster_id : ℕ
  pub src_endpoint : ℕ
  pub asdu : List ℕ
  pub tx_options : ℕ
  pub radius : ℕ
  pub relay_count : ℕ
  pub source_route : List ℕ

-- `flags`, which only exist from version 2 on.
abbrev pub node_flag : ApsDataRequest → Bool
node_flag r = ltb 1 r.version && not (r.node_id == 0xffff)

abbrev pub relay_flag : ApsDataRequest → Bool
relay_flag r = ltb 1 r.version && ltb 0 r.relay_count

pub flags_of : ApsDataRequest → ℕ
flags_of r = bit_or (if node_flag r then 0x01 else 0) (if relay_flag r then 0x02 else 0)

-- `txOptions.setFlag(1 << i, set)` for the four bits in turn.
abbrev pub set_flag : ℕ → Bool → ℕ → ℕ
set_flag o true x = bit_or x o
set_flag o false x = x - bit_and x o

pub set_flags : List ℕ → ℕ → ℕ → ℕ
set_flags [] byte x = x
set_flags (o ∷ os) byte x = set_flags os byte (set_flag o (not (bit_and byte o == 0)) x)

module _ (q : StreamApi) where
  open q use {Stream, get, put}

  -- The destination, or nothing if the address that the mode asks for is not set.
  pub target_writer : ApsDataRequest → Option (Stream → Stream)
  target_writer r = elim (mode_of r.dst_addr_mode) [
    | group_target ↦ if r.dst_addr.has_group then some (put 2 r.dst_addr.group) else none
    | nwk_target ↦
        if r.dst_addr.has_nwk then some (put 2 r.dst_addr.nwk ▸ put 1 r.dst_endpoint) else none
    | ext_target ↦
        if r.dst_addr.has_ext then some (put 8 r.dst_addr.ext ▸ put 1 r.dst_endpoint) else none
    | _ ↦ none
  ]

  -- What stands in front of the destination.
  pub put_head : ApsDataRequest → Stream → Stream
  put_head r =
      put 1 r.id
      ▸ (if ltb 1 r.version then put 1 (flags_of r) else λ s. s)
      ▸ (if node_flag r then put 2 r.node_id else λ s. s)
      ▸ put 1 r.dst_addr_mode

  -- What stands behind it.
  pub put_body : ApsDataRequest → Stream → Stream
  put_body r =
      put 2 r.profile_id
      ▸ put 2 r.cluster_id
      ▸ put 1 r.src_endpoint
      ▸ put 2 (u16 (length r.asdu))
      ▸ put_all q r.asdu
      ▸ put 1 r.tx_options
      ▸ put 1 r.radius
      ▸ (if relay_flag r
          then put 1 r.relay_count ▸ put_words q (take r.relay_count r.source_route)
          else λ s. s)

  -- `ApsDataRequest::writeToStream`
  pub write_request : ApsDataRequest → Stream → ℕ × Stream
  write_request r s = elim (target_writer r) [
    | none ↦ (0, put_head r s)
    | some w ↦ (1, (put_head r ▸ w ▸ put_body r) s)
  ]

  -- The fields behind the destination.
  pub read_body : ApsDataRequest → Reader Stream ApsDataRequest
  read_body r = do
    profile ← get 2
    cluster ← get 2
    endpoint ← get 1
    size ← get 2
    asdu ← read_n q size
    options ← get 1
    radius ← get 1
    give (record r {
      profile_id = profile;
      cluster_id = cluster;
      src_endpoint = endpoint;
      asdu = asdu;
      tx_options = set_flags (1 ∷ 2 ∷ 4 ∷ 8 ∷ []) (bit_and options 0x0f) r.tx_options;
      radius = radius;
    })

  -- The destination and all that follows it.
  pub read_target : Mode → ApsDataRequest → Reader Stream ApsDataRequest
  read_target no_target r = read_body r
  read_target group_target r =
      get 2 >>= λ addr. read_body (record r { dst_addr = set_group addr r.dst_addr })
  read_target nwk_target r = get 2 >>= λ addr. get 1 >>= λ endpoint.
      read_body (record r { dst_addr = set_nwk addr r.dst_addr; dst_endpoint = endpoint })
  read_target ext_target r = get 8 >>= λ addr. get 1 >>= λ endpoint.
      read_body (record r { dst_addr = set_ext addr r.dst_addr; dst_endpoint = endpoint })
  read_target nwk_ext_target r = give r
  read_target no_such_mode r = give r

  -- `ApsDataRequest::readFromStream`
  pub read_request : ApsDataRequest → Reader Stream ApsDataRequest
  read_request r = get 1 >>= λ id.
      get 1 >>= λ mode. read_target (mode_of mode) (record r { id = id; dst_addr_mode = mode })
