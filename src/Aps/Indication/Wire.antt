-- ===== src/Aps/Indication/Wire.antt =====
-- The bytes of an indication, and what a reader of them holds.
use deconz_lib.Base.{
  ℕ, ◌≡◌, ◌<◌, ◌≤◌, ◌^◌, List, [], ◌++◌, length, All, IsByte, leb, if◌then◌else◌, take, store,
}
use deconz_lib.Base.Shift.{bytes_le}
use deconz_lib.BindingTable.{Address, set_ext, set_group}
use deconz_lib.Aps.{
  set_nwk, Mode, group_target, nwk_target, ext_target, nwk_ext_target, no_such_mode,
}
use deconz_lib.Aps.Indication.{ApsDataIndication, buf_size}

pub record IsAddress (a : Address) : Type 0 where
  pub ext_word : a.ext < 256 ^ 8
  pub nwk_word : a.nwk < 256 ^ 2
  pub group_word : a.group < 256 ^ 2

-- The fields are in the range of their types, and the view is inside of the array.
pub record IsIndication (v : ApsDataIndication) : Type 0 where
  pub dst_address : IsAddress v.dst_addr
  pub dst_endpoint_byte : IsByte v.dst_endpoint
  pub src_address : IsAddress v.src_addr
  pub src_endpoint_byte : IsByte v.src_endpoint
  pub profile_word : v.profile_id < 256 ^ 2
  pub cluster_word : v.cluster_id < 256 ^ 2
  pub inside : v.asdu_size ≤ buf_size
  pub buf : length v.asdu_buf ≡ buf_size
  pub asdu_bytes : All IsByte (take v.asdu_size v.asdu_buf)
  pub status_byte : IsByte v.status
  pub security_byte : IsByte v.security_status
  pub quality_byte : IsByte v.link_quality
  pub time_word : v.rx_time < 256 ^ 4
  pub rssi_byte : IsByte v.rssi

-- The modes that have an address of their own, or none.
abbrev pub IsPlain : Mode → Type 0
IsPlain nwk_ext_target = ⊥
IsPlain no_such_mode = ⊥
IsPlain _ = Unit {0}

-- The address of a reader that held `old`, and the bytes of one.
abbrev pub address_read : Mode → Address → Address → Address
address_read group_target a old = set_group a.group old
address_read nwk_target a old = set_nwk a.nwk old
address_read ext_target a old = set_ext a.ext old
address_read _ a old = old

abbrev pub address_bytes : Mode → Address → List ℕ
address_bytes group_target a = bytes_le 2 a.group
address_bytes nwk_target a = bytes_le 2 a.nwk
address_bytes ext_target a = bytes_le 8 a.ext
address_bytes _ a = []

-- The fields of `v` that come over, but for the addresses.
abbrev pub take_quality : ApsDataIndication → ApsDataIndication → ApsDataIndication
take_quality v old = record old {
  link_quality = v.link_quality;
  rx_time = v.rx_time;
  rssi = if leb 2 old.version then v.rssi else old.rssi;
}

abbrev pub take_fields : ApsDataIndication → ApsDataIndication → ApsDataIndication
take_fields v old = take_quality v (record old {
  src_endpoint = v.src_endpoint;
  profile_id = v.profile_id;
  cluster_id = v.cluster_id;
  asdu_size = v.asdu_size;
  asdu_buf = store old.asdu_buf 0 (take v.asdu_size v.asdu_buf);
  status = v.status;
  security_status = v.security_status;
})

-- What a reader that holds `old` holds behind `v`.
abbrev pub received : Mode → Mode → ApsDataIndication → ApsDataIndication → ApsDataIndication
received dst src v old = take_fields v (record old {
  dst_addr_mode = v.dst_addr_mode;
  dst_addr = address_read dst v.dst_addr old.dst_addr;
  dst_endpoint = v.dst_endpoint;
  src_addr_mode = v.src_addr_mode;
  src_addr = address_read src v.src_addr old.src_addr;
})

abbrev pub quality_bytes : ApsDataIndication → List ℕ
quality_bytes v =
    bytes_le 1 v.link_quality
    ++ (bytes_le 4 v.rx_time ++ (if leb 2 v.version then bytes_le 1 v.rssi else []))

abbrev pub field_bytes : ApsDataIndication → List ℕ
field_bytes v =
    bytes_le 1 v.src_endpoint
    ++ (bytes_le 2 v.profile_id
        ++ (bytes_le 2 v.cluster_id
            ++ (bytes_le 2 v.asdu_size
                ++ (take v.asdu_size v.asdu_buf
                    ++ (bytes_le 1 v.status
                        ++ (bytes_le 1 v.security_status ++ quality_bytes v))))))
