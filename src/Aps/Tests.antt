-- ===== src/Aps/Tests.antt =====
-- A request and an indication, written and read in memory.
use deconz_lib.Base.{ℕ, ◌≡◌, refl, List, [], ◌∷◌, ◌++◌, arith, replicate}
use deconz_lib.BindingTable.{no_address, set_ext}
use deconz_lib.Aps.{set_nwk, nwk_target, ext_target}
use deconz_lib.Aps.Request.{ApsDataRequest, write_request, read_request}
use deconz_lib.Aps.Request.Wire.{received}
use deconz_lib.Aps.Request.RoundTrip.{read_request-write_request}
use deconz_lib.Aps.Indication.{ApsDataIndication, write_indication, read_indication}
use deconz_lib.Aps.Indication.Wire.{IsIndication, received as received_indication}
use deconz_lib.Aps.Indication.RoundTrip.{read_indication-write_indication}
use deconz_lib.DataStream.Memory.{memory, memory-IsStream, stream_of}
use deconz_lib.DataStream.Rules.{At}

abbrev no_request : ApsDataRequest
no_request = record {
  id = 0;
  version = 1;
  node_id = 0xffff;
  dst_addr_mode = 0;
  dst_addr = no_address;
  dst_endpoint = 0xff;
  profile_id = 0xffff;
  cluster_id = 0xffff;
  src_endpoint = 0xff;
  asdu = [];
  tx_options = 0;
  radius = 0;
  relay_count = 0;
  source_route = replicate 9 0;
}

abbrev toggle : ApsDataRequest
toggle = record no_request {
  id = 5;
  dst_addr_mode = 2;
  dst_addr = set_nwk 0x1234 no_address;
  dst_endpoint = 1;
  profile_id = 0x0104;
  cluster_id = 6;
  src_endpoint = 1;
  asdu = 1 ∷ 9 ∷ 2 ∷ [];
  tx_options = 4;
}

-- The bytes of the request.
abbrev toggle_bytes : List ℕ
toggle_bytes = (write_request memory toggle (stream_of [])).1.out

read_request-write_request_example :
    ((write_request memory toggle (stream_of [])).0 ≡ 1)
    × ((read_request memory no_request (stream_of (toggle_bytes ++ 8 ∷ []))).0
        ≡ received nwk_target toggle no_request)
    × At memory memory-IsStream
        (read_request memory no_request (stream_of (toggle_bytes ++ 8 ∷ []))).1
        (8 ∷ [])
read_request-write_request_example =
    read_request-write_request memory memory-IsStream nwk_target toggle no_request (stream_of [])
      (stream_of (toggle_bytes ++ 8 ∷ [])) (8 ∷ []) refl refl (omega arith) refl (omega arith) refl
      (refl, refl)

abbrev no_indication : ApsDataIndication
no_indication = record {
  dst_addr_mode = 0;
  dst_addr = no_address;
  dst_endpoint = 0xff;
  src_addr_mode = 0;
  src_addr = no_address;
  src_endpoint = 0xff;
  profile_id = 0xffff;
  cluster_id = 0xffff;
  asdu_size = 0;
  previous_hop = 0xffff;
  status = 0xff;
  security_status = 0xff;
  link_quality = 0xff;
  rx_time = 0;
  rssi = 0;
  version = 2;
  asdu_buf = replicate 118 0;
}

-- A report of a device, to endpoint 1.
abbrev report : ApsDataIndication
report = record no_indication {
  dst_addr_mode = 2;
  dst_endpoint = 1;
  src_addr_mode = 3;
  src_addr = set_ext 0x00212effff000001 no_address;
  src_endpoint = 2;
  asdu_size = 3;
  asdu_buf = 1 ∷ 2 ∷ 3 ∷ replicate 115 0;
  rssi = 0xc0;
}

report_fits : IsIndication report
report_fits = record {
  dst_address = omega arith;
  dst_endpoint_byte = omega arith;
  src_address = omega arith;
  src_endpoint_byte = omega arith;
  profile_word = omega arith;
  cluster_word = omega arith;
  inside = omega arith;
  buf = refl;
  asdu_bytes = omega arith;
  status_byte = omega arith;
  security_byte = omega arith;
  quality_byte = omega arith;
  time_word = omega arith;
  rssi_byte = omega arith;
}

abbrev report_bytes : List ℕ
report_bytes = (write_indication memory report (stream_of [])).out

read_indication-write_indication_example :
    ((read_indication memory no_indication (stream_of (report_bytes ++ []))).0
      ≡ received_indication nwk_target ext_target report no_indication)
    × At memory memory-IsStream
        (read_indication memory no_indication (stream_of (report_bytes ++ []))).1
        []
read_indication-write_indication_example =
    read_indication-write_indication memory memory-IsStream report report_fits nwk_target ext_target
      (no_indication) (stream_of []) (stream_of (report_bytes ++ [])) [] tt tt refl refl refl refl
      refl (refl, refl)
