-- ===== src/ZdpDescriptors/Tests.antt =====
-- The descriptors of a lamp.
use deconz_lib.Base.{ℕ, ◌≡◌, refl, false, List, [], ◌∷◌, ◌++◌, arith, if◌then◌else◌}
use deconz_lib.DataStream.Memory.{memory, memory-IsStream, stream_of}
use deconz_lib.DataStream.Rules.{At}
use deconz_lib.ZdpDescriptors.Node.{
  NodeDescriptor, no_node, end_device, read_node, set_device_type, has_flag, set_flag,
  mains_powered, rx_on_when_idle,
}
use deconz_lib.ZdpDescriptors.Node.Flags.{same_flag, has_flag-set_flag}
use deconz_lib.ZdpDescriptors.Node.Wire.{described, undescribed, read_node-bytes, read_node-short}
use deconz_lib.ZdpDescriptors.Node.DeviceType.{read_node-set_device_type}
use deconz_lib.ZdpDescriptors.Simple.{
  ClusterApi, IsClusterApi, SimpleDescriptor, no_descriptor, read_simple, write_simple,
}
use deconz_lib.ZdpDescriptors.Simple.Cut.{read_simple-endpoint}
use deconz_lib.ZdpDescriptors.Simple.RoundTrip.{descriptor, read_simple-write_simple}

abbrev node_bytes : List ℕ
node_bytes = 1 ∷ 0x40 ∷ 0x8e ∷ 0x35 ∷ 0x11 ∷ 82 ∷ 82 ∷ 0 ∷ 0 ∷ 0x2c ∷ 82 ∷ 0 ∷ 0 ∷ []

abbrev lamp : NodeDescriptor
lamp = described node_bytes no_node

read_node-bytes_example :
    ((read_node memory no_node (stream_of (node_bytes ++ 7 ∷ []))).0 ≡ described node_bytes no_node)
    × At memory memory-IsStream
        (read_node memory no_node (stream_of (node_bytes ++ 7 ∷ []))).1
        (7 ∷ [])
read_node-bytes_example =
    read_node-bytes memory memory-IsStream no_node (stream_of (node_bytes ++ 7 ∷ [])) node_bytes
      (7 ∷ []) refl refl (omega arith) (refl, refl)

read_node-short_example : (read_node memory lamp (stream_of (1 ∷ 0x40 ∷ []))).0 ≡ undescribed lamp
read_node-short_example =
    read_node-short memory memory-IsStream lamp (stream_of (1 ∷ 0x40 ∷ [])) (omega arith)

has_flag-set_flag_example :
    has_flag rx_on_when_idle (set_flag mains_powered false lamp)
    ≡ (if same_flag mains_powered rx_on_when_idle then false else has_flag rx_on_when_idle lamp)
has_flag-set_flag_example =
    has_flag-set_flag mains_powered rx_on_when_idle false lamp refl (omega arith)

abbrev moved : List ℕ
moved = (set_device_type end_device lamp).raw ++ []

read_node-set_device_type_example :
    ((read_node memory no_node (stream_of moved)).0.device_type ≡ end_device)
    × ((set_device_type end_device lamp).device_type ≡ end_device)
read_node-set_device_type_example =
    read_node-set_device_type memory memory-IsStream end_device lamp no_node (stream_of moved)
      (omega arith) refl (omega arith) refl (refl, refl)

-- A data base whose clusters are their ids.
abbrev ids : ClusterApi
ids = record {
  Cluster = ℕ;
  id_of = λ n. n;
  in_cluster = λ profile id mfcode. id;
  out_cluster = λ profile id mfcode. id;
}

ids_laws : IsClusterApi ids
ids_laws = record {
  id-in_cluster = λ profile id mfcode. refl;
  id-out_cluster = λ profile id mfcode. refl;
}

abbrev plug : SimpleDescriptor ids
plug = descriptor ids ids_laws 0x1135 1 0x0104 0x0100 1 (0 ∷ 3 ∷ 6 ∷ []) (25 ∷ [])

abbrev plug_bytes : List ℕ
plug_bytes = (write_simple ids memory plug (stream_of [])).out ++ []

read_simple-write_simple_example :
    ((read_simple ids memory 0x1135 (no_descriptor ids) (stream_of plug_bytes)).0 ≡ plug)
    × At memory memory-IsStream
        (read_simple ids memory 0x1135 (no_descriptor ids) (stream_of plug_bytes)).1
        []
read_simple-write_simple_example =
    read_simple-write_simple ids ids_laws 0x1135 1 0x0104 0x0100 1 (0 ∷ 3 ∷ 6 ∷ []) (25 ∷ []) memory
      (memory-IsStream) (stream_of []) (stream_of plug_bytes) [] (omega arith) (omega arith)
      (omega arith) (omega arith)
      (record { few = omega arith; words = omega arith; distinct = (refl, (refl, (refl, tt))) })
      (record { few = omega arith; words = omega arith; distinct = (refl, tt) }) refl (refl, refl)

-- The clusters are cut off.
read_simple-endpoint_example :
    (read_simple ids memory 0 (no_descriptor ids) (stream_of (1 ∷ 4 ∷ 1 ∷ []))).0.endpoint ≡ (
      if (read_simple ids memory 0 (no_descriptor ids) (stream_of (1 ∷ 4 ∷ 1 ∷ []))).1.failed
      then 0xff
      else 1)
read_simple-endpoint_example =
    read_simple-endpoint ids memory 0 (no_descriptor ids) (stream_of (1 ∷ 4 ∷ 1 ∷ []))
