-- ===== src/BindingTable/Tests.antt =====
-- The theorems of the binding table at concrete inputs.
use deconz_lib.Base.{ℕ, ◌≡◌, refl, true, List, [], ◌∷◌, ◌++◌, arith}
use deconz_lib.Base.Int.{pos}
use deconz_lib.BindingTable.{Binding, BindingTable, unicast, groupcast}
use deconz_lib.BindingTable.Reader.{
  no_binding, to_ext, source_bytes, target_bytes, accepts, binding_to, read_binding,
  read_binding-entry, read_binding-accepts,
}
use deconz_lib.DataStream.Memory.{memory, memory-IsStream, stream_of}
use deconz_lib.DataStream.Rules.{At}
use deconz_lib.BindingTable.Order.{
  IsTable, Call, add_call, remove_call, clear_call, set_time, run_all, run_all-IsTable,
}

abbrev lamp : Binding
lamp = unicast 0x00212effff000001 0x00212effff000002 6 1 1

abbrev room : Binding
room = groupcast 0x00212effff000001 7 8 1

abbrev empty : BindingTable
empty = record { response_index0 = pos 0; table = [] }

abbrev calls : List Call
calls =
    add_call lamp
    ∷ add_call room
    ∷ add_call lamp
    ∷ remove_call room
    ∷ set_time (pos 5)
    ∷ clear_call
    ∷ []

run_all-IsTable_example : IsTable (run_all calls empty)
run_all-IsTable_example = run_all-IsTable calls empty (record { distinct = tt; valid = tt })

abbrev mixed : BindingTable
mixed = record {
  response_index0 = pos 5;
  table = lamp ∷ record room { confirmed = pos 9 } ∷ record lamp { cluster = 8 } ∷ [];
}

-- An entry that leads to endpoint 2 of another device, and a byte behind it.
abbrev entry_bytes : List ℕ
entry_bytes = (source_bytes 5 1 6 3 ++ target_bytes (to_ext 9 2)) ++ 77 ∷ []

read_binding-entry_example :
    ((read_binding memory no_binding (stream_of entry_bytes)).0
      ≡ (true, binding_to 5 6 1 (to_ext 9 2)))
    × At memory memory-IsStream (read_binding memory no_binding (stream_of entry_bytes)).1 (77 ∷ [])
read_binding-entry_example =
    read_binding-entry memory memory-IsStream 5 1 6 (omega arith) (omega arith) (omega arith)
      (to_ext 9 2) (stream_of entry_bytes) (77 ∷ []) (omega arith) (refl, refl)

-- The extended address is cut off.
read_binding-accepts_example :
    (read_binding memory no_binding (stream_of (source_bytes 5 1 6 3 ++ 1 ∷ 2 ∷ []))).0.0
    ≡ accepts 3 2
read_binding-accepts_example =
    read_binding-accepts memory memory-IsStream 5 1 6 (omega arith) (omega arith) (omega arith)
      (no_binding) 3 (stream_of (source_bytes 5 1 6 3 ++ 1 ∷ 2 ∷ [])) (1 ∷ 2 ∷ []) (omega arith)
      (refl, refl)
