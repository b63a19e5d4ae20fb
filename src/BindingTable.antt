-- ===== src/BindingTable.antt =====
-- binding_table.cpp, deconz/binding_table.h, and the addresses of aps.cpp: the bindings of a node.
-- `m_table`, a vector, is a list; the bits of `m_addrModes` are three Boolean fields. The reader of a
-- QDataStream is not modelled.
pub mod Order
pub mod Old
pub mod Reader
mod Tests
use deconz_lib.Base.{
  ℕ, zero, suc, Bool, true, false, not, ◌&&◌, ◌||◌, Option, none, some, List, [], ◌∷◌, ◌++◌, ltb,
  ◌==◌, if◌then◌else◌,
}
use deconz_lib.Base.Int.{ℤ, pos, negsuc}

-- `Address`
pub record Address : Type 0 where
  pub ext : ℕ
  pub nwk : ℕ
  pub group : ℕ
  pub has_nwk : Bool
  pub has_ext : Bool
  pub has_group : Bool

-- `ApsAddressMode`
pub data AddressMode : Type 0 where
  no_mode group_mode nwk_mode ext_mode nwk_ext_mode : AddressMode

-- `Binding`; a time is the `int64_t` of its SteadyTimeRef.
pub record Binding : Type 0 where
  pub dst_addr : Address
  pub confirmed : ℤ
  pub src_addr : ℕ
  pub dst_addr_mode : AddressMode
  pub cluster : ℕ
  pub src_endpoint : ℕ
  pub dst_endpoint : ℕ

-- `BindingTable`
pub record BindingTable : Type 0 where
  pub response_index0 : ℤ
  pub table : List Binding

abbrev pub no_address : Address
no_address = record {
  ext = 0;
  nwk = 0;
  group = 0;
  has_nwk = false;
  has_ext = false;
  has_group = false;
}

-- `Address::setExt`, `Address::setGroup`
abbrev pub set_ext : ℕ → Address → Address
set_ext addr a = record a { ext = addr; has_ext = true }

abbrev pub set_group : ℕ → Address → Address
set_group addr a = record a { group = addr; has_group = true }

-- The two constructors with arguments.
abbrev pub unicast : ℕ → ℕ → ℕ → ℕ → ℕ → Binding
unicast src dst cluster src_ep dst_ep = record {
  dst_addr = set_ext dst no_address;
  confirmed = pos 0;
  src_addr = src;
  dst_addr_mode = ext_mode;
  cluster = cluster;
  src_endpoint = src_ep;
  dst_endpoint = dst_ep;
}

abbrev pub groupcast : ℕ → ℕ → ℕ → ℕ → Binding
groupcast src dst_group cluster src_ep = record {
  dst_addr = set_group dst_group no_address;
  confirmed = pos 0;
  src_addr = src;
  dst_addr_mode = group_mode;
  cluster = cluster;
  src_endpoint = src_ep;
  dst_endpoint = 0;
}

abbrev pub same_bit : Bool → Bool → Bool
same_bit true b = b
same_bit false b = not b

abbrev pub mode_number : AddressMode → ℕ
mode_number no_mode = 0
mode_number group_mode = 1
mode_number nwk_mode = 2
mode_number ext_mode = 3
mode_number nwk_ext_mode = 4

-- `Address::operator==`
pub same_address : Address → Address → Bool
same_address a b =
    same_bit a.has_nwk b.has_nwk
    && (same_bit a.has_ext b.has_ext
        && (same_bit a.has_group b.has_group
            && ((a.nwk == b.nwk) && ((a.ext == b.ext) && (a.group == b.group)))))

-- `Binding::operator==`
pub same : Binding → Binding → Bool
same a b =
    same_address a.dst_addr b.dst_addr
    && ((mode_number a.dst_addr_mode == mode_number b.dst_addr_mode)
        && ((a.src_addr == b.src_addr)
            && ((a.src_endpoint == b.src_endpoint)
                && ((a.dst_endpoint == b.dst_endpoint) && (a.cluster == b.cluster)))))

abbrev pub is_ext : AddressMode → Bool
is_ext ext_mode = true
is_ext _ = false

abbrev pub is_group : AddressMode → Bool
is_group group_mode = true
is_group _ = false

-- `Binding::isValid`
pub is_valid : Binding → Bool
is_valid b =
    not (b.src_addr == 0)
    && (((is_ext b.dst_addr_mode && b.dst_addr.has_ext)
          || (is_group b.dst_addr_mode && b.dst_addr.has_group))
        && (not (b.src_endpoint == 0xff) && not (b.dst_endpoint == 0xff)))

-- `BindingTable::contains`
pub contains : List Binding → Binding → Bool
contains [] b = false
contains (x ∷ xs) b = let rest = contains xs b in if same x b then true else rest

-- `BindingTable::add`
pub add : Binding → BindingTable → Bool × BindingTable
add b t =
    if is_valid b && not (contains t.table b)
    then (true, record t { table = t.table ++ (b ∷ []) })
    else (false, t)

-- `erase` of the first element that a test takes, if there is one.
pub erase_first : (Binding → Bool) → List Binding → Option (List Binding)
erase_first p [] = none
erase_first p (x ∷ xs) =
    let rest = erase_first p xs in
    if p x then some xs else elim rest [ none ↦ none | some ys ↦ some (x ∷ ys) ]

-- `BindingTable::remove`
pub remove : Binding → BindingTable → Bool × BindingTable
remove b t = elim (erase_first (λ x. same x b) t.table) [
  | none ↦ (false, t)
  | some xs ↦ (true, record t { table = xs })
]

-- `operator<` of times
abbrev pub before : ℤ → ℤ → Bool
before (pos a) (pos b) = ltb a b
before (pos a) (negsuc b) = false
before (negsuc a) (pos b) = true
before (negsuc a) (negsuc b) = ltb b a

-- The loop of `BindingTable::clearOldBindings`, with `n` rounds left.
pub clear_loop : ℕ → (Binding → Bool) → List Binding → List Binding
clear_loop zero p xs = xs
clear_loop (suc n) p xs = elim (erase_first p xs) [ none ↦ xs | some ys ↦ clear_loop n p ys ]

-- `BindingTable::clearOldBindings`
pub clear_old_bindings : BindingTable → BindingTable
clear_old_bindings t = record t {
  table = clear_loop 128 (λ b. before b.confirmed t.response_index0) t.table;
}
