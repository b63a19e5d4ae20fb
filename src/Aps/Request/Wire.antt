-- ===== src/Aps/Request/Wire.antt =====
-- The bytes of a request of version 1, and what a reader of them holds.
use deconz_lib.Base.{
  ℕ, ◌≡◌, refl, ◌<◌, ◌^◌, Bool, true, List, [], ◌∷◌, ◌++◌, arith, length, All, IsByte, ==→eq, ◌==◌,
  bit_and,
}
use deconz_lib.Base.Shift.{bytes_le}
use deconz_lib.Base.Text.{all_below, all_below→}
use deconz_lib.BindingTable.{Address, set_ext, set_group}
use deconz_lib.Aps.{
  set_nwk, Mode, no_target, group_target, nwk_target, ext_target, nwk_ext_target, no_such_mode,
  mode_of, mode_byte,
}
use deconz_lib.Aps.Request.{ApsDataRequest, set_flags}

-- The fields are in the range of their types.
pub record IsRequest (r : ApsDataRequest) : Type 0 where
  pub id_byte : IsByte r.id
  pub profile_word : r.profile_id < 256 ^ 2
  pub cluster_word : r.cluster_id < 256 ^ 2
  pub endpoint_byte : IsByte r.src_endpoint
  pub dst_endpoint_byte : IsByte r.dst_endpoint
  pub size_word : length r.asdu < 256 ^ 2
  pub asdu_bytes : All IsByte r.asdu
  pub options_bits : r.tx_options < 16
  pub radius_byte : IsByte r.radius
  pub ext_word : r.dst_addr.ext < 256 ^ 8
  pub nwk_word : r.dst_addr.nwk < 256 ^ 2
  pub group_word : r.dst_addr.group < 256 ^ 2

-- The address that the mode asks for is set.
abbrev pub HasTarget : Mode → ApsDataRequest → Type 0
HasTarget group_target r = r.dst_addr.has_group ≡ true
HasTarget nwk_target r = r.dst_addr.has_nwk ≡ true
HasTarget ext_target r = r.dst_addr.has_ext ≡ true
HasTarget _ r = ⊥

-- The address of a reader behind the destination, and the endpoint.
abbrev pub address_read : Mode → ApsDataRequest → Address → Address
address_read group_target r a = set_group r.dst_addr.group a
address_read nwk_target r a = set_nwk r.dst_addr.nwk a
address_read ext_target r a = set_ext r.dst_addr.ext a
address_read _ r a = a

abbrev pub endpoint_read : Mode → ApsDataRequest → ℕ → ℕ
endpoint_read nwk_target r e = r.dst_endpoint
endpoint_read ext_target r e = r.dst_endpoint
endpoint_read _ r e = e

-- What a reader that holds `old` holds behind the request `r`.
abbrev pub received : Mode → ApsDataRequest → ApsDataRequest → ApsDataRequest
received m r old = record old {
  id = r.id;
  dst_addr_mode = r.dst_addr_mode;
  dst_addr = address_read m r old.dst_addr;
  dst_endpoint = endpoint_read m r old.dst_endpoint;
  profile_id = r.profile_id;
  cluster_id = r.cluster_id;
  src_endpoint = r.src_endpoint;
  asdu = r.asdu;
  tx_options = r.tx_options;
  radius = r.radius;
}

flags_row : ℕ → Bool
flags_row x = all_below 16 (λ b. set_flags (1 ∷ 2 ∷ 4 ∷ 8 ∷ []) (bit_and b 0x0f) x == b)

flags_table : all_below 16 flags_row ≡ true
unfolding all_below flags_row set_flags
flags_table = refl

pub set_flags-all :
    (x b : ℕ) → x < 16 → b < 16 → set_flags (1 ∷ 2 ∷ 4 ∷ 8 ∷ []) (bit_and b 0x0f) x ≡ b
unfolding flags_row
set_flags-all x b h k =
    let row = all_below→ 16 flags_row x flags_table h in
    ==→eq _ b (all_below→ 16 (λ b. set_flags (1 ∷ 2 ∷ 4 ∷ 8 ∷ []) (bit_and b 0x0f) x == b) b row k)

abbrev pub body_bytes : ApsDataRequest → List ℕ
body_bytes r =
    bytes_le 2 r.profile_id
    ++ (bytes_le 2 r.cluster_id
        ++ (bytes_le 1 r.src_endpoint
            ++ (bytes_le 2 (length r.asdu)
                ++ (r.asdu ++ (bytes_le 1 r.tx_options ++ (bytes_le 1 r.radius ++ []))))))

abbrev pub target_bytes : Mode → ApsDataRequest → List ℕ
target_bytes group_target r = bytes_le 2 r.dst_addr.group
target_bytes nwk_target r = bytes_le 2 r.dst_addr.nwk ++ bytes_le 1 r.dst_endpoint
target_bytes ext_target r = bytes_le 8 r.dst_addr.ext ++ bytes_le 1 r.dst_endpoint
target_bytes _ r = []

abbrev pub sent_bytes : Mode → ApsDataRequest → List ℕ
sent_bytes m r =
    (bytes_le 1 r.id ++ ([] ++ ([] ++ bytes_le 1 r.dst_addr_mode)))
    ++ (target_bytes m r ++ body_bytes r)

pub mode_of-mode_byte : (m : Mode) → mode_of (mode_byte m) ≡ m
mode_of-mode_byte no_target = refl
mode_of-mode_byte group_target = refl
mode_of-mode_byte nwk_target = refl
mode_of-mode_byte ext_target = refl
mode_of-mode_byte nwk_ext_target = refl
mode_of-mode_byte no_such_mode = refl

pub mode_byte-IsByte : (m : Mode) → IsByte (mode_byte m)
mode_byte-IsByte no_target = omega arith
mode_byte-IsByte group_target = omega arith
mode_byte-IsByte nwk_target = omega arith
mode_byte-IsByte ext_target = omega arith
mode_byte-IsByte nwk_ext_target = omega arith
mode_byte-IsByte no_such_mode = omega arith
