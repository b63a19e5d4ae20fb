-- ===== src/ZdpDescriptors/Node/Flags.antt =====
-- The setters of a node descriptor change what they name, and no other flag.
use deconz_lib.Base.{
  ℕ, ◌≡◌, refl, ◌<◌, ◌^◌, Bool, true, false, not, ◌&&◌, arith, length, IsByte, ◌==◌, ==→eq,
  if◌then◌else◌, get_or-set_self, get_or-set_ne, Bool-cases, inl, inr, ◌∙◌, sym, ap,
}
use deconz_lib.Base.Text.{all_below, all_below→}
use deconz_lib.BufferHelper.RoundTrip.{two, get, put, get-put}
use deconz_lib.ZdpDescriptors.Node.{
  manufacturer_code, set_manufacturer_code, NodeDescriptor, Flag, complex_descriptor,
  user_descriptor, alternate_pan_coordinator, full_function_device, mains_powered, rx_on_when_idle,
  security_support, flag_byte, flag_bit, has_bit, put_bit, has_flag, set_flag, byte_at, raw_size,
}

-- The place of a flag's bit.
abbrev pub flag_index : Flag → ℕ
flag_index complex_descriptor = 3
flag_index user_descriptor = 4
flag_index alternate_pan_coordinator = 0
flag_index full_function_device = 1
flag_index mains_powered = 2
flag_index rx_on_when_idle = 3
flag_index security_support = 6

flag_index_lem :
    (f : Flag) → (flag_bit f ≡ 2 ^ flag_index f) × (flag_index f < 8) × (flag_byte f < 13)
flag_index_lem complex_descriptor = (refl, omega arith, omega arith)
flag_index_lem user_descriptor = (refl, omega arith, omega arith)
flag_index_lem alternate_pan_coordinator = (refl, omega arith, omega arith)
flag_index_lem full_function_device = (refl, omega arith, omega arith)
flag_index_lem mains_powered = (refl, omega arith, omega arith)
flag_index_lem rx_on_when_idle = (refl, omega arith, omega arith)
flag_index_lem security_support = (refl, omega arith, omega arith)

abbrev pub same_flag : Flag → Flag → Bool
same_flag f g = flag_byte f == flag_byte g && flag_index f == flag_index g

abbrev same_bool : Bool → Bool → Bool
same_bool true b = b
same_bool false b = not b

same_bool→eq : (a b : Bool) → same_bool a b ≡ true → a ≡ b
same_bool→eq true true h = refl
same_bool→eq true false h = sym h
same_bool→eq false true h = h
same_bool→eq false false h = refl

-- Writing a bit of a byte and reading another.
bit_kept : Bool → ℕ → ℕ → ℕ → Bool
bit_kept v i j b =
    same_bool (has_bit (2 ^ j) (put_bit (2 ^ i) v b)) (if i == j then v else has_bit (2 ^ j) b)

bit_row : Bool → ℕ → ℕ → Bool
bit_row v i j = all_below 256 (λ b. bit_kept v i j b)

bit_rows : Bool → ℕ → Bool
bit_rows v i = all_below 8 (λ j. bit_row v i j)

bit_table : (v : Bool) → all_below 8 (λ i. bit_rows v i) ≡ true
unfolding all_below bit_rows bit_row bit_kept put_bit
bit_table true = refl
bit_table false = refl

has_bit-put_bit :
    (v : Bool) (i j b : ℕ)
    → i < 8
    → j < 8
    → b < 256
    → has_bit (2 ^ j) (put_bit (2 ^ i) v b) ≡ (if i == j then v else has_bit (2 ^ j) b)
unfolding bit_rows bit_row bit_kept
has_bit-put_bit v i j b hi hj hb =
    let rows = all_below→ 8 (λ i. bit_rows v i) i (bit_table v) hi in
    let row = all_below→ 8 (λ j. bit_row v i j) j rows hj in
    same_bool→eq _ _ (all_below→ 256 (λ b. bit_kept v i j b) b row hb)

-- A flag that is set is read back, and every other one is as it was. The descriptor has its 13 bytes.
pub has_flag-set_flag :
    (f g : Flag) (v : Bool) (d : NodeDescriptor)
    → length d.raw ≡ raw_size
    → IsByte (byte_at (flag_byte f) d)
    → has_flag g (set_flag f v d) ≡ (if same_flag f g then v else has_flag g d)
unfolding has_flag set_flag
has_flag-set_flag f g v d size b = elim (Bool-cases (flag_byte f == flag_byte g)) [
  | inl same ↦
      let e = ==→eq (flag_byte f) (flag_byte g) same in
      rw (same, ← e)
        (ap (has_bit (flag_bit g))
            (get_or-set_self d.raw (flag_byte f) _ 0 (omega (arith, size, (flag_index_lem f).2)))
          ∙ rw ((flag_index_lem f).0, (flag_index_lem g).0)
              (has_bit-put_bit v (flag_index f) (flag_index g) (byte_at (flag_byte f) d)
                ((flag_index_lem f).1) (flag_index_lem g).1 b))
  | inr other ↦ rw other (
      ap (has_bit (flag_bit g))
        (get_or-set_ne d.raw (flag_byte f) (flag_byte g) _ 0 (λ e. ground arith)))
]

-- The manufacturer code that is set is read back.
manufacturer_code-set :
    (code : ℕ) (d : NodeDescriptor)
    → code < 2 ^ 16
    → length d.raw ≡ raw_size
    → manufacturer_code (set_manufacturer_code code d) ≡ code
unfolding manufacturer_code set_manufacturer_code get put
manufacturer_code-set code d h size =
    ap (λ r. r.0) (get-put two d.raw 3 code h (omega (arith, size)))
