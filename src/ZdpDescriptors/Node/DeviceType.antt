-- ===== src/ZdpDescriptors/Node/DeviceType.antt =====
-- The device type that is set stands in the bytes too, where a reader finds it.
use deconz_lib.Base.{
  ℕ, ◌≡◌, refl, ◌<◌, Bool, true, false, ◌&&◌, List, [], ◌∷◌, ◌++◌, arith, length, get_or, set, All,
  IsByte, ltb, ltb→lt, bit_and_ones, ◌==◌, ==→eq, get_or-set_self, length-set, ◌∙◌, ap,
}
use deconz_lib.Base.Text.{all_below, all_below→}
use deconz_lib.DataStream.{StreamApi, IsStream}
use deconz_lib.DataStream.Rules.{At}
use deconz_lib.ZdpDescriptors.Node.{
  NodeDescriptor, raw_size, byte_at, type_of, read_node, type_byte, set_device_type,
}
use deconz_lib.ZdpDescriptors.Node.Wire.{read_node-bytes}

-- The first byte behind `setDeviceType`, for all values of it.
type_fits : ℕ → ℕ → Bool
type_fits t b = (type_of (type_byte t b) == t) && ltb (type_byte t b) 256

type_row : ℕ → Bool
type_row t = all_below 256 (λ b. type_fits t b)

type_table : all_below 3 (λ t. type_row t) ≡ true
unfolding all_below type_row type_fits type_byte
type_table = refl

both-true : (a b : Bool) → (a && b) ≡ true → (a ≡ true) × (b ≡ true)
both-true true true h = (refl, refl)
both-true true false h = (refl, h)
both-true false b h = (h, cc)

type_of-type_byte :
    (t b : ℕ) → t < 3 → b < 256 → (type_of (type_byte t b) ≡ t) × IsByte (type_byte t b)
unfolding type_row type_fits
type_of-type_byte t b ht hb =
    let row = all_below→ 3 (λ t. type_row t) t type_table ht in
    let fits = both-true _ _ (all_below→ 256 (λ b. type_fits t b) b row hb) in
    (==→eq _ t fits.0, ltb→lt _ 256 fits.1)

All-set : (bs : List ℕ) (v : ℕ) → All IsByte bs → IsByte v → All IsByte (set bs 0 v)
All-set [] v h k = tt
All-set (b ∷ bs) v h k = (k, h.1)

first-IsByte : (bs : List ℕ) → All IsByte bs → IsByte (get_or bs 0 0)
first-IsByte [] h = omega arith
first-IsByte (b ∷ bs) h = h.0

-- The device type of a descriptor that is set to coordinator, router or end device is that type,
-- and a reader finds it in a stream that holds the descriptor's bytes and nothing else. Both
-- descriptors have 13 bytes, and those that are written are in the range of a byte.
pub read_node-set_device_type :
    (q : StreamApi) (laws : IsStream q) (t : ℕ) (d old : NodeDescriptor) (s : q.Stream)
    → t < 3
    → length d.raw ≡ raw_size
    → All IsByte d.raw
    → length old.raw ≡ raw_size
    → At q laws s ((set_device_type t d).raw ++ [])
    → ((read_node q old s).0.device_type ≡ t) × ((set_device_type t d).device_type ≡ t)
unfolding set_device_type
read_node-set_device_type q laws t d old s small size h k here =
    let first = first-IsByte d.raw h in
    let byte = type_of-type_byte t (byte_at 0 d) small first in
    let back =
      read_node-bytes q laws old s (set_device_type t d).raw [] k
        (length-set {A = ℕ} d.raw 0 _ ∙ size) (All-set d.raw _ h byte.1) here in
    (
      ap (λ n. n.device_type) back.0
          ∙ ap type_of (get_or-set_self d.raw 0 _ 0 (omega (arith, size)))
          ∙ byte.0,
      bit_and_ones 2 t ∙ omega arith,
    )
