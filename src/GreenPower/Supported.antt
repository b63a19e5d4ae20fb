-- ===== src/GreenPower/Supported.antt =====
-- Only frames of a supported type, version and application are accepted.
use deconz_lib.Base.{
  ℕ, ◌*◌, ◌/◌, ◌%◌, ◌<◌, ◌≡◌, ◌==◌, refl, Bool, true, not, if◌then◌else◌, if-both, Bool-cases, inl,
  inr, arith, bit_and, bit_and_ones, and_digit,
}
use deconz_lib.DataStream.{StreamApi, ◌>>=◌, give, unless_end}
use deconz_lib.GreenPower.{
  GpDataIndication, has_extension, is_supported_frame, is_supported_application, read_command,
  read_counter, read_src_id, read_application, read_extension, read_gp_frame, has_command,
  has_counter, has_src_id,
}

-- The control bytes of a data or maintenance frame of version 3, without or with an extension that
-- names one of the first three applications.
abbrev pub IsSupported : ℕ → ℕ → Type 0
IsSupported control ext = (control % 4 < 2) × (control / 4 % 4 ≡ 3) × (ext % 8 < 3)

frame-IsSupported :
    (control ext : ℕ)
    → is_supported_frame control ≡ true
    → is_supported_application ext ≡ true
    → IsSupported control ext
frame-IsSupported control ext h k = (
  ground (arith, bit_and_ones 2 control, h),
  ground (arith, bit_and_ones 2 (control / 4), h),
  ground (arith, k),
)

-- `&` with one bit, from the lowest on.
bit_1 : (n : ℕ) → bit_and n 2 ≡ n / 2 % 2 * 2
bit_1 n = omega (arith, and_digit n 2, bit_and_ones 1 (n / 2))

bit_2 : (n : ℕ) → bit_and n 4 ≡ n / 4 % 2 * 4
bit_2 n = omega (arith, and_digit n 4, bit_1 (n / 2))

bit_3 : (n : ℕ) → bit_and n 8 ≡ n / 8 % 2 * 8
bit_3 n = omega (arith, and_digit n 8, bit_2 (n / 2))

bit_4 : (n : ℕ) → bit_and n 16 ≡ n / 16 % 2 * 16
bit_4 n = omega (arith, and_digit n 16, bit_3 (n / 2))

bit_5 : (n : ℕ) → bit_and n 32 ≡ n / 32 % 2 * 32
bit_5 n = omega (arith, and_digit n 32, bit_4 (n / 2))

bit_6 : (n : ℕ) → bit_and n 64 ≡ n / 64 % 2 * 64
bit_6 n = omega (arith, and_digit n 64, bit_5 (n / 2))

bit_7 : (n : ℕ) → bit_and n 128 ≡ n / 128 % 2 * 128
bit_7 n = omega (arith, and_digit n 128, bit_6 (n / 2))

pub has_extension-bit : (control : ℕ) → has_extension control ≡ not (control / 128 % 2 == 0)
has_extension-bit control = ground (arith, bit_7 control)

module _ (q : StreamApi) where
  open q use {Stream, get}

  -- The extended frame control behind a control byte: 0 where its top bit is not set.
  abbrev pub ext_behind : ℕ → Stream → ℕ
  ext_behind control s = if control / 128 % 2 == 0 then 0 else (get 1 s).0

module _ (q : StreamApi) (fuel : ℕ) where
  open q use {Stream, get, at_end}

  -- The control bytes are left alone.
  abbrev KeepsControl : GpDataIndication → (Bool × GpDataIndication) × Stream → Type 0
  KeepsControl d r =
      (r.0.1.nwk_frame_control ≡ d.nwk_frame_control)
      × (r.0.1.ext_frame_control ≡ d.ext_frame_control)

  command-KeepsControl :
      (d : GpDataIndication) (s : Stream) → KeepsControl d (read_command q fuel d s)
  unfolding read_command ◌>>=◌ give unless_end
  command-KeepsControl d s = elim (Bool-cases (has_command d.ext_frame_control)) [
    | inl e ↦ rw e (if-both (KeepsControl d) (at_end s) (refl, refl) (refl, refl))
    | inr e ↦ rw e (refl, refl)
  ]

  counter-KeepsControl :
      (d : GpDataIndication) (s : Stream) → KeepsControl d (read_counter q fuel d s)
  unfolding read_counter ◌>>=◌ unless_end
  counter-KeepsControl d s =
      elim (Bool-cases (has_counter d.nwk_frame_control d.ext_frame_control)) [
        | inl e ↦ rw e (if-both (KeepsControl d) (at_end s) (refl, refl) (command-KeepsControl _ _))
        | inr e ↦ rw e (command-KeepsControl _ _)
      ]

  src-KeepsControl : (d : GpDataIndication) (s : Stream) → KeepsControl d (read_src_id q fuel d s)
  unfolding read_src_id ◌>>=◌ unless_end
  src-KeepsControl d s = elim (Bool-cases (has_src_id d.nwk_frame_control d.ext_frame_control)) [
    | inl e ↦ rw e (if-both (KeepsControl d) (at_end s) (refl, refl) (counter-KeepsControl _ _))
    | inr e ↦ rw e (counter-KeepsControl _ _)
  ]

  -- What an accepted frame has, whose control bytes are these.
  abbrev Accepted : ℕ → ℕ → (Bool × GpDataIndication) × Stream → Type 0
  Accepted control ext r =
      r.0.0 ≡ true
      → (r.0.1.nwk_frame_control ≡ control)
        × (r.0.1.ext_frame_control ≡ ext)
        × IsSupported control ext

  application-Accepted :
      (d : GpDataIndication) (s : Stream)
      → is_supported_frame d.nwk_frame_control ≡ true
      → Accepted d.nwk_frame_control d.ext_frame_control (read_application q fuel d s)
  unfolding read_application give
  application-Accepted d s h = elim (Bool-cases (is_supported_application d.ext_frame_control)) [
    | inl e ↦
        let keeps = src-KeepsControl d s in
        rw e
          (λ ok. (keeps.0, keeps.1, frame-IsSupported d.nwk_frame_control d.ext_frame_control h e))
    | inr e ↦ rw e (λ ok. cc)
  ]

  extension-Accepted :
      (d : GpDataIndication) (s : Stream)
      → is_supported_frame d.nwk_frame_control ≡ true
      → Accepted d.nwk_frame_control
          (ext_behind q d.nwk_frame_control s)
          (read_extension q fuel d s)
  unfolding read_extension ◌>>=◌ unless_end
  extension-Accepted d s h =
      let bit = has_extension-bit d.nwk_frame_control in
      elim (Bool-cases (d.nwk_frame_control / 128 % 2 == 0)) [
        | inl e ↦ rw (bit, e) (application-Accepted _ _ h)
        | inr e ↦
            rw (bit, e)
              (if-both (Accepted d.nwk_frame_control (get 1 s).0) (at_end s) (λ ok. cc)
                (application-Accepted _ _ h))
      ]

  -- A frame that is accepted is a data or maintenance frame of version 3 with the application id 0,
  -- 1 or 2, whatever the bytes are: so say the first byte that is read, and the second where the top
  -- bit of the first announces it, which are the control bytes of the result. Any other one is
  -- refused.
  pub read_gp_frame-IsSupported :
      (d : GpDataIndication) (s : Stream)
      → (read_gp_frame q fuel d s).0.0 ≡ true
      → ((read_gp_frame q fuel d s).0.1.nwk_frame_control ≡ (get 1 s).0)
        × ((read_gp_frame q fuel d s).0.1.ext_frame_control ≡ ext_behind q (get 1 s).0 (get 1 s).1)
        × IsSupported (get 1 s).0 (ext_behind q (get 1 s).0 (get 1 s).1)
  unfolding read_gp_frame ◌>>=◌ unless_end give
  read_gp_frame-IsSupported d s =
      let Ok = Accepted (get 1 s).0 (ext_behind q (get 1 s).0 (get 1 s).1) in
      if-both Ok (at_end s) (λ ok. cc)
        (elim (Bool-cases (is_supported_frame (get 1 s).0)) [
          | inl e ↦ rw e (extension-Accepted _ _ e)
          | inr e ↦ rw e (λ ok. cc)
        ])
