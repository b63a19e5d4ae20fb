-- ===== src/GreenPower/Frame.antt =====
-- A frame of a green power device is read from the bytes that the reader's own tests ask for.
use mathlib.Core.Path.{subst}
use deconz_lib.Base.{
  ℕ, ◌≡◌, ◌<◌, ◌≤◌, ◌^◌, Bool, true, false, List, [], ◌++◌, length, All, IsByte, if◌then◌else◌,
}
use deconz_lib.Base.Shift.{bytes_le}
use deconz_lib.DataStream.{StreamApi, IsStream, Reader}
use deconz_lib.DataStream.Rules.{
  At, ReadsAll, Reads-give, Reads-get, ReadsAll->>=, ReadsAll-end, ReadsAll-read_all,
  ReadsAll-unless_end, ReadsAll-give, ReadsAll-if,
}
use deconz_lib.GreenPower.{
  GpDataIndication, has_extension, has_src_id, has_counter, has_command, is_supported_frame,
  is_supported_application, read_command, read_counter, read_src_id, read_application,
  read_extension, read_gp_frame,
}

-- The fields are in range and those that the control bytes do not announce are 0.
pub record IsCoded (f : GpDataIndication) : Type 0 where
  pub control_byte : IsByte f.nwk_frame_control
  pub supported : is_supported_frame f.nwk_frame_control ≡ true
  pub ext_byte : IsByte f.ext_frame_control
  pub no_ext : has_extension f.nwk_frame_control ≡ false → f.ext_frame_control ≡ 0
  pub application : is_supported_application f.ext_frame_control ≡ true
  pub src_word : f.src_id < 256 ^ 4
  pub no_src : has_src_id f.nwk_frame_control f.ext_frame_control ≡ false → f.src_id ≡ 0
  pub counter_word : f.frame_counter < 256 ^ 4
  pub no_counter : has_counter f.nwk_frame_control f.ext_frame_control ≡ false → f.frame_counter ≡ 0
  pub command_byte : IsByte f.command_id
  pub payload_bytes : All IsByte f.payload
  pub no_command : has_command f.ext_frame_control ≡ false → f.command_id ≡ 0
  pub no_payload : has_command f.ext_frame_control ≡ false → f.payload ≡ []

-- The bytes of a frame.
abbrev command_bytes : GpDataIndication → List ℕ
command_bytes f =
    if has_command f.ext_frame_control then bytes_le 1 f.command_id ++ f.payload else []

abbrev counter_bytes : GpDataIndication → List ℕ
counter_bytes f =
    if has_counter f.nwk_frame_control f.ext_frame_control
    then bytes_le 4 f.frame_counter ++ command_bytes f
    else command_bytes f

abbrev src_bytes : GpDataIndication → List ℕ
src_bytes f =
    if has_src_id f.nwk_frame_control f.ext_frame_control
    then bytes_le 4 f.src_id ++ counter_bytes f
    else counter_bytes f

abbrev pub coded_bytes : GpDataIndication → List ℕ
coded_bytes f =
    bytes_le 1 f.nwk_frame_control
    ++ (if has_extension f.nwk_frame_control
        then bytes_le 1 f.ext_frame_control ++ src_bytes f
        else src_bytes f)

module _ (q : StreamApi) (laws : IsStream q) (fuel : ℕ) (f : GpDataIndication) (h : IsCoded f)
    (enough : length f.payload ≤ fuel) where
  open q use {Stream, get}

  -- A reader before its command, counter, source id and extended frame control.
  abbrev with_control : GpDataIndication → GpDataIndication
  with_control d = record d { nwk_frame_control = f.nwk_frame_control }

  abbrev with_ext : GpDataIndication → GpDataIndication
  with_ext d = record (with_control d) { ext_frame_control = f.ext_frame_control }

  abbrev with_src : GpDataIndication → GpDataIndication
  with_src d = record (with_ext d) { src_id = f.src_id }

  abbrev with_counter : GpDataIndication → GpDataIndication
  with_counter d = record (with_src d) { frame_counter = f.frame_counter }

  abbrev with_all : GpDataIndication → GpDataIndication
  with_all d = record (with_counter d) { command_id = f.command_id; payload = f.payload }

  -- At these bytes the reader takes all and has the fields of `f`.
  abbrev Gives : Reader Stream (Bool × GpDataIndication) → List ℕ → GpDataIndication → Type 0
  Gives m bs d = ReadsAll q laws m bs (true, with_all d)

  command-ReadsAll :
      (d : GpDataIndication) → Gives (read_command q fuel (with_counter d)) (command_bytes f) d
  unfolding read_command
  command-ReadsAll d =
      ReadsAll-if q laws (has_command f.ext_frame_control)
        (λ e. ReadsAll-unless_end q laws _ (
          ReadsAll->>= q laws _ (Reads-get q laws 1 f.command_id h.command_byte) (
            ReadsAll-end q laws _ (ReadsAll-read_all q laws fuel f.payload enough h.payload_bytes)
              (Reads-give q laws _))))
        (λ e. rw (h.no_command e, h.no_payload e) (ReadsAll-give q laws _))

  counter-ReadsAll :
      (d : GpDataIndication) → Gives (read_counter q fuel (with_src d)) (counter_bytes f) d
  unfolding read_counter
  counter-ReadsAll d =
      ReadsAll-if q laws (has_counter f.nwk_frame_control f.ext_frame_control)
        (λ e. ReadsAll-unless_end q laws _ (
          ReadsAll->>= q laws _ (Reads-get q laws 4 f.frame_counter h.counter_word)
            (command-ReadsAll d)))
        (λ e.
          subst
            (λ (n : ℕ).
              Gives (read_command q fuel (record (with_src d) { frame_counter = n }))
                (command_bytes f) d)
            (h.no_counter e) (command-ReadsAll d))

  src-ReadsAll : (d : GpDataIndication) → Gives (read_src_id q fuel (with_ext d)) (src_bytes f) d
  unfolding read_src_id
  src-ReadsAll d =
      ReadsAll-if q laws (has_src_id f.nwk_frame_control f.ext_frame_control)
        (λ e.
          ReadsAll-unless_end q laws _
            (ReadsAll->>= q laws _ (Reads-get q laws 4 f.src_id h.src_word) (counter-ReadsAll d)))
        (λ e.
          subst
            (λ (n : ℕ).
              Gives (read_counter q fuel (record (with_ext d) { src_id = n })) (counter_bytes f) d)
            (h.no_src e) (counter-ReadsAll d))

  application-ReadsAll :
      (d : GpDataIndication) → Gives (read_application q fuel (with_ext d)) (src_bytes f) d
  unfolding read_application
  application-ReadsAll d = rw (h.application) (src-ReadsAll d)

  extension-ReadsAll :
      (d : GpDataIndication)
      → Gives
          (read_extension q fuel (with_control d))
          (if has_extension f.nwk_frame_control
            then bytes_le 1 f.ext_frame_control ++ src_bytes f
            else src_bytes f)
          d
  unfolding read_extension
  extension-ReadsAll d =
      ReadsAll-if q laws (has_extension f.nwk_frame_control)
        (λ e. ReadsAll-unless_end q laws _ (
          ReadsAll->>= q laws _ (Reads-get q laws 1 f.ext_frame_control h.ext_byte)
            (application-ReadsAll d)))
        (λ e.
          subst
            (λ (n : ℕ).
              Gives (read_application q fuel (record (with_control d) { ext_frame_control = n }))
                (src_bytes f) d)
            (h.no_ext e) (application-ReadsAll d))

  pub read_gp_frame-coded :
      (d : GpDataIndication) (t : Stream)
      → At q laws t (coded_bytes f)
      → ((read_gp_frame q fuel d t).0
          ≡ (true, record f { gpp_nwk_address = d.gpp_nwk_address; gpp_link = d.gpp_link }))
        × At q laws (read_gp_frame q fuel d t).1 []
  unfolding read_gp_frame
  read_gp_frame-coded d t here =
      (ReadsAll-unless_end q laws _ (
          ReadsAll->>= q laws _ (Reads-get q laws 1 f.nwk_frame_control h.control_byte)
            (rw (h.supported) (extension-ReadsAll d)))).run
        t here
