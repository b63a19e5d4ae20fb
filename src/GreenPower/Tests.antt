-- ===== src/GreenPower/Tests.antt =====
-- A switch that is pressed, as a frame of its own and by a proxy.
use deconz_lib.Base.{
  ℕ, ◌≡◌, refl, ◌<◌, ◌+◌, ◌-◌, ◌*◌, true, false, some, List, [], ◌∷◌, ◌++◌, arith, ltb,
  if◌then◌else◌,
}
use deconz_lib.Base.Int.{pos, negsuc}
use deconz_lib.DataStream.Memory.{memory, memory-IsStream, stream_of}
use deconz_lib.DataStream.Rules.{At}
use deconz_lib.GreenPower.{GpDataIndication, read_gp_frame, read_notification, gpp_rssi, gpp_lqi}
use deconz_lib.GreenPower.Layout.{Header, IsGpFrame, read_gp_frame-bytes}
use deconz_lib.GreenPower.Supported.{IsSupported, read_gp_frame-IsSupported}
use deconz_lib.GreenPower.Notification.{notification_bytes, read_notification-bytes, gpp_rssi-link}

abbrev nothing : GpDataIndication
nothing = record {
  nwk_frame_control = 0;
  ext_frame_control = 0;
  src_id = 0;
  frame_counter = 0;
  command_id = 0;
  payload = [];
  gpp_nwk_address = 0;
  gpp_link = 0;
}

-- With an extended frame control, a source id and a frame counter.
abbrev press : GpDataIndication
press = record nothing {
  nwk_frame_control = 0x8c;
  ext_frame_control = 0x30;
  src_id = 0x12345678;
  frame_counter = 9;
  command_id = 0x20;
  payload = 1 ∷ 2 ∷ [];
}

-- A data frame of the application 0, with security level 2 and one of the upper flags.
abbrev press_header : Header
press_header = record {
  maintenance = false;
  others = 0;
  extension = some (record { application = 0; level = 2; flags = 1 });
}

press-IsGpFrame : IsGpFrame press_header press
press-IsGpFrame = record {
  few = omega arith;
  known = omega arith;
  control = refl;
  ext = refl;
  src_word = omega arith;
  no_src = λ e. cc;
  counter_word = omega arith;
  no_counter = λ e. cc;
  command_byte = omega arith;
  payload_bytes = omega arith;
  no_command = λ e. cc;
}

abbrev pressed : List ℕ
pressed = 0x8c ∷ 0x30 ∷ 0x78 ∷ 0x56 ∷ 0x34 ∷ 0x12 ∷ 9 ∷ 0 ∷ 0 ∷ 0 ∷ 0x20 ∷ 1 ∷ 2 ∷ []

read_gp_frame-bytes_example :
    ((read_gp_frame memory 2 nothing (stream_of pressed)).0
      ≡ (true, record press { gpp_nwk_address = 0; gpp_link = 0 }))
    × At memory memory-IsStream (read_gp_frame memory 2 nothing (stream_of pressed)).1 []
read_gp_frame-bytes_example =
    read_gp_frame-bytes memory memory-IsStream 2 press_header press nothing (stream_of pressed)
      press-IsGpFrame (omega arith) (refl, refl)

read_gp_frame-IsSupported_example :
    ((read_gp_frame memory 2 nothing (stream_of pressed)).0.1.nwk_frame_control ≡ 0x8c)
    × ((read_gp_frame memory 2 nothing (stream_of pressed)).0.1.ext_frame_control ≡ 0x30)
    × IsSupported 0x8c 0x30
read_gp_frame-IsSupported_example =
    read_gp_frame-IsSupported memory 2 nothing (stream_of pressed)
      (cc (read_gp_frame-bytes_example.0))

abbrev report : List ℕ
report = notification_bytes 0 0x12345678 9 0x20 0x0102 0xd0 (1 ∷ []) ++ []

-- The payload of the press is kept in front.
read_notification-bytes_example :
    ((read_notification memory press (stream_of report)).0 ≡ (
      true,
      record press {
        src_id = 0x12345678;
        frame_counter = 9;
        command_id = 0x20;
        payload = 1 ∷ 2 ∷ 1 ∷ [];
        gpp_nwk_address = 0x0102;
        gpp_link = 0xd0;
      },
    ))
    × At memory memory-IsStream (read_notification memory press (stream_of report)).1 []
read_notification-bytes_example =
    read_notification-bytes memory memory-IsStream press 0 0x12345678 9 0x20 0x0102 0xd0 (1 ∷ [])
      (stream_of report) []
      (record {
        options_word = omega arith;
        by_src = refl;
        src_word = omega arith;
        counter_word = omega arith;
        command_byte = omega arith;
        few = omega arith;
        payload_bytes = omega arith;
        addr_word = omega arith;
        link_byte = omega arith;
      })
      (refl, refl)

gpp_rssi-link_example :
    (half : ℕ) × (half < 64)
    × (0xd0 ≡ gpp_lqi 0xd0 * 64 + half)
    × (gpp_lqi 0xd0 < 4)
    × (gpp_rssi 0xd0 ≡ (if ltb half 55 then negsuc (109 - half * 2) else pos (half * 2 - 110)))
gpp_rssi-link_example = gpp_rssi-link 0xd0 (omega arith) (λ e. absurd (omega arith))
