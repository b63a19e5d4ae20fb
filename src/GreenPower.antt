-- ===== src/GreenPower.antt =====
-- green_power.cpp: `GpDataIndication`, the frames of green power devices. The bit fields of the
-- extended frame control are filled from the low bit on, as the compilers in use do.
pub mod Frame
pub mod Layout
pub mod Notification
pub mod Supported
mod Tests
use deconz_lib.Base.{
  ℕ, ◌-◌, ◌*◌, ◌/◌, ◌%◌, Bool, true, false, not, ◌&&◌, ◌||◌, List, [], ◌++◌, bit_and, ◌>>◌, ltb,
  leb, ◌==◌, if◌then◌else◌,
}
use deconz_lib.Base.Int.{ℤ, pos, negsuc}
use deconz_lib.DataStream.{
  StreamApi, Reader, ◌>>=◌, give, unless_end, read_all, read_up_to, status_ok,
}

-- `GpDataIndicationPrivate`
pub record GpDataIndication : Type 0 where
  pub nwk_frame_control : ℕ
  pub ext_frame_control : ℕ
  pub src_id : ℕ
  pub frame_counter : ℕ
  pub command_id : ℕ
  pub payload : List ℕ
  pub gpp_nwk_address : ℕ
  pub gpp_link : ℕ

-- The fields of the two control bytes.
abbrev pub frame_type : ℕ → ℕ
frame_type control = bit_and control 0x03

abbrev pub protocol_version : ℕ → ℕ
protocol_version control = bit_and (control >> 2) 0x03

abbrev pub has_extension : ℕ → Bool
has_extension control = not (bit_and control 0x80 == 0)

abbrev pub application_id : ℕ → ℕ
application_id ext = ext % 8

abbrev pub security_level : ℕ → ℕ
security_level ext = ext / 8 % 4

-- Which fields follow, by the conditions of the reader.
abbrev pub has_src_id : ℕ → ℕ → Bool
has_src_id control ext =
    (frame_type control == 0 && application_id ext == 0)
    || (frame_type control == 1 && (has_extension control && application_id ext == 0))

abbrev pub has_command : ℕ → Bool
has_command ext = application_id ext == 0 || application_id ext == 2

abbrev pub has_counter : ℕ → ℕ → Bool
has_counter control ext =
    has_extension control
    && (has_command ext && (security_level ext == 2 || security_level ext == 3))

abbrev pub is_supported_frame : ℕ → Bool
is_supported_frame control =
    (frame_type control == 0 || frame_type control == 1) && protocol_version control == 3

abbrev pub is_supported_application : ℕ → Bool
is_supported_application ext =
    application_id ext == 0 || (application_id ext == 2 || application_id ext == 1)

module _ (q : StreamApi) where
  open q use {Stream, get, past_end}

  -- The command and its payload, with as many rounds as `fuel`.
  pub read_command : ℕ → GpDataIndication → Reader Stream (Bool × GpDataIndication)
  read_command fuel d =
      let d' = record d { payload = [] } in
      if has_command d.ext_frame_control
      then unless_end q (false, d')
          (get 1 >>= λ command. read_all q fuel >>= λ bytes.
            give (true, record d' { command_id = command; payload = bytes }))
      else give (true, record d' { command_id = 0 })

  -- The frame counter, and all that follows.
  pub read_counter : ℕ → GpDataIndication → Reader Stream (Bool × GpDataIndication)
  read_counter fuel d =
      let d' = record d { frame_counter = 0 } in
      if has_counter d.nwk_frame_control d.ext_frame_control
      then unless_end q (false, d')
          (get 4 >>= λ counter. read_command fuel (record d' { frame_counter = counter }))
      else read_command fuel d'

  -- The source id, and all that follows.
  pub read_src_id : ℕ → GpDataIndication → Reader Stream (Bool × GpDataIndication)
  read_src_id fuel d =
      if has_src_id d.nwk_frame_control d.ext_frame_control
      then unless_end q (false, d) (get 4 >>= λ src. read_counter fuel (record d { src_id = src }))
      else read_counter fuel (record d { src_id = 0 })

  -- The test of the application id, and all that follows.
  pub read_application : ℕ → GpDataIndication → Reader Stream (Bool × GpDataIndication)
  read_application fuel d =
      if is_supported_application d.ext_frame_control then read_src_id fuel d else give (false, d)

  -- The extended frame control, and all that follows.
  pub read_extension : ℕ → GpDataIndication → Reader Stream (Bool × GpDataIndication)
  read_extension fuel d =
      if has_extension d.nwk_frame_control
      then unless_end q (false, d)
          (get 1 >>= λ ext. read_application fuel (record d { ext_frame_control = ext }))
      else read_application fuel (record d { ext_frame_control = 0 })

  -- `GpDataIndication::readFromStream`
  pub read_gp_frame : ℕ → GpDataIndication → Reader Stream (Bool × GpDataIndication)
  read_gp_frame fuel d =
      unless_end q (false, d)
        (get 1 >>= λ control.
          let d' = record d { nwk_frame_control = control } in
          if is_supported_frame control then read_extension fuel d' else give (false, d'))

  -- The proxy's address and link, where nothing was read past the end.
  pub read_proxy : GpDataIndication → Reader Stream (Bool × GpDataIndication)
  read_proxy d = status_ok q >>= λ ok.
      if ok
      then (get 2 >>= λ addr. get 1 >>= λ link.
          status_ok q >>= λ ok'. give (ok', record d { gpp_nwk_address = addr; gpp_link = link }))
      else give (false, d)

  -- `GpDataIndication::readFromStreamGpNotification`
  pub read_notification : GpDataIndication → Reader Stream (Bool × GpDataIndication)
  read_notification d = get 2 >>= λ options.
      if bit_and options 0x3 == 0
      then (get 4 >>= λ src. get 4 >>= λ counter. get 1 >>= λ command. get 1 >>= λ size.
          read_up_to q (if ltb size 0xff then size else 0) >>= λ bytes. read_proxy (record d {
            src_id = src;
            frame_counter = counter;
            command_id = command;
            payload = d.payload ++ bytes;
          }))
      else give (false, d)

-- `GpDataIndication::gppRssi`, of the link
pub gpp_rssi : ℕ → ℤ
gpp_rssi link =
    let twice = bit_and link 0x3f * 2 in
    if link == 0
    then negsuc 127
    else if leb 110 twice
    then pos (twice - 110)
    else negsuc (109 - twice)

-- `GpDataIndication::gppLqi`
pub gpp_lqi : ℕ → ℕ
gpp_lqi link = bit_and (link >> 6) 0x3
