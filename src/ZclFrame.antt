-- ===== src/ZclFrame.antt =====
-- zcl.cpp, zcl_private.h: `ZclFrame`, the header and the payload of a command of the ZigBee cluster
-- library, with its reader and writer. The pool that frames are allocated from is not modelled.
pub mod Wire
mod Tests
use deconz_lib.Base.{
  ℕ, Bool, not, ◌&&◌, List, [], length, get_or, bit_and, ltb, ◌==◌, if◌then◌else◌,
}
use deconz_lib.DataStream.{StreamApi, Reader, ◌>>=◌, ◌▸◌, give, read_all, put_all}

-- `ZclFramePrivate`
pub record ZclFrame : Type 0 where
  pub valid : ℕ
  pub frame_control : ℕ
  pub manufacturer_code : ℕ
  pub seq_number : ℕ
  pub command_id : ℕ
  pub payload : List ℕ

-- `ZclFrame::reset`, and what the constructor leaves.
abbrev pub no_frame : ZclFrame
no_frame = record {
  valid = 0;
  frame_control = 0;
  manufacturer_code = 0xffff;
  seq_number = 0;
  command_id = 0;
  payload = [];
}

-- `frameControl & ZclFCManufacturerSpecific`
abbrev pub is_specific : ℕ → Bool
is_specific control = not (bit_and control 0x04 == 0)

-- `ZclFrame::isClusterCommand`, `ZclFrame::isProfileWideCommand`
pub is_cluster_command : ZclFrame → Bool
is_cluster_command f = not (bit_and f.frame_control 0x01 == 0)

pub is_profile_wide_command : ZclFrame → Bool
is_profile_wide_command f = not (is_cluster_command f)

-- `ZclFrame::isDefaultResponse`
pub is_default_response : ZclFrame → Bool
is_default_response f = is_profile_wide_command f && (f.command_id == 0x0b)

-- `ZclFrame::isValid`
abbrev pub is_valid_frame : ZclFrame → Bool
is_valid_frame f = f.valid == 1

-- `ZclFrame::payloadAt`
pub payload_at : ZclFrame → ℕ → ℕ
payload_at f i = if ltb i (length f.payload) then get_or f.payload i 0 else 0

-- `ZclFrame::defaultResponseCommandId`, `ZclFrame::defaultResponseStatus`
pub default_response_command_id : ZclFrame → ℕ
default_response_command_id f = if length f.payload == 2 then get_or f.payload 0 0 else 0xff

pub default_response_status : ZclFrame → ℕ
default_response_status f = if length f.payload == 2 then get_or f.payload 1 0 else 0x01

module _ (q : StreamApi) where
  open q use {Stream, get, put, past_end}

  abbrev pub put_code : ZclFrame → Stream → Stream
  put_code f = if is_specific f.frame_control then put 2 f.manufacturer_code else λ s. s

  -- `ZclFrame::writeToStream`
  pub write_frame : ZclFrame → Stream → Stream
  write_frame f =
      put 1 f.frame_control
      ▸ put_code f
      ▸ put 1 f.seq_number
      ▸ put 1 f.command_id
      ▸ put_all q f.payload

  abbrev pub get_code : ℕ → Reader Stream ℕ
  get_code control = if is_specific control then get 2 else give 0x0000

  -- The header behind the frame control.
  pub behind_control : ℕ → Reader Stream (ℕ × ℕ × ℕ × ℕ)
  behind_control control = get_code control >>= λ code.
      get 1 >>= λ seq. get 1 >>= λ command. give (control, code, seq, command)

  -- The fields in front of the payload.
  pub read_header : Reader Stream (ℕ × ℕ × ℕ × ℕ)
  read_header = get 1 >>= behind_control

  -- `status() != QDataStream::ReadPastEnd`
  abbrev pub get_valid : Reader Stream ℕ
  get_valid s = (if past_end s then 0 else 1, s)

  -- `ZclFrame::readFromStream`, with as many rounds for the payload as `fuel`.
  pub read_frame : ℕ → Reader Stream ZclFrame
  read_frame fuel = do
    h ← read_header
    valid ← get_valid
    payload ← read_all q fuel
    give (record {
      valid = valid;
      frame_control = h.0;
      manufacturer_code = h.1;
      seq_number = h.2;
      command_id = h.3;
      payload = payload;
    })
