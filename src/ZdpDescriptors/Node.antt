-- ===== src/ZdpDescriptors/Node.antt =====
-- zdp_descriptors.cpp: `NodeDescriptor`, the 13 bytes that tell what a node is.
pub mod DeviceType
pub mod Flags
pub mod Wire
use deconz_lib.Base.{
  ℕ, ◌+◌, ◌-◌, zero, suc, Bool, true, false, not, List, get_or, set, replicate, bit_and, bit_or,
  ◌>>◌, ◌==◌, if◌then◌else◌,
}
use deconz_lib.BufferHelper.{get_u16_le, put_u16_le}
use deconz_lib.DataStream.{StreamApi, Reader, ◌>>=◌, give}

-- `DeviceType`
abbrev pub coordinator : ℕ
coordinator = 0

abbrev pub router : ℕ
router = 1

abbrev pub end_device : ℕ
end_device = 2

abbrev pub unknown_device : ℕ
unknown_device = 3

-- `NodeDescriptorPrivate`
pub record NodeDescriptor : Type 0 where
  pub raw : List ℕ
  pub is_null : Bool
  pub device_type : ℕ
  pub server_mask : ℕ

abbrev pub raw_size : ℕ
raw_size = 13

abbrev pub no_node : NodeDescriptor
no_node = record {
  raw = replicate raw_size 0;
  is_null = true;
  device_type = unknown_device;
  server_mask = 0;
}

abbrev pub byte_at : ℕ → NodeDescriptor → ℕ
byte_at i d = get_or d.raw i 0

abbrev pub has_bit : ℕ → ℕ → Bool
has_bit m b = not (bit_and b m == 0)

-- The device type that the first byte tells.
abbrev pub type_of : ℕ → ℕ
type_of b = if has_bit 0x01 b then router else if has_bit 0x02 b then end_device else coordinator

module _ (q : StreamApi) where
  open q use {Stream, get, at_end}

  -- The loop over `m_raw` from `i` on, with `n` rounds left: whether all bytes were there.
  pub read_raw : ℕ → ℕ → NodeDescriptor → Reader Stream (Bool × NodeDescriptor)
  read_raw zero i d s = ((true, d), s)
  read_raw (suc n) i d s =
      let rest = (get 1 >>= λ b. read_raw n (i + 1) (record d { raw = set d.raw i b })) s in
      if at_end s
      then ((false, record d { raw = replicate raw_size 0; device_type = unknown_device }), s)
      else rest

  -- `NodeDescriptor::readFromStream`
  pub read_node : NodeDescriptor → Reader Stream NodeDescriptor
  read_node d = read_raw raw_size 0 (record d { is_null = true }) >>= λ r. give (
      if r.0
      then record r.1 {
        is_null = false;
        device_type = type_of (byte_at 0 r.1);
        server_mask = (get_u16_le r.1.raw 8).0;
      }
      else r.1)

-- `m_raw[i] |= m` and `m_raw[i] &= ~m & 0xff`
abbrev pub set_byte : ℕ → ℕ → NodeDescriptor → NodeDescriptor
set_byte i b d = record d { raw = set d.raw i b }

pub put_bit : ℕ → Bool → ℕ → ℕ
put_bit m true b = bit_or b m
put_bit m false b = bit_and b (255 - m)

-- The flags with a setter: their byte and their bit.
pub data Flag : Type 0 where
  complex_descriptor user_descriptor alternate_pan_coordinator full_function_device : Flag
  mains_powered rx_on_when_idle security_support : Flag

abbrev pub flag_byte : Flag → ℕ
flag_byte complex_descriptor = 0
flag_byte user_descriptor = 0
flag_byte _ = 2

abbrev pub flag_bit : Flag → ℕ
flag_bit complex_descriptor = 0x08
flag_bit user_descriptor = 0x10
flag_bit alternate_pan_coordinator = 0x01
flag_bit full_function_device = 0x02
flag_bit mains_powered = 0x04
flag_bit rx_on_when_idle = 0x08
flag_bit security_support = 0x40

-- `hasComplexDescriptor` and the like, and their setters.
pub has_flag : Flag → NodeDescriptor → Bool
has_flag f d = has_bit (flag_bit f) (byte_at (flag_byte f) d)

pub set_flag : Flag → Bool → NodeDescriptor → NodeDescriptor
set_flag f v d = set_byte (flag_byte f) (put_bit (flag_bit f) v (byte_at (flag_byte f) d)) d

-- What `setDeviceType` makes of the first byte.
pub type_byte : ℕ → ℕ → ℕ
type_byte t b =
    if t == coordinator
    then bit_and b 0xfc
    else if t == router
    then bit_or (bit_and b 0xfd) 0x01
    else if t == end_device
    then bit_or (bit_and b 0xfe) 0x02
    else b

-- `NodeDescriptor::setDeviceType`
pub set_device_type : ℕ → NodeDescriptor → NodeDescriptor
set_device_type t d =
    set_byte 0 (type_byte t (byte_at 0 d)) (record d { device_type = bit_and t 0x3 })

-- `NodeDescriptor::manufacturerCode`, `NodeDescriptor::setManufacturerCode`
pub manufacturer_code : NodeDescriptor → ℕ
manufacturer_code d = (get_u16_le d.raw 3).0

pub set_manufacturer_code : ℕ → NodeDescriptor → NodeDescriptor
set_manufacturer_code code d = record d { raw = (put_u16_le d.raw 3 code).0 }

-- `maxBufferSize`, `maxIncomingTransferSize`, `maxOutgoingTransferSize`, `stackRevision`
pub max_buffer_size : NodeDescriptor → ℕ
max_buffer_size d = byte_at 5 d

pub max_incoming_transfer_size : NodeDescriptor → ℕ
max_incoming_transfer_size d = (get_u16_le d.raw 6).0

pub max_outgoing_transfer_size : NodeDescriptor → ℕ
max_outgoing_transfer_size d = (get_u16_le d.raw 10).0

pub stack_revision : NodeDescriptor → ℕ
stack_revision d = d.server_mask >> 9
