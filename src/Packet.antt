-- ===== src/Packet.antt =====
-- mmedia/base/Packet.h and Packet.cc: a packet with its type, size and capacity. A member is its value
-- as an unsigned number; `index_` is the bit pattern of an int32_t, and so is a value that is returned
-- as one.
pub mod Sizes
mod Tests
use wl_tmm.Prelude.{
  ℕ, ◌+◌, ◌-◌, ◌/◌, ◌%◌, ◌^◌, Option, none, some, Bool, true, false, ◌&&◌, ◌==◌, ltb, if◌then◌else◌,
}
use wl_tmm.Prelude.Int.{ℤ, pos, negsuc}

abbrev pub packet_type_video : ℕ
packet_type_video = 1

abbrev pub packet_type_audio : ℕ
packet_type_audio = 2

abbrev pub packet_type_meta : ℕ
packet_type_meta = 4

abbrev pub packet_type_meta3 : ℕ
packet_type_meta3 = 8

abbrev pub frame_type_key_frame : ℕ
frame_type_key_frame = 16

abbrev pub packet_type_unknowed : ℕ
packet_type_unknowed = 255

-- `ext_` is an object of a type `E`, or none.
pub record Packet (E : Type 0) : Type 0 where
  pub type : ℕ
  pub size : ℕ
  pub index : ℕ
  pub timestamp : ℕ
  pub capacity : ℕ
  pub ext : Option E

-- `(a & flag) == flag`, for a power of 2.
abbrev pub has_flag : ℕ → ℕ → Bool
has_flag a flag = a / flag % 2 == 1

-- The value of a bit pattern of 32 bits.
abbrev pub to_int32 : ℕ → ℤ
to_int32 n = if ltb n (2 ^ 31) then pos n else negsuc (2 ^ 32 - 1 - n)

module _ {E : Type 0} where
  -- `NewPacket`, when the allocation succeeds: the size is the bit pattern of an int32_t.
  unfoldable pub new_packet : ℕ → Packet E
  new_packet size = record {
    type = packet_type_unknowed;
    size = 0;
    index = 2 ^ 32 - 1;
    timestamp = 0;
    capacity = size;
    ext = none;
  }

  unfoldable pub is_video : Packet E → Bool
  is_video p = has_flag p.type packet_type_video

  unfoldable pub is_key_frame : Packet E → Bool
  is_key_frame p = has_flag p.type packet_type_video && has_flag p.type frame_type_key_frame

  unfoldable pub is_audio : Packet E → Bool
  is_audio p = p.type == packet_type_audio

  unfoldable pub is_meta : Packet E → Bool
  is_meta p = p.type == packet_type_meta

  unfoldable pub is_meta3 : Packet E → Bool
  is_meta3 p = p.type == packet_type_meta3

  unfoldable pub packet_size : Packet E → ℤ
  packet_size p = to_int32 p.size

  -- `Space`: a difference of unsigned numbers.
  unfoldable pub space : Packet E → ℤ
  space p = to_int32 ((p.capacity + 2 ^ 32 - p.size) % 2 ^ 32)

  unfoldable pub set_packet_size : ℕ → Packet E → Packet E
  set_packet_size len p = record p { size = len % 2 ^ 32 }

  unfoldable pub update_packet_size : ℕ → Packet E → Packet E
  update_packet_size len p = record p { size = (p.size + len) % 2 ^ 32 }

  unfoldable pub set_index : ℕ → Packet E → Packet E
  set_index index p = record p { index = index }

  unfoldable pub set_packet_type : ℕ → Packet E → Packet E
  set_packet_type type p = record p { type = type }

  unfoldable pub set_time_stamp : ℕ → Packet E → Packet E
  set_time_stamp timestamp p = record p { timestamp = timestamp }

  unfoldable pub set_ext : Option E → Packet E → Packet E
  set_ext ext p = record p { ext = ext }
