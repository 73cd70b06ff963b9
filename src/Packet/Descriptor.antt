-- ===== src/Packet/Descriptor.antt =====
-- include/packet/packet_descriptor.h.
use vnic.Prelude.{ℕ, Option, none}

-- `struct PacketDescriptor`; `none` is a null `buffer`.
pub record PacketDescriptor : Type 0 where
  pub timestamp : ℕ
  pub hash : ℕ
  pub queue_id : ℕ
  pub offloads : ℕ
  pub vlan_id : ℕ
  pub total_length : ℕ
  pub buffer : Option ℕ

-- `PacketDescriptor{}`
abbrev pub empty_descriptor : PacketDescriptor
empty_descriptor = record {
  timestamp = 0;
  hash = 0;
  queue_id = 0;
  offloads = 0;
  vlan_id = 0;
  total_length = 0;
  buffer = none;
}
