-- ===== src/Arp.antt =====
-- util/arp_message.hh and util/arp_message.cc.
pub mod RoundTrip
mod Tests
use cs144_2024_winter.Base.{
  ℕ, List, [], ◌∷◌, ◌++◌, Bool, Bytes, ◌==◌, ◌&&◌, ◌||◌, if◌then◌else◌, Option, none, some,
}
use cs144_2024_winter.Ethernet.{type_ipv4, ethernet_zero}
use cs144_2024_winter.Parser.{Parser, Reads, ◌>>=◌, returns, bytes, set_error}
use cs144_2024_winter.Parser
use cs144_2024_winter.Serializer.{Serializer, integers, octets}

abbrev pub type_ethernet : ℕ
type_ethernet = 1

abbrev pub opcode_request : ℕ
opcode_request = 1

abbrev pub opcode_reply : ℕ
opcode_reply = 2

pub record ArpMessage : Type 0 where
  pub hardware_type : ℕ
  pub protocol_type : ℕ
  pub hardware_address_size : ℕ
  pub protocol_address_size : ℕ
  pub opcode : ℕ
  pub sender_ethernet_address : Bytes
  pub sender_ip_address : ℕ
  pub target_ethernet_address : Bytes
  pub target_ip_address : ℕ

-- A message as it is declared.
abbrev pub arp_message : ArpMessage
arp_message = record {
  hardware_type = type_ethernet;
  protocol_type = type_ipv4;
  hardware_address_size = 6;
  protocol_address_size = 4;
  opcode = 0;
  sender_ethernet_address = ethernet_zero;
  sender_ip_address = 0;
  target_ethernet_address = ethernet_zero;
  target_ip_address = 0;
}

unfoldable pub supported : ArpMessage → Bool
supported m =
    (m.hardware_type == type_ethernet)
    && (m.protocol_type == type_ipv4)
    && (m.hardware_address_size == 6)
    && (m.protocol_address_size == 4)
    && ((m.opcode == opcode_request) || (m.opcode == opcode_reply))

-- The addresses, which are read only from a message of a supported kind.
pub parse_addresses : ArpMessage → Reads ArpMessage
parse_addresses m = do
  sender_ethernet ← bytes m.sender_ethernet_address
  sender_ip ← Parser.integer 4 m.sender_ip_address
  target_ethernet ← bytes m.target_ethernet_address
  target_ip ← Parser.integer 4 m.target_ip_address
  returns (record m {
    sender_ethernet_address = sender_ethernet;
    sender_ip_address = sender_ip;
    target_ethernet_address = target_ethernet;
    target_ip_address = target_ip;
  })

-- The five fields before them.
pub parse_kind : ArpMessage → Reads ArpMessage
parse_kind m = do
  hardware_type ← Parser.integer 2 m.hardware_type
  protocol_type ← Parser.integer 2 m.protocol_type
  hardware_size ← Parser.integer 1 m.hardware_address_size
  protocol_size ← Parser.integer 1 m.protocol_address_size
  opcode ← Parser.integer 2 m.opcode
  returns (record m {
    hardware_type = hardware_type;
    protocol_type = protocol_type;
    hardware_address_size = hardware_size;
    protocol_address_size = protocol_size;
    opcode = opcode;
  })

unfoldable pub parse : ArpMessage → Reads ArpMessage
parse m = do
  k ← parse_kind m
  if supported k then parse_addresses k else (λ p. some (k, set_error p))

-- `none` is the exception on an unsupported message.
unfoldable pub serialize : ArpMessage → Serializer → Option Serializer
serialize m s = if supported m then some (integers fields s) else none
  where
    fields : List (ℕ × ℕ)
    fields =
        (2, m.hardware_type)
        ∷ (2, m.protocol_type)
        ∷ (1, m.hardware_address_size)
        ∷ (1, m.protocol_address_size)
        ∷ (2, m.opcode)
        ∷ (octets m.sender_ethernet_address
            ++ (4, m.sender_ip_address)
              ∷ (octets m.target_ethernet_address ++ (4, m.target_ip_address) ∷ []))
