-- ===== src/Ethernet.antt =====
-- util/ethernet_header.hh, util/ethernet_header.cc and util/ethernet_frame.hh.
pub mod RoundTrip
mod Tests
use cs144_2024_winter.Base.{
  ℕ, List, [], ◌∷◌, ◌++◌, Bool, Bytes, ◌==◌, true, false, ◌&&◌, Option, none, some,
}
use cs144_2024_winter.Parser.{Parser, Reads, ◌>>=◌, returns, bytes, all_remaining}
use cs144_2024_winter.Parser
use cs144_2024_winter.Serializer.{Serializer, integers, octets, buffer_strings}

-- An Ethernet address is an array of six bytes.
abbrev pub ethernet_broadcast : Bytes
ethernet_broadcast = 0xff ∷ 0xff ∷ 0xff ∷ 0xff ∷ 0xff ∷ 0xff ∷ []

abbrev pub ethernet_zero : Bytes
ethernet_zero = 0 ∷ 0 ∷ 0 ∷ 0 ∷ 0 ∷ 0 ∷ []

-- `==` on addresses.
unfoldable pub same : Bytes → Bytes → Bool
same [] [] = true
same [] (b ∷ bs) = false
same (a ∷ rest) [] = false
same (a ∷ rest) (b ∷ bs) = (a == b) && same rest bs

abbrev pub type_ipv4 : ℕ
type_ipv4 = 0x800

abbrev pub type_arp : ℕ
type_arp = 0x806

pub record EthernetHeader : Type 0 where
  pub dst : Bytes
  pub src : Bytes
  pub type : ℕ

pub parse : EthernetHeader → Reads EthernetHeader
parse h = do
  dst ← bytes h.dst
  src ← bytes h.src
  type ← Parser.integer 2 h.type
  returns (record { dst = dst; src = src; type = type })

pub serialize : EthernetHeader → Serializer → Serializer
serialize h s = integers (octets h.dst ++ (octets h.src ++ (2, h.type) ∷ [])) s

pub record EthernetFrame : Type 0 where
  pub header : EthernetHeader
  pub payload : List Bytes

pub parse_frame : EthernetFrame → Reads EthernetFrame
unfolding parse
parse_frame f = do
  header ← parse f.header
  λ p. some (record { header = header; payload = all_remaining p }, p)

pub serialize_frame : EthernetFrame → Serializer → Serializer
serialize_frame f s = buffer_strings f.payload (serialize f.header s)
