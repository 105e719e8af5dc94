-- ===== src/Ethernet/Tests.antt =====
-- An instance of the round trip of util/ethernet_header.cc.
use cs144_2024_winter.Base.{◌≡◌, refl, arith, false, [], ◌∷◌, some}
use cs144_2024_winter.Parser.{Parser, parser}
use cs144_2024_winter.Serializer.{serializer, output}
use cs144_2024_winter.Ethernet.{EthernetHeader, ethernet_zero, ethernet_broadcast, parse, serialize}
use cs144_2024_winter.Ethernet.RoundTrip.{IsValid, header_parse-serialize}

abbrev blank : EthernetHeader
blank = record { dst = ethernet_zero; src = ethernet_zero; type = 0 }

abbrev arp_header : EthernetHeader
arp_header = record { dst = ethernet_broadcast; src = 2 ∷ 0 ∷ 0 ∷ 0 ∷ 0 ∷ 1 ∷ []; type = 0x806 }

arp_header-IsValid : IsValid arp_header
arp_header-IsValid = record {
  dst_length = refl;
  dst_bytes = omega arith;
  src_length = refl;
  src_bytes = omega arith;
  type = omega arith;
}

header_parse-serialize_example :
    (p : Parser) × (parse blank (parser (output (serialize arp_header serializer)))
      ≡ some (arp_header, p))
    × (p.error ≡ false)
header_parse-serialize_example =
    header_parse-serialize blank arp_header refl refl arp_header-IsValid
