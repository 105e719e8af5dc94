-- ===== src/Arp/Tests.antt =====
-- A run of util/arp_message.cc on a reply, and an instance of the round trip.
use cs144_2024_winter.Base.{◌≡◌, refl, arith, false, [], ◌∷◌, some}
use cs144_2024_winter.Parser.{Parser, parser}
use cs144_2024_winter.Serializer.{Serializer, serializer, output}
use cs144_2024_winter.Arp.{ArpMessage, arp_message, opcode_reply, parse, serialize, supported}
use cs144_2024_winter.Arp.RoundTrip.{IsValid, parse-serialize}

abbrev reply : ArpMessage
reply = record arp_message {
  opcode = opcode_reply;
  sender_ethernet_address = 2 ∷ 0 ∷ 0 ∷ 0 ∷ 0 ∷ 1 ∷ [];
  sender_ip_address = 167772161;
  target_ethernet_address = 2 ∷ 0 ∷ 0 ∷ 0 ∷ 0 ∷ 2 ∷ [];
  target_ip_address = 167772162;
}

reply-IsValid : IsValid reply
unfolding supported
reply-IsValid = record {
  supported = refl;
  hardware_type = omega arith;
  protocol_type = omega arith;
  hardware_address_size = omega arith;
  protocol_address_size = omega arith;
  opcode = omega arith;
  sender_length = refl;
  sender_bytes = omega arith;
  sender_ip = omega arith;
  target_length = refl;
  target_bytes = omega arith;
  target_ip = omega arith;
}

parse-serialize_example :
    (s : Serializer) × (serialize reply serializer ≡ some s)
    × (p : Parser) × (parse arp_message (parser (output s)) ≡ some (reply, p))
    × (p.error ≡ false)
parse-serialize_example = parse-serialize reply reply-IsValid
