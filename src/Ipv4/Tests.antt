-- ===== src/Ipv4/Tests.antt =====
-- A datagram of util/ipv4_datagram.hh, as an instance of the theorem on its round trip.
use cs144_2024_winter.Base.{◌≡◌, arith, some, [], ◌∷◌, u64_mod, ◌<◌, ap, length, length-append}
use cs144_2024_winter.Parser.Buffer.{joined, joined_one}
use cs144_2024_winter.Serializer.{Serializer, serializer, output, written}
use cs144_2024_winter.Ipv4.{Ipv4Datagram, ipv4_header, compute_checksum, serialize_datagram, fields}
use cs144_2024_winter.Ipv4.RoundTrip.{IsValid, checked, length-header_bytes}
use cs144_2024_winter.Ipv4.Datagram.{
  wire, joined-wire, checked_datagram, ReadsBack, datagram_parse-serialize,
}

abbrev datagram : Ipv4Datagram
datagram = record { header = ipv4_header; payload = (104 ∷ 105 ∷ []) ∷ [] }

header-IsValid : IsValid ipv4_header
header-IsValid = omega arith

length-wire : length (joined (wire datagram)) ≡ 22
unfolding joined
length-wire = omega (
  arith,
  ap (λ t. length t) (joined-wire datagram),
  length-header_bytes (checked ipv4_header),
  length-append (written (fields (checked ipv4_header))) (104 ∷ 105 ∷ []),
)

short : length (joined (joined (wire datagram) ∷ [])) < u64_mod
short = omega (arith, length-wire, ap (λ t. length t) (joined_one (joined (wire datagram))))

datagram_parse-serialize_example :
    (compute_checksum ipv4_header ≡ some (checked ipv4_header))
    × (s : Serializer) × (serialize_datagram (checked_datagram datagram) serializer ≡ some s)
    × (output s ≡ wire datagram)
    × ReadsBack datagram (joined (wire datagram) ∷ []) datagram
datagram_parse-serialize_example =
    datagram_parse-serialize datagram datagram (joined (wire datagram) ∷ []) header-IsValid
      (omega (arith, length-wire), tt) short (joined_one (joined (wire datagram)))
