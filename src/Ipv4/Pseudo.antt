-- ===== src/Ipv4/Pseudo.antt =====
-- util/ipv4_header.cc: the sum of the pseudo-header.
use cs144_2024_winter.Base.{◌^◌, ◌<◌, ◌≡◌, refl, arith}
use cs144_2024_winter.Ipv4.{Ipv4Header, pseudo_checksum, payload_length}
use cs144_2024_winter.Ipv4.RoundTrip.{checked}

-- Five numbers of 16 bits and the protocol do not overflow.
pub pseudo_checksum_bounds :
    (h : Ipv4Header)
    → h.src < 2 ^ 32
    → h.dst < 2 ^ 32
    → 0 < h.proto
    → h.proto < 2 ^ 8
    → (0 < pseudo_checksum h) × (pseudo_checksum h < 2 ^ 20)
unfolding pseudo_checksum payload_length
pseudo_checksum_bounds h s d p q = omega arith

-- The header's own checksum is not part of it.
pub pseudo_checksum-checked : (h : Ipv4Header) → pseudo_checksum (checked h) ≡ pseudo_checksum h
unfolding pseudo_checksum payload_length
pseudo_checksum-checked h = refl
