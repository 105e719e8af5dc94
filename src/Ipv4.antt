-- ===== src/Ipv4.antt =====
-- util/ipv4_header.hh, util/ipv4_header.cc and util/ipv4_datagram.hh.
pub mod Header
pub mod RoundTrip
pub mod Datagram
pub mod Pseudo
mod Tests
use Prim.Native.Nat.{bit_and, bit_or}
use cs144_2024_winter.Base.{
  ℕ, ◌+◌, ◌-◌, ◌*◌, ◌/◌, ◌%◌, ◌^◌, List, [], ◌∷◌, Bool, true, false, not, ◌||◌, Bytes, ltb, ◌==◌,
  if◌then◌else◌, Option, none, some, sub64, add32, u16_mod, u32_mod, ◌≡◌, arith, Option-cases, inl,
  inr,
}
use cs144_2024_winter.Parser.{
  Parser, Reads, ◌>>=◌, returns, set_error, remove_prefix, all_remaining,
}
use cs144_2024_winter.Parser
use cs144_2024_winter.Serializer.{Serializer, serializer, integers, output, buffer_strings}
use cs144_2024_winter.Checksum.{internet_checksum, add_all, value}

abbrev pub header_length : ℕ
header_length = 20

pub record Ipv4Header : Type 0 where
  pub ver : ℕ
  pub hlen : ℕ
  pub tos : ℕ
  pub len : ℕ
  pub id : ℕ
  pub df : Bool
  pub mf : Bool
  pub offset : ℕ
  pub ttl : ℕ
  pub proto : ℕ
  pub cksum : ℕ
  pub src : ℕ
  pub dst : ℕ

-- A header as it is declared.
abbrev pub ipv4_header : Ipv4Header
ipv4_header = record {
  ver = 4;
  hlen = 5;
  tos = 0;
  len = 0;
  id = 0;
  df = true;
  mf = false;
  offset = 0;
  ttl = 128;
  proto = 6;
  cksum = 0;
  src = 0;
  dst = 0;
}

pub first_byte : Ipv4Header → ℕ
first_byte h = bit_or (h.ver * 2 ^ 4) (bit_and h.hlen 0xf) % 256

-- The flags and the fragment's offset.
pub fo_val : Ipv4Header → ℕ
fo_val h =
    bit_or (bit_or (if h.df then 0x4000 else 0) (if h.mf then 0x2000 else 0))
      (bit_and h.offset 0x1fff)

-- What `serialize` writes, as widths and values.
pub fields : Ipv4Header → List (ℕ × ℕ)
fields h =
    (1, first_byte h)
    ∷ (1, h.tos)
    ∷ (2, h.len)
    ∷ (2, h.id)
    ∷ (2, fo_val h)
    ∷ (1, h.ttl)
    ∷ (1, h.proto)
    ∷ (2, h.cksum)
    ∷ (4, h.src)
    ∷ (4, h.dst)
    ∷ []

-- `none` is the exception on another version.
pub serialize : Ipv4Header → Serializer → Option Serializer
serialize h s = if h.ver == 4 then some (integers (fields h) s) else none

pub compute_checksum : Ipv4Header → Option Ipv4Header
unfolding serialize
compute_checksum h = elim (serialize (record h { cksum = 0 }) serializer) [
  | none ↦ none
  | some s ↦ some (record h { cksum = value (add_all (output s) (internet_checksum 0)) })
]

-- The fields of the header, in the order in which they are read.
pub parse_fields : Ipv4Header → Reads Ipv4Header
parse_fields h = do
  first_byte ← Parser.integer 1 0
  tos ← Parser.integer 1 h.tos
  len ← Parser.integer 2 h.len
  id ← Parser.integer 2 h.id
  fo_val ← Parser.integer 2 0
  ttl ← Parser.integer 1 h.ttl
  proto ← Parser.integer 1 h.proto
  cksum ← Parser.integer 2 h.cksum
  src ← Parser.integer 4 h.src
  dst ← Parser.integer 4 h.dst
  returns (record {
    ver = first_byte / 2 ^ 4;
    hlen = bit_and first_byte 0x0f;
    tos = tos;
    len = len;
    id = id;
    df = not (bit_and fo_val 0x4000 == 0);
    mf = not (bit_and fo_val 0x2000 == 0);
    offset = bit_and fo_val 0x1fff;
    ttl = ttl;
    proto = proto;
    cksum = cksum;
    src = src;
    dst = dst;
  })

-- The checks after the fields: version and length, then the checksum.
pub check_header : Ipv4Header → Reads Ipv4Header
unfolding compute_checksum
check_header h p =
    if p.error || (not (h.ver == 4) || ltb h.hlen 5)
    then some (h, record p { error = p.error || (not (h.ver == 4) || ltb h.hlen 5) })
    else elim (compute_checksum h) [
      | none ↦ none
      | some computed ↦
          some (computed, record skipped { error = p.error || not (computed.cksum == h.cksum) })
    ]
  where
    skipped : Parser
    skipped = record p { input = remove_prefix (sub64 (h.hlen * 4) header_length) p.input }

pub parse : Ipv4Header → Reads Ipv4Header
parse h = parse_fields h >>= check_header

-- A 16-bit number.
pub payload_length : Ipv4Header → ℕ
payload_length h = (h.len + u32_mod - 4 * h.hlen) % u16_mod

pub pseudo_checksum : Ipv4Header → ℕ
pseudo_checksum h =
    add32
      (add32 (add32 (h.src / 2 ^ 16 + h.src % u16_mod) (h.dst / 2 ^ 16 + h.dst % u16_mod)) h.proto)
      (payload_length h)

pub record Ipv4Datagram : Type 0 where
  pub header : Ipv4Header
  pub payload : List Bytes

pub parse_datagram : Ipv4Datagram → Reads Ipv4Datagram
unfolding parse
parse_datagram d = do
  header ← parse d.header
  λ p. some (record { header = header; payload = all_remaining p }, p)

pub serialize_datagram : Ipv4Datagram → Serializer → Option Serializer
serialize_datagram d s = elim (serialize d.header s) [
  | none ↦ none
  | some t ↦ some (buffer_strings d.payload t)
]

pub header_serializes :
    (h : Ipv4Header) (s : Serializer) → h.ver ≡ 4 → (t : Serializer) × (serialize h s ≡ some t)
unfolding serialize
header_serializes h s e = elim (Option-cases (serialize h s)) [
  | inl failed ↦ absurd (ground (arith, e, failed))
  | inr done ↦ done
]

-- Version 4 is all that serializing asks for.
pub datagram_serializes :
    (d : Ipv4Datagram) (s : Serializer)
    → d.header.ver ≡ 4
    → (t : Serializer) × (serialize_datagram d s ≡ some t)
unfolding serialize_datagram serialize
datagram_serializes d s h = elim (Option-cases (serialize_datagram d s)) [
  | inl failed ↦ absurd (ground (arith, h, failed))
  | inr done ↦ done
]
