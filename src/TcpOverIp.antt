-- ===== src/TcpOverIp.antt =====
-- util/tcp_over_ip.hh and util/tcp_over_ip.cc, with util/fd_adapter.hh, util/lossy_fd_adapter.hh and
-- util/tuntap_adapter.hh and .cc: TCP messages in IPv4 datagrams.
pub mod RoundTrip
mod Tests
pub mod Filter
use cs144_2024_winter.Base.{
  ℕ, ◌+◌, ◌*◌, ◌%◌, ◌^◌, List, [], ◌∷◌, Bool, true, false, not, ◌||◌, ◌&&◌, ltb, ◌==◌,
  if◌then◌else◌, Option, none, some, Bytes, length, u16_mod,
}
use cs144_2024_winter.TcpMessage.{empty_message}
use cs144_2024_winter.TcpPeer.{TcpMessage}
use cs144_2024_winter.TcpSegment.{TcpSegment}
use cs144_2024_winter.TcpSegment
use cs144_2024_winter.Parser.{parser}
use cs144_2024_winter.Serializer.{serializer, output}
use cs144_2024_winter.Ipv4.{
  Ipv4Header, Ipv4Datagram, ipv4_header, pseudo_checksum, compute_checksum, parse_datagram,
  serialize_datagram,
}

-- An address of IPv4 with a port.
pub record Address : Type 0 where
  pub ip : ℕ
  pub port : ℕ

pub record FdAdapterConfig : Type 0 where
  pub source : Address
  pub destination : Address
  pub loss_rate_dn : ℕ
  pub loss_rate_up : ℕ

-- An adapter's state.
pub record Adapter : Type 0 where
  pub config : FdAdapterConfig
  pub listening : Bool

abbrev pub proto_tcp : ℕ
proto_tcp = 6

-- A segment as it is declared.
abbrev pub tcp_segment : TcpSegment
tcp_segment = record {
  message = record {
    sender = empty_message;
    receiver = record { ackno = none; window_size = 0; rst = false };
  };
  udinfo = record { src_port = 0; dst_port = 0; cksum = 0 };
}

-- The last test: is the segment from the peer's port?
unfoldable pub from_peer : TcpSegment → Adapter → Option TcpMessage × Adapter
from_peer seg a =
    if seg.udinfo.src_port == a.config.destination.port then (some seg.message, a) else (none, a)

-- Whom a listening adapter answers from now on.
unfoldable pub answer_to : Ipv4Header → TcpSegment → Adapter → Adapter
answer_to h seg a = record {
  config = record (a.config) {
    source = record { ip = h.dst; port = a.config.source.port };
    destination = record { ip = h.src; port = seg.udinfo.src_port };
  };
  listening = false;
}

-- The tests on a segment that was parsed.
unfoldable pub take_segment : Ipv4Header → TcpSegment → Adapter → Option TcpMessage × Adapter
unfolding from_peer answer_to
take_segment h seg a =
    if not (seg.udinfo.dst_port == a.config.source.port)
    then (none, a)
    else if a.listening
    then (if seg.message.sender.syn && not seg.message.sender.rst
        then from_peer seg (answer_to h seg a)
        else (none, a))
    else from_peer seg a

-- Is the datagram one from the peer to this adapter?
unfoldable pub addressed : Ipv4Header → Adapter → Bool
addressed h a = a.listening || ((h.dst == a.config.source.ip) && (h.src == a.config.destination.ip))

-- The outer `none` is an exception of the parser.
unfoldable pub unwrap_tcp_in_ip : Ipv4Datagram → Adapter → Option (Option TcpMessage × Adapter)
unfolding addressed
unwrap_tcp_in_ip d a =
    if not (addressed d.header a && (d.header.proto == proto_tcp))
    then some (none, a)
    else elim (TcpSegment.parse (pseudo_checksum d.header) tcp_segment (parser d.payload)) [
      | none ↦ none
      | some (seg, p) ↦ if p.error then some (none, a) else some (take_segment d.header seg a)
    ]

-- The segment that `wrap_tcp_in_ip` puts into its datagram, before the checksum.
unfoldable pub segment_for : TcpMessage → Adapter → TcpSegment
segment_for msg a = record {
  message = msg;
  udinfo = record {
    src_port = a.config.source.port;
    dst_port = a.config.destination.port;
    cksum = 0;
  };
}

-- The header of its datagram, before the checksum.
unfoldable pub header_for : TcpMessage → Adapter → Ipv4Header
header_for msg a = record ipv4_header {
  src = a.config.source.ip;
  dst = a.config.destination.ip;
  len = (ipv4_header.hlen * 4 + 20 + length msg.sender.payload) % u16_mod;
}

-- `none` is the exception on another version of IP.
unfoldable pub wrap_tcp_in_ip : TcpMessage → Adapter → Option Ipv4Datagram
wrap_tcp_in_ip msg a =
    let seg =
      TcpSegment.compute_checksum (pseudo_checksum (header_for msg a)) (segment_for msg a) in
    elim (compute_checksum (header_for msg a)) [
      | none ↦ none
      | some header ↦
          some (record { header = header; payload = output (TcpSegment.serialize seg serializer) })
    ]

-- `write` of the adapter over a TUN device: the strings that are written to the device.
unfoldable pub write : TcpMessage → Adapter → Option (List Bytes)
unfolding wrap_tcp_in_ip
write msg a = elim (wrap_tcp_in_ip msg a) [
  | none ↦ none
  | some d ↦ elim (serialize_datagram d serializer) [ none ↦ none | some s ↦ some (output s) ]
]

-- A datagram as it is declared.
abbrev pub internet_datagram : Ipv4Datagram
internet_datagram = record { header = ipv4_header; payload = [] }

-- `read` of the adapter over a TUN device, from the buffers that the device was read into.
unfoldable pub read : List Bytes → Adapter → Option (Option TcpMessage × Adapter)
read buffers a = elim (parse_datagram internet_datagram (parser buffers)) [
  | none ↦ none
  | some (d, p) ↦ if p.error then some (none, a) else unwrap_tcp_in_ip d a
]

-- Does the lossy adapter drop? The random number is an argument.
unfoldable pub should_drop : ℕ → ℕ → Bool
should_drop loss random = not (loss == 0) && ltb (random % u16_mod) loss

-- `read` and `write` of the lossy adapter.
unfoldable pub lossy_read : ℕ → List Bytes → Adapter → Option (Option TcpMessage × Adapter)
unfolding read should_drop
lossy_read random buffers a = elim (read buffers a) [
  | none ↦ none
  | some (msg, b) ↦ some (if should_drop b.config.loss_rate_dn random then none else msg, b)
]

unfoldable pub lossy_write : ℕ → TcpMessage → Adapter → Option (List Bytes)
unfolding write should_drop
lossy_write random msg a = if should_drop a.config.loss_rate_up random then some [] else write msg a
