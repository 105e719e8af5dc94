-- ===== src/TcpOverIp/RoundTrip.antt =====
-- util/tcp_over_ip.cc: a message that one adapter writes and another one reads.
use cs144_2024_winter.Base.{
  ◌+◌, ◌^◌, ◌<◌, ◌≡◌, refl, sym, ap, ◌∙◌, arith, true, false, ◌||◌, List, some, Bytes, length,
  length-append,
}
use cs144_2024_winter.TcpPeer.{TcpMessage}
use cs144_2024_winter.TcpSegment.{TcpSegment, ackno_raw}
use cs144_2024_winter.TcpSegment
use cs144_2024_winter.TcpSegment.RoundTrip.{
  one_rst, IsValid as IsSegment, segment_parse-serialize, joined-serialize, length-segment_bytes,
  message-compute_checksum, ports-compute_checksum,
}
use cs144_2024_winter.Parser.{Parser, parser}
use cs144_2024_winter.Parser.Buffer.{joined, AllFilled}
use cs144_2024_winter.Serializer.{AllBytes, serializer, output, written}
use cs144_2024_winter.Ipv4.{Ipv4Header, Ipv4Datagram, pseudo_checksum, fields}
use cs144_2024_winter.Ipv4.RoundTrip.{
  checked, IsValid as IsHeader, compute_checksum_lem, length-header_bytes,
}
use cs144_2024_winter.Ipv4.Datagram.{
  checked_datagram, serialize_datagram_lem, wire, joined-wire, datagram_parse-serialize,
}
use cs144_2024_winter.Ipv4.Pseudo.{pseudo_checksum_bounds, pseudo_checksum-checked}
use cs144_2024_winter.TcpOverIp.{
  answer_to, Adapter, unwrap_tcp_in_ip, wrap_tcp_in_ip, segment_for, header_for, take_segment,
  addressed, write, read, internet_datagram, tcp_segment,
}

-- A message whose fields fit their widths, with a payload as an IP datagram can carry it.
pub record Fits (m : TcpMessage) : Type 0 where
  pub seqno : m.sender.seqno.raw_value < 2 ^ 32
  pub ackno : ackno_raw m.receiver.ackno < 2 ^ 32
  pub window_size : m.receiver.window_size < 2 ^ 16
  pub bytes : AllBytes m.sender.payload
  pub short : length m.sender.payload < 60000

-- Addresses that fit their widths.
pub record IsValid (a : Adapter) : Type 0 where
  pub source_ip : a.config.source.ip < 2 ^ 32
  pub source_port : a.config.source.port < 2 ^ 16
  pub destination_ip : a.config.destination.ip < 2 ^ 32
  pub destination_port : a.config.destination.port < 2 ^ 16

-- The segment and the datagram of a message, the segment's checksum computed.
abbrev pub sent_segment : TcpMessage → Adapter → TcpSegment
sent_segment m a = TcpSegment.compute_checksum (pseudo_checksum (header_for m a)) (segment_for m a)

abbrev pub datagram_for : TcpMessage → Adapter → Ipv4Datagram
datagram_for m a = record {
  header = header_for m a;
  payload = output (TcpSegment.serialize (sent_segment m a) serializer);
}

header_for-IsValid : (m : TcpMessage) (a : Adapter) → IsValid a → IsHeader (header_for m a)
unfolding header_for
header_for-IsValid m a v = record {
  ver = refl;
  hlen = refl;
  tos = omega arith;
  len = omega arith;
  id = omega arith;
  offset = omega arith;
  ttl = omega arith;
  proto = omega arith;
  cksum = omega arith;
  src = v.source_ip;
  dst = v.destination_ip;
}

segment_for-IsValid :
    (m : TcpMessage) (a : Adapter) → Fits m → IsValid a → IsSegment (segment_for m a)
unfolding segment_for
segment_for-IsValid m a f v = record {
  src_port = v.source_port;
  dst_port = v.destination_port;
  cksum = omega arith;
  seqno = f.seqno;
  ackno = f.ackno;
  window_size = f.window_size;
}

sum_bounds :
    (m : TcpMessage) (a : Adapter)
    → IsValid a
    → (0 < pseudo_checksum (header_for m a)) × (pseudo_checksum (header_for m a) < 2 ^ 20)
unfolding header_for
sum_bounds m a v =
    pseudo_checksum_bounds (header_for m a) v.source_ip v.destination_ip (omega arith) (omega arith)

message-sent : (m : TcpMessage) (a : Adapter) → (sent_segment m a).message ≡ m
unfolding segment_for
message-sent m a = message-compute_checksum (pseudo_checksum (header_for m a)) (segment_for m a)

pub length-payload :
    (m : TcpMessage) (a : Adapter)
    → length (joined (datagram_for m a).payload) ≡ 20 + length m.sender.payload
length-payload m a = omega (
  arith,
  ap (λ t. length t) (joined-serialize (sent_segment m a)),
  length-segment_bytes (sent_segment m a),
  ap (λ n. length n.sender.payload) (message-sent m a),
)

pub length-sent :
    (m : TcpMessage) (a : Adapter)
    → length (joined (wire (datagram_for m a))) ≡ 40 + length m.sender.payload
length-sent m a =
    let segment = sent_segment m a in
    omega (
      arith,
      ap (λ t. length t) (joined-wire (datagram_for m a)),
      length-append (written (fields (checked (header_for m a))))
          (joined (datagram_for m a).payload),
      length-header_bytes (checked (header_for m a)),
      length-payload m a,
    )

-- The tests before the parser let the header pass.
proto-header_for : (m : TcpMessage) (a : Adapter) → (header_for m a).proto ≡ 6
unfolding header_for
proto-header_for m a = refl

parse_segment :
    (m : TcpMessage) (a : Adapter) (ss : List Bytes)
    → Fits m
    → IsValid a
    → AllFilled ss
    → joined ss ≡ joined (datagram_for m a).payload
    → (p : Parser) × (TcpSegment.parse (pseudo_checksum (header_for m a)) tcp_segment (parser ss)
        ≡ some (one_rst (sent_segment m a), p))
      × (p.error ≡ false)
unfolding segment_for
parse_segment m a ss f v filled text =
    let (low, high) = sum_bounds m a v in
    segment_parse-serialize (pseudo_checksum (header_for m a)) tcp_segment (segment_for m a) ss low
      high f.short f.bytes (segment_for-IsValid m a f v) filled text

-- What the parsers make of a datagram, as long as the address tests let it pass.
unwrap_sent :
    (m : TcpMessage) (a b : Adapter) (d : Ipv4Datagram)
    → Fits m
    → IsValid a
    → addressed (checked (header_for m a)) b ≡ true
    → d.header ≡ checked (header_for m a)
    → joined d.payload ≡ joined (datagram_for m a).payload
    → AllFilled d.payload
    → unwrap_tcp_in_ip d b
      ≡ some (take_segment (checked (header_for m a)) (one_rst (sent_segment m a)) b)
unfolding unwrap_tcp_in_ip
unwrap_sent m a b d f v near head text filled =
    let (p, e, fine) = parse_segment m a d.payload f v filled text in
    let sum : pseudo_checksum d.header ≡ pseudo_checksum (header_for m a) =
      ap pseudo_checksum head ∙ pseudo_checksum-checked (header_for m a) in
    rw (sum, e, head, near, proto-header_for m a, fine) refl

ver-header_for : (m : TcpMessage) (a : Adapter) → (header_for m a).ver ≡ 4
unfolding header_for
ver-header_for m a = refl

pub wrap_lem :
    (m : TcpMessage) (a : Adapter) → wrap_tcp_in_ip m a ≡ some (checked_datagram (datagram_for m a))
unfolding wrap_tcp_in_ip
wrap_lem m a = rw (wrap_tcp_in_ip, compute_checksum_lem (header_for m a) (ver-header_for m a)) refl

write_lem : (m : TcpMessage) (a : Adapter) → write m a ≡ some (wire (datagram_for m a))
unfolding write
write_lem m a =
    rw (write, wrap_lem m a, serialize_datagram_lem (datagram_for m a) (ver-header_for m a)) refl

read_sent :
    (m : TcpMessage) (a b : Adapter) (ss : List Bytes)
    → Fits m
    → IsValid a
    → addressed (checked (header_for m a)) b ≡ true
    → AllFilled ss
    → joined ss ≡ joined (wire (datagram_for m a))
    → read ss b ≡ some (take_segment (checked (header_for m a)) (one_rst (sent_segment m a)) b)
unfolding read
read_sent m a b ss f v near filled same =
    let (_, _, _, _, back) =
      datagram_parse-serialize internet_datagram (datagram_for m a) ss (header_for-IsValid m a v)
        filled (omega (arith, ap (λ t. length t) same, length-sent m a, f.short)) same in
    let (d, p, e, fine, head, text, whole) = back in
    rw (read, e, fine) (unwrap_sent m a b d f v near head text whole)

-- A message comes back as it was sent, but for its two RST flags, which come back as one.
abbrev pub received : TcpMessage → TcpMessage
received m =
    let rst = m.sender.rst || m.receiver.rst in
    record {
      sender = record (m.sender) { rst = rst };
      receiver = record (m.receiver) { rst = rst };
    }

addressed_peer :
    (m : TcpMessage) (a b : Adapter)
    → b.config.source ≡ a.config.destination
    → b.config.destination ≡ a.config.source
    → addressed (checked (header_for m a)) b ≡ true
unfolding addressed header_for
addressed_peer m a b here there = ground (arith, here, there)

ports-sent :
    (m : TcpMessage) (a : Adapter)
    → ((sent_segment m a).udinfo.src_port ≡ a.config.source.port)
      × ((sent_segment m a).udinfo.dst_port ≡ a.config.destination.port)
unfolding segment_for
ports-sent m a = ports-compute_checksum (pseudo_checksum (header_for m a)) (segment_for m a)

take_from_peer :
    (h : Ipv4Header) (seg : TcpSegment) (b : Adapter)
    → b.listening ≡ false
    → seg.udinfo.dst_port ≡ b.config.source.port
    → seg.udinfo.src_port ≡ b.config.destination.port
    → take_segment h (one_rst seg) b ≡ (some (received seg.message), b)
unfolding take_segment
take_from_peer h seg b quiet dst src = ground (arith, quiet, dst, src)

take_first :
    (h : Ipv4Header) (seg : TcpSegment) (b : Adapter)
    → b.listening ≡ true
    → seg.udinfo.dst_port ≡ b.config.source.port
    → seg.message.sender.syn ≡ true
    → (seg.message.sender.rst || seg.message.receiver.rst) ≡ false
    → take_segment h (one_rst seg) b ≡ (some (received seg.message), answer_to h seg b)
unfolding take_segment answer_to
take_first h seg b listens dst syn rst = ground (arith, listens, dst, syn, rst)

-- What `unwrap_tcp_in_ip` makes of a datagram with the header and the segment of a message.
pub unwrap_peer :
    (m : TcpMessage) (a b : Adapter) (d : Ipv4Datagram)
    → Fits m
    → IsValid a
    → b.listening ≡ false
    → b.config.source ≡ a.config.destination
    → b.config.destination ≡ a.config.source
    → d.header ≡ checked (header_for m a)
    → joined d.payload ≡ joined (datagram_for m a).payload
    → AllFilled d.payload
    → unwrap_tcp_in_ip d b ≡ some (some (received m), b)
unwrap_peer m a b d f v quiet here there head text filled =
    let (src, dst) = ports-sent m a in
    let taken =
      take_from_peer (checked (header_for m a)) (sent_segment m a) b quiet
        (dst ∙ ap (λ c. c.port) (sym here)) (src ∙ ap (λ c. c.port) (sym there)) in
    unwrap_sent m a b d f v (addressed_peer m a b here there) head text filled
    ∙ ap some (taken ∙ ap (λ n. (some (received n), b)) (message-sent m a))

-- Two connected adapters: what one writes without an exception, the other one reads as the same
-- message and stays as it is, however the bytes are cut into strings that are not empty.
pub read-write :
    (m : TcpMessage) (a b : Adapter) (ss : List Bytes)
    → Fits m
    → IsValid a
    → b.listening ≡ false
    → b.config.source ≡ a.config.destination
    → b.config.destination ≡ a.config.source
    → AllFilled ss
    → joined ss ≡ joined (wire (datagram_for m a))
    → (write m a ≡ some (wire (datagram_for m a))) × (read ss b ≡ some (some (received m), b))
read-write m a b ss f v quiet here there filled same =
    let (src, dst) = ports-sent m a in
    let taken =
      take_from_peer (checked (header_for m a)) (sent_segment m a) b quiet
        (dst ∙ ap (λ c. c.port) (sym here)) (src ∙ ap (λ c. c.port) (sym there)) in
    (
      write_lem m a,
      read_sent m a b ss f v (addressed_peer m a b here there) filled same
          ∙ ap some (taken ∙ ap (λ n. (some (received n), b)) (message-sent m a)),
    )

answered :
    (m : TcpMessage) (a b : Adapter)
    → b.config.source.port ≡ a.config.destination.port
    → ((answer_to (checked (header_for m a)) (sent_segment m a) b).listening ≡ false)
      × ((answer_to (checked (header_for m a)) (sent_segment m a) b).config.source
          ≡ a.config.destination)
      × ((answer_to (checked (header_for m a)) (sent_segment m a) b).config.destination
          ≡ a.config.source)
unfolding answer_to header_for
answered m a b port = (
  refl,
  ap (λ p. record { ip = a.config.destination.ip; port = p }) port,
  ap (λ p. record { ip = a.config.source.ip; port = p }) (ports-sent m a).0,
)

addressed_listening : (h : Ipv4Header) (b : Adapter) → b.listening ≡ true → addressed h b ≡ true
unfolding addressed
addressed_listening h b e = rw e refl

-- A listening adapter on the port that is written to, and a message with SYN and without RST: the
-- message is read, and from then on the two adapters are connected.
pub read-first :
    (m : TcpMessage) (a b : Adapter) (ss : List Bytes)
    → Fits m
    → IsValid a
    → b.listening ≡ true
    → b.config.source.port ≡ a.config.destination.port
    → m.sender.syn ≡ true
    → (m.sender.rst || m.receiver.rst) ≡ false
    → AllFilled ss
    → joined ss ≡ joined (wire (datagram_for m a))
    → (c : Adapter) × (read ss b ≡ some (some (received m), c))
      × (c.listening ≡ false)
      × (c.config.source ≡ a.config.destination)
      × (c.config.destination ≡ a.config.source)
read-first m a b ss f v listens port syn rst filled same =
    let (src, dst) = ports-sent m a in
    let e = message-sent m a in
    let h = checked (header_for m a) in
    let taken =
      take_first h (sent_segment m a) b listens (dst ∙ sym port) (ap (λ n. n.sender.syn) e ∙ syn)
        (ap (λ n. n.sender.rst || n.receiver.rst) e ∙ rst) in
    let (shut, here, there) = answered m a b port in
    let near = addressed_listening h b listens in
    (
      answer_to h (sent_segment m a) b,
      read_sent m a b ss f v near filled same
          ∙ ap some (taken ∙ ap (λ n. (some (received n), answer_to h (sent_segment m a) b)) e),
      shut,
      here,
      there,
    )
