-- ===== src/TcpOverIp/Filter.antt =====
-- util/tcp_over_ip.cc: which datagrams `unwrap_tcp_in_ip` lets through.
use cs144_2024_winter.Base.{
  ◌≡◌, refl, arith, true, false, not, ◌&&◌, Option, none, some, if◌then◌else◌, ◌==◌, Bool-cases,
  ◌⊎◌, inl, inr,
}
use cs144_2024_winter.TcpPeer.{TcpMessage}
use cs144_2024_winter.TcpSegment.{TcpSegment}
use cs144_2024_winter.TcpSegment
use cs144_2024_winter.Parser.{Parser, parser}
use cs144_2024_winter.Ipv4.{Ipv4Header, Ipv4Datagram, pseudo_checksum}
use cs144_2024_winter.TcpOverIp.{
  Adapter, tcp_segment, unwrap_tcp_in_ip, take_segment, answer_to, addressed, proto_tcp,
}

-- The segment comes from the adapter's peer and goes to the adapter.
pub record FromPeer (h : Ipv4Header) (seg : TcpSegment) (a : Adapter) : Type 0 where
  pub dst : h.dst ≡ a.config.source.ip
  pub src : h.src ≡ a.config.destination.ip
  pub dst_port : seg.udinfo.dst_port ≡ a.config.source.port
  pub src_port : seg.udinfo.src_port ≡ a.config.destination.port

-- What a segment that is let through is like, and what it makes of the adapter.
pub record LetThrough (h : Ipv4Header) (seg : TcpSegment) (m : TcpMessage) (a c : Adapter)
    : Type 0 where
  pub message : m ≡ seg.message
  pub from_peer : FromPeer h seg c
  pub settled : c.listening ≡ false
  pub adapter : c ≡ (if a.listening then answer_to h seg a else a)
  pub first : (a.listening && not (m.sender.syn && not m.sender.rst)) ≡ false

accepts_quiet :
    (h : Ipv4Header) (seg : TcpSegment) (a c : Adapter) (m : TcpMessage)
    → a.listening ≡ false
    → addressed h a ≡ true
    → take_segment h seg a ≡ (some m, c)
    → LetThrough h seg m a c
unfolding take_segment addressed
accepts_quiet h seg a c m quiet near e = record {
  message = ground (arith, quiet, e);
  from_peer = record {
    dst = ground (arith, quiet, near, e);
    src = ground (arith, quiet, near, e);
    dst_port = ground (arith, quiet, e);
    src_port = ground (arith, quiet, e);
  };
  settled = ground (arith, quiet, e);
  adapter = ground (arith, quiet, e);
  first = ground (arith, quiet);
}

accepts_first :
    (h : Ipv4Header) (seg : TcpSegment) (a c : Adapter) (m : TcpMessage)
    → a.listening ≡ true
    → take_segment h seg a ≡ (some m, c)
    → LetThrough h seg m a c
unfolding take_segment answer_to
accepts_first h seg a c m listens e = record {
  message = ground (arith, listens, e);
  from_peer = record {
    dst = ground (arith, listens, e);
    src = ground (arith, listens, e);
    dst_port = ground (arith, listens, e);
    src_port = ground (arith, listens, e);
  };
  settled = ground (arith, listens, e);
  adapter = ground (arith, listens, e);
  first = ground (arith, listens, e);
}

take_segment_refuses :
    (h : Ipv4Header) (seg : TcpSegment) (a c : Adapter) → take_segment h seg a ≡ (none, c) → c ≡ a
unfolding take_segment answer_to
take_segment_refuses h seg a c e = ground (arith, e)

pair_cases :
    (o : Option (TcpSegment × Parser))
    → (o ≡ none) ⊎ ((s : TcpSegment) × (p : Parser) × (o ≡ some (s, p)))
pair_cases none = inl refl
pair_cases (some (s, p)) = inr (s, p, refl)

-- The answer of `unwrap_tcp_in_ip` is that of `take_segment` on a segment that was parsed without an
-- error, or the adapter turned the datagram down before that.
unwrapped :
    (d : Ipv4Datagram) (a c : Adapter) (r : Option TcpMessage)
    → unwrap_tcp_in_ip d a ≡ some (r, c)
    → ((r ≡ none) × (c ≡ a))
      ⊎ ((addressed d.header a ≡ true)
          × (d.header.proto ≡ proto_tcp)
          × (seg : TcpSegment) × (p : Parser) × (TcpSegment.parse
                (pseudo_checksum d.header)
                tcp_segment
                (parser d.payload)
              ≡ some (seg, p))
          × (p.error ≡ false)
          × (take_segment d.header seg a ≡ (r, c)))
unfolding unwrap_tcp_in_ip
unwrapped d a c r e = elim (Bool-cases (addressed d.header a && (d.header.proto == proto_tcp))) [
  | inr far ↦ inl (ground (arith, far, e), ground (arith, far, e))
  | inl near ↦
      elim (pair_cases
        (TcpSegment.parse (pseudo_checksum d.header) tcp_segment (parser d.payload))) [
          | inl failed ↦ absurd (ground (arith, near, failed, e))
          | inr (seg, p, parsed) ↦ elim (Bool-cases p.error) [
            | inl bad ↦
                inl (ground (arith, near, parsed, bad, e), ground (arith, near, parsed, bad, e))
            | inr fine ↦ inr (
              ground (arith, near),
              ground (arith, near),
              seg,
              p,
              parsed,
              fine,
              ground (arith, near, parsed, fine, e),
            )
          ]
        ]
]

-- A message that `unwrap_tcp_in_ip` hands on was in a datagram of TCP and in a segment that parses
-- without an error, came from the addresses and ports of the peer and went to those of the adapter,
-- as the adapter stands afterwards. An adapter that was listening has turned to the sender and was
-- sent a SYN without RST; any other adapter is as it was.
pub unwrap_accepts :
    (d : Ipv4Datagram) (a c : Adapter) (m : TcpMessage)
    → unwrap_tcp_in_ip d a ≡ some (some m, c)
    → (d.header.proto ≡ proto_tcp)
      × (seg : TcpSegment) × (p : Parser) × (TcpSegment.parse
            (pseudo_checksum d.header)
            tcp_segment
            (parser d.payload)
          ≡ some (seg, p))
      × (p.error ≡ false)
      × LetThrough d.header seg m a c
unwrap_accepts d a c m e = elim (unwrapped d a c (some m) e) [
  | inl (refused, _) ↦ absurd (cc)
  | inr (near, tcp, seg, p, parsed, fine, taken) ↦ (
    tcp,
    seg,
    p,
    parsed,
    fine,
    elim (Bool-cases a.listening) [
      | inl listens ↦ accepts_first d.header seg a c m listens taken
      | inr quiet ↦ accepts_quiet d.header seg a c m quiet near taken
    ],
  )
]

-- A datagram that is turned down leaves the adapter as it was.
pub unwrap_refuses :
    (d : Ipv4Datagram) (a c : Adapter) → unwrap_tcp_in_ip d a ≡ some (none, c) → c ≡ a
unwrap_refuses d a c e = elim (unwrapped d a c none e) [
  | inl (_, same) ↦ same
  | inr (near, tcp, seg, p, parsed, fine, taken) ↦ take_segment_refuses d.header seg a c taken
]
