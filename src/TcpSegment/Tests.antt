-- ===== src/TcpSegment/Tests.antt =====
-- A segment of util/tcp_segment.cc with SYN, ACK and two bytes, as an instance of the theorem on its
-- round trip.
use cs144_2024_winter.Base.{List, Bytes, ap, length, ◌≡◌, arith, [], ◌∷◌, true, false, some}
use cs144_2024_winter.Serializer.{serializer, output}
use cs144_2024_winter.TcpSegment.{TcpSegment, ackno_raw, parse, serialize, compute_checksum}
use cs144_2024_winter.Parser.{Parser, parser}
use cs144_2024_winter.Parser.Buffer.{joined, joined_one, AllFilled}
use cs144_2024_winter.TcpSegment.RoundTrip.{
  IsValid, one_rst, joined-serialize, length-segment_bytes, segment_parse-serialize,
}

abbrev hello : TcpSegment
hello = record {
  message = record {
    sender = record {
      seqno = record { raw_value = 16909060 };
      syn = true;
      payload = 104 ∷ 105 ∷ [];
      fin = false;
      rst = false;
    };
    receiver = record { ackno = some (record { raw_value = 77 }); window_size = 500; rst = false };
  };
  udinfo = record { src_port = 80; dst_port = 1234; cksum = 0 };
}

-- The segment's bytes as one string.
abbrev sent : List Bytes
sent = joined (output (serialize (compute_checksum 1000 hello) serializer)) ∷ []

sent-AllFilled : AllFilled sent
sent-AllFilled = (
  omega (
    arith,
    ap (λ t. length t) (joined-serialize (compute_checksum 1000 hello)),
    length-segment_bytes (compute_checksum 1000 hello),
  ),
  tt,
)

hello-IsValid : IsValid hello
unfolding ackno_raw
hello-IsValid = omega arith

segment_parse-serialize_example :
    (p : Parser) × (parse 1000 hello (parser sent)
      ≡ some (one_rst (compute_checksum 1000 hello), p))
    × (p.error ≡ false)
segment_parse-serialize_example =
    segment_parse-serialize 1000 hello hello sent (omega arith) (omega arith) (omega arith)
      (omega arith) hello-IsValid sent-AllFilled
      (joined_one (joined (output (serialize (compute_checksum 1000 hello) serializer))))
