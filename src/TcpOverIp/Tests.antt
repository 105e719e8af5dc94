-- ===== src/TcpOverIp/Tests.antt =====
-- Two adapters of util/tcp_over_ip.cc with a message, and instances of the theorems on them.
use cs144_2024_winter.Base.{◌≡◌, refl, arith, true, false, some, List, [], ◌∷◌, Bytes}
use cs144_2024_winter.TcpPeer.{TcpMessage}
use cs144_2024_winter.TcpSegment.{TcpSegment, ackno_raw, tcp_header_min_len}
use cs144_2024_winter.TcpSegment
use cs144_2024_winter.Parser.Buffer.{joined, joined_one, AllFilled}
use cs144_2024_winter.Ipv4.{Ipv4Datagram, pseudo_checksum}
use cs144_2024_winter.Ipv4.RoundTrip.{checked}
use cs144_2024_winter.Parser.{Parser, parser}
use cs144_2024_winter.TcpOverIp.Filter.{LetThrough, unwrap_accepts}
use cs144_2024_winter.Ipv4.Datagram.{wire}
use cs144_2024_winter.TcpOverIp.{
  Adapter, tcp_segment, proto_tcp, header_for, write, read, unwrap_tcp_in_ip,
}
use cs144_2024_winter.TcpOverIp.RoundTrip.{
  unwrap_peer, length-payload, Fits, IsValid, received, datagram_for, length-sent, read-write,
  read-first,
}

abbrev near : Adapter
near = record {
  config = record {
    source = record { ip = 0xa9fe9009; port = 5000 };
    destination = record { ip = 0x0a000001; port = 80 };
    loss_rate_dn = 0;
    loss_rate_up = 0;
  };
  listening = false;
}

abbrev far : Adapter
far = record {
  config = record {
    source = record { ip = 0x0a000001; port = 80 };
    destination = record { ip = 0xa9fe9009; port = 5000 };
    loss_rate_dn = 0;
    loss_rate_up = 0;
  };
  listening = false;
}

-- An adapter on port 80 that waits for a connection.
abbrev waiting : Adapter
waiting = record {
  config = record {
    source = record { ip = 0; port = 80 };
    destination = record { ip = 0; port = 0 };
    loss_rate_dn = 0;
    loss_rate_up = 0;
  };
  listening = true;
}

abbrev hello : TcpMessage
hello = record {
  sender = record {
    seqno = record { raw_value = 16909060 };
    syn = true;
    payload = 104 ∷ 105 ∷ [];
    fin = false;
    rst = false;
  };
  receiver = record { ackno = some (record { raw_value = 77 }); window_size = 500; rst = false };
}

hello-Fits : Fits hello
unfolding ackno_raw
hello-Fits = omega arith

near-IsValid : IsValid near
near-IsValid = omega arith

-- The datagram as one string.
abbrev sent : List Bytes
sent = joined (wire (datagram_for hello near)) ∷ []

sent-AllFilled : AllFilled sent
sent-AllFilled = (omega (arith, length-sent hello near), tt)

read-write_example :
    (write hello near ≡ some (wire (datagram_for hello near)))
    × (read sent far ≡ some (some (received hello), far))
read-write_example =
    read-write hello near far sent hello-Fits near-IsValid refl refl refl sent-AllFilled
      (joined_one (joined (wire (datagram_for hello near))))

read-first_example :
    (c : Adapter) × (read sent waiting ≡ some (some (received hello), c))
    × (c.listening ≡ false)
    × (c.config.source ≡ near.config.destination)
    × (c.config.destination ≡ near.config.source)
read-first_example =
    read-first hello near waiting sent hello-Fits near-IsValid refl refl refl refl sent-AllFilled
      (joined_one (joined (wire (datagram_for hello near))))

-- The datagram, with the segment in one string.
abbrev datagram : Ipv4Datagram
datagram = record {
  header = checked (header_for hello near);
  payload = joined (datagram_for hello near).payload ∷ [];
}

datagram-AllFilled : AllFilled datagram.payload
datagram-AllFilled = (omega (arith, length-payload hello near), tt)

unwraps : unwrap_tcp_in_ip datagram far ≡ some (some (received hello), far)
unwraps =
    unwrap_peer hello near far datagram hello-Fits near-IsValid refl refl refl refl
      (joined_one (joined (datagram_for hello near).payload)) datagram-AllFilled

unwrap_accepts_example :
    (datagram.header.proto ≡ proto_tcp)
    × (seg : TcpSegment) × (p : Parser) × (TcpSegment.parse
          (pseudo_checksum datagram.header)
          tcp_segment
          (parser datagram.payload)
        ≡ some (seg, p))
    × (p.error ≡ false)
    × LetThrough datagram.header seg (received hello) far far
unwrap_accepts_example = unwrap_accepts datagram far far (received hello) unwraps
