-- ===== src/TcpPeer/Tests.antt =====
-- A peer of util/tcp_peer.hh that has sent its SYN and gets a segment with a byte, as an instance of
-- the theorem on replies.
use cs144_2024_winter.Base.{
  ◌<◌, ◌≡◌, refl, arith, List, [], ◌∷◌, true, false, some, length, add64, sub64,
}
use cs144_2024_winter.ByteStream.{ByteStream, byte_stream, has_error, is_finished}
use cs144_2024_winter.ByteStream.Invariant
use cs144_2024_winter.WrappingIntegers.{Wrap32}
use cs144_2024_winter.WrappingIntegers.RoundTrip.{wrap_zero}
use cs144_2024_winter.Reassembler.{reassembler}
use cs144_2024_winter.TcpMessage.{SenderMessage, sequence_length}
use cs144_2024_winter.TcpReceiver.{TcpReceiver}
use cs144_2024_winter.TcpReceiver
use cs144_2024_winter.TcpSender.{sequence_numbers_in_flight}
use cs144_2024_winter.TcpSender.Valid.{IsValid}
use cs144_2024_winter.TcpPeer.{TcpPeer, TcpMessage, done, receive, active}
use cs144_2024_winter.TcpPeer.Reply.{receive_replies}

abbrev isn : Wrap32
isn = record { raw_value = 137 }

abbrev input : ByteStream
input = record {
  capacity = 4;
  error = false;
  begin = 0;
  end = 0;
  content = 32 ∷ 32 ∷ 32 ∷ 32 ∷ 32 ∷ [];
  pushed_cnt = 0;
  popped_cnt = 0;
  is_closed = false;
}

abbrev syn_segment : SenderMessage
syn_segment = record { seqno = isn; syn = true; payload = []; fin = false; rst = false }

abbrev peer : TcpPeer
peer = record {
  rt_timeout = 1000;
  sender = record {
    input = input;
    isn = isn;
    initial_rto_ms = 1000;
    cur_rto_ms = 1000;
    abs_last_ackno = 0;
    abs_exp_ackno = 1;
    has_fin_sent = false;
    is_fin_acked = false;
    retx_cnt = 0;
    is_con_retx = false;
    timer = record { is_running = true; is_expired = false; exp_time = 1000; cur_time = 0 };
    wnd_size = 1;
    ost_segs = (0, syn_segment) ∷ [];
  };
  receiver = record {
    reassembler = reassembler (byte_stream 4);
    isn = record { raw_value = 0 };
    max_abs_seqno = 0;
    is_init = false;
    has_fin = false;
    has_rst = false;
  };
  need_send = false;
  linger_after_streams_finish = true;
  cumulative_time = 0;
  time_of_last_receipt = 0;
}

-- The other side's SYN with one byte.
abbrev hello : TcpMessage
hello = record {
  sender = record {
    seqno = record { raw_value = 7 };
    syn = true;
    payload = 104 ∷ [];
    fin = false;
    rst = false;
  };
  receiver = record { ackno = some (record { raw_value = 138 }); window_size = 10; rst = false };
}

input-IsValid : Invariant.IsValid input
input-IsValid = record {
  ordered = omega arith;
  within = omega arith;
  stored = refl;
  small = omega arith;
  pushed_word = omega arith;
  popped_word = omega arith;
}

sender-IsValid : IsValid peer.sender
unfolding sequence_length add64
sender-IsValid = ground (arith, input-IsValid, wrap_zero 0 isn)

peer-active : active peer ≡ true
unfolding active has_error is_finished reassembler byte_stream add64 sub64
    sequence_numbers_in_flight
peer-active = refl

hello_counts : 0 < sequence_length hello.sender
unfolding sequence_length add64
hello_counts = omega arith

receive_replies_example :
    (q : TcpPeer) × (sent : List TcpMessage) × (receive hello peer ≡ done q sent)
    × (0 < length sent)
    × (q.need_send ≡ false)
    × IsValid q.sender
    × (q.receiver ≡ TcpReceiver.receive hello.sender peer.receiver)
receive_replies_example =
    receive_replies hello peer peer-active sender-IsValid (omega arith) (omega arith) hello_counts
