-- ===== src/TcpSender/Tests.antt =====
-- Runs of src/tcp_sender.cc on an input of five bytes, and instances of the theorems on it.
use cs144_2024_winter.Base.{
  ◌+◌, ◌%◌, ◌≡◌, refl, arith, List, [], ◌∷◌, true, false, some, u32_mod, add64, if◌then◌else◌, ◌==◌,
}
use cs144_2024_winter.ByteStream.{ByteStream}
use cs144_2024_winter.ByteStream.Invariant
use cs144_2024_winter.WrappingIntegers.{Wrap32}
use cs144_2024_winter.WrappingIntegers.RoundTrip.{wrap_zero}
use cs144_2024_winter.TcpMessage.{SenderMessage, ReceiverMessage, sequence_length}
use cs144_2024_winter.TcpSender.{TcpSender, receive, tick}
use cs144_2024_winter.TcpSender.RetxTimer.{Timer}
use cs144_2024_winter.TcpSender.Valid.{IsValid, receive-IsValid}
use cs144_2024_winter.TcpSender.Push.{Pushes, push-Pushes}
use cs144_2024_winter.TcpSender.Retransmit.{tick_retransmits, next_rto}

abbrev isn : Wrap32
isn = record { raw_value = 4294967294 }

-- Five bytes that wait to be read, from a writer that has closed.
abbrev input : ByteStream
input = record {
  capacity = 8;
  error = false;
  begin = 0;
  end = 5;
  content = 0 ∷ 1 ∷ 2 ∷ 3 ∷ 4 ∷ 32 ∷ 32 ∷ 32 ∷ 32 ∷ [];
  pushed_cnt = 5;
  popped_cnt = 0;
  is_closed = true;
}

-- A running timer, started over.
abbrev running : Timer
running = record { is_running = true; is_expired = false; exp_time = 1000; cur_time = 0 }

abbrev syn_segment : SenderMessage
syn_segment = record { seqno = isn; syn = true; payload = []; fin = false; rst = false }

-- A sender that has sent its SYN and waits for the acknowledgement.
abbrev waiting : TcpSender
waiting = record {
  input = input;
  isn = isn;
  initial_rto_ms = 1000;
  cur_rto_ms = 1000;
  abs_last_ackno = 0;
  abs_exp_ackno = 1;
  has_fin_sent = false;
  is_fin_acked = false;
  retx_cnt = 0;
  is_con_retx = false;
  timer = running;
  wnd_size = 1;
  ost_segs = (0, syn_segment) ∷ [];
}

-- The same sender once its SYN is acknowledged, with a window of four bytes.
abbrev acked : TcpSender
acked = record waiting {
  abs_last_ackno = 1;
  timer = record running { is_running = false };
  wnd_size = 4;
  ost_segs = [];
}

abbrev syn_ack : ReceiverMessage
syn_ack = record { ackno = some (record { raw_value = 4294967295 }); window_size = 4; rst = false }

input-IsValid : Invariant.IsValid input
input-IsValid = record {
  ordered = omega arith;
  within = omega arith;
  stored = refl;
  small = omega arith;
  pushed_word = omega arith;
  popped_word = omega arith;
}

waiting-IsValid : IsValid waiting
unfolding sequence_length add64
waiting-IsValid = ground (arith, input-IsValid, wrap_zero 0 isn)

acked-IsValid : IsValid acked
acked-IsValid = ground (arith, input-IsValid)

push-Pushes_example : (t : TcpSender) × (ms : List SenderMessage) × Pushes acked t ms
push-Pushes_example = push-Pushes acked acked-IsValid (omega arith)

receive-IsValid_example : IsValid (receive syn_ack waiting)
receive-IsValid_example = receive-IsValid syn_ack waiting-IsValid (omega arith)

tick_retransmits_example :
    let (t, sent) = tick 1000 waiting in
    (sent ≡ syn_segment ∷ [])
    × (t.ost_segs ≡ waiting.ost_segs)
    × (t.abs_exp_ackno ≡ 1)
    × (t.cur_rto_ms ≡ next_rto waiting)
    × (t.timer ≡ record {
      is_running = true;
      is_expired = false;
      exp_time = next_rto waiting;
      cur_time = 0;
    })
    × (t.retx_cnt ≡ (
        if waiting.wnd_size == 0
        then waiting.retx_cnt
        else if waiting.is_con_retx
        then (waiting.retx_cnt + 1) % u32_mod
        else 1))
tick_retransmits_example =
    tick_retransmits 1000 0 syn_segment [] waiting refl refl (omega arith) (omega arith)
      (omega arith)
