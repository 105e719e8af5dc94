-- ===== src/TcpReceiver.antt =====
-- src/tcp_receiver.hh and src/tcp_receiver.cc: the receiving half of a connection.
pub mod Acks
pub mod Reset
mod Tests
use cs144_2024_winter.Base.{
  ℕ, ◌+◌, Bool, true, false, ◌||◌, Option, none, some, bit, ltb, ◌==◌, if◌then◌else◌, add64, sub64,
}
use cs144_2024_winter.WrappingIntegers.{Wrap32, wrap, unwrap}
use cs144_2024_winter.TcpMessage.{SenderMessage, ReceiverMessage}
use cs144_2024_winter.ByteStream.{set_error, has_error}
use cs144_2024_winter.Reassembler.{Reassembler, insert, bytes_pending, avail_cap}

pub record TcpReceiver : Type 0 where
  pub reassembler : Reassembler
  pub isn : Wrap32
  pub max_abs_seqno : ℕ
  pub is_init : Bool
  pub has_fin : Bool
  pub has_rst : Bool

unfoldable pub tcp_receiver : Reassembler → TcpReceiver
tcp_receiver reassembler = record {
  reassembler = reassembler;
  isn = record { raw_value = 0 };
  max_abs_seqno = 0;
  is_init = false;
  has_fin = false;
  has_rst = false;
}

-- `Reassembler::set_error`
pub fail : Reassembler → Reassembler
fail r = record r { output = set_error r.output }

-- The segment with the SYN flag.
unfoldable pub receive_syn : SenderMessage → TcpReceiver → TcpReceiver
receive_syn m t = record t {
  is_init = true;
  has_fin = m.fin;
  has_rst = m.rst;
  isn = m.seqno;
  max_abs_seqno = 0;
  reassembler = insert 0 m.payload m.fin t.reassembler;
}

-- Any other segment.
unfoldable pub receive_rest : SenderMessage → TcpReceiver → TcpReceiver
receive_rest m t =
    let abs = unwrap m.seqno t.isn t.max_abs_seqno in
    record t {
      has_fin = if m.fin then true else t.has_fin;
      has_rst = if m.rst then true else t.has_rst;
      max_abs_seqno = abs;
      reassembler = insert (sub64 abs 1) m.payload m.fin t.reassembler;
    }

unfoldable pub receive : SenderMessage → TcpReceiver → TcpReceiver
receive m t =
    if m.rst
    then record t { has_rst = true; reassembler = fail t.reassembler }
    else if m.syn
    then receive_syn m t
    else receive_rest m t

-- `-1` as a uint16_t.
abbrev pub max_win_size : ℕ
max_win_size = 65535

unfoldable pub ackno : TcpReceiver → Option Wrap32
ackno t =
    if t.is_init
    then some (
        wrap
          (if bytes_pending t.reassembler == 0
            then add64 (add64 t.reassembler.next 1) (bit t.has_fin)
            else add64 t.reassembler.next 1)
          t.isn)
    else none

unfoldable pub send : TcpReceiver → ReceiverMessage
send t = record {
  ackno = ackno t;
  window_size =
      if ltb max_win_size (avail_cap t.reassembler) then max_win_size else avail_cap t.reassembler;
  rst = t.has_rst || has_error t.reassembler.output;
}
