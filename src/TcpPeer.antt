-- ===== src/TcpPeer.antt =====
-- util/tcp_peer.hh: a sender and a receiver that make up one end of a connection.
pub mod Reply
pub mod Sends
mod Tests
use cs144_2024_winter.Base.{
  ℕ, ◌+◌, ◌*◌, List, [], ◌∷◌, ◌++◌, map, Bool, true, false, not, ◌&&◌, ◌||◌, Option, none, some,
  ltb, ◌==◌, if◌then◌else◌, add64,
}
use cs144_2024_winter.WrappingIntegers.{Wrap32, plus, eq}
use cs144_2024_winter.ByteStream.{byte_stream, has_error, is_finished}
use cs144_2024_winter.Reassembler.{reassembler}
use cs144_2024_winter.TcpMessage.{SenderMessage, ReceiverMessage, sequence_length}
use cs144_2024_winter.TcpReceiver.{TcpReceiver, tcp_receiver}
use cs144_2024_winter.TcpReceiver
use cs144_2024_winter.TcpSender.{
  TcpSender, PushResult, tcp_sender, sequence_numbers_in_flight, make_empty_message,
}
use cs144_2024_winter.TcpSender

-- What travels between two peers.
pub record TcpMessage : Type 0 where
  pub sender : SenderMessage
  pub receiver : ReceiverMessage

-- The configuration is only read for `rt_timeout` once the peer is built.
pub record TcpPeer : Type 0 where
  pub rt_timeout : ℕ
  pub sender : TcpSender
  pub receiver : TcpReceiver
  pub need_send : Bool
  pub linger_after_streams_finish : Bool
  pub cumulative_time : ℕ
  pub time_of_last_receipt : ℕ

unfoldable pub tcp_peer : ℕ → ℕ → ℕ → Wrap32 → TcpPeer
tcp_peer rt_timeout recv_capacity send_capacity isn = record {
  rt_timeout = rt_timeout;
  sender = tcp_sender (byte_stream send_capacity) isn rt_timeout;
  receiver = tcp_receiver (reassembler (byte_stream recv_capacity));
  need_send = false;
  linger_after_streams_finish = true;
  cumulative_time = 0;
  time_of_last_receipt = 0;
}

-- The peer after a method, with the messages that it transmitted, or an exception of the sender.
pub data PeerResult : Type 0 where
  done : TcpPeer → List TcpMessage → PeerResult
  threw : PeerResult

-- Several calls of `send`, each of which clears `need_send_`.
pub send_all : List SenderMessage → TcpPeer → PeerResult
send_all [] p = done p []
send_all (m ∷ ms) p =
    done (record p { need_send = false })
      (map (λ x. record { sender = x; receiver = TcpReceiver.send p.receiver }) (m ∷ ms))

pub push : TcpPeer → PeerResult
push p = elim (TcpSender.push p.sender) [
  | PushResult.done s sent ↦ send_all sent (record p { sender = s })
  | _ ↦ threw
]

pub tick : ℕ → TcpPeer → PeerResult
tick t p =
    let (s, sent) = TcpSender.tick t p.sender in
    send_all sent (record p { sender = s; cumulative_time = add64 p.cumulative_time t })

pub has_ackno : TcpPeer → Bool
has_ackno p = elim (TcpReceiver.send p.receiver).ackno [ none ↦ false | some a ↦ true ]

pub active : TcpPeer → Bool
active p =
    not (has_error p.receiver.reassembler.output || has_error p.sender.input)
    && ((not (sequence_numbers_in_flight p.sender == 0) || not (is_finished p.sender.input))
        || (not p.receiver.reassembler.output.is_closed
            || (p.linger_after_streams_finish
                && ltb p.cumulative_time (add64 p.time_of_last_receipt (10 * p.rt_timeout)))))

-- A message that asks for nothing but a reply: its number lies just before the acknowledged one.
pub is_keep_alive : SenderMessage → Option Wrap32 → Bool
is_keep_alive m none = false
is_keep_alive m (some our_ackno) = eq (plus m.seqno 1) our_ackno

-- `receive` up to the push.
pub take_in : TcpMessage → TcpPeer → TcpPeer
take_in msg p = record p {
  time_of_last_receipt = p.cumulative_time;
  need_send =
      p.need_send
      || (ltb 0 (sequence_length msg.sender)
          || is_keep_alive msg.sender (TcpReceiver.send p.receiver).ackno);
  linger_after_streams_finish =
      if p.receiver.reassembler.output.is_closed && not (is_finished p.sender.input)
      then false
      else p.linger_after_streams_finish;
  receiver = TcpReceiver.receive msg.sender p.receiver;
  sender = TcpSender.receive msg.receiver p.sender;
}

-- The end of `receive`: an empty message, if a reply is still due.
pub reply_due : TcpPeer → List TcpMessage → PeerResult
reply_due p sent =
    if p.need_send
    then done (record p { need_send = false })
        (sent
          ++ record { sender = make_empty_message p.sender; receiver = TcpReceiver.send p.receiver }
            ∷ [])
    else done p sent

pub receive : TcpMessage → TcpPeer → PeerResult
receive msg p =
    if active p
    then elim (push (take_in msg p)) [ done q sent ↦ reply_due q sent | threw ↦ threw ]
    else done p []
