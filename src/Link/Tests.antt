-- ===== src/Link/Tests.antt =====
-- A run of both ends in which the SYN and two bytes arrive, each acknowledged, and are read.
use cs144_2024_winter.Base.{
  ℕ, ◌+◌, ◌≡◌, refl, false, List, [], ◌∷◌, ◌++◌, true, take, replace, add64, sub64,
}
use cs144_2024_winter.WrappingIntegers.{Wrap32, wrap, unwrap}
use cs144_2024_winter.WrappingIntegers
use cs144_2024_winter.ByteStream.{
  peek, byte_stream, available_capacity, bytes_buffered, is_finished, has_error,
}
use cs144_2024_winter.ByteStream
use cs144_2024_winter.ByteStream.Read.{read, read_loop}
use cs144_2024_winter.Reassembler.{reassembler}
use cs144_2024_winter.Reassembler
use cs144_2024_winter.Reassembler.Order.{read_out}
use cs144_2024_winter.TcpMessage.{SenderMessage, sequence_length}
use cs144_2024_winter.TcpSender.RetxTimer
use cs144_2024_winter.TcpSender.{TcpSender, PushResult, tcp_sender}
use cs144_2024_winter.TcpSender
use cs144_2024_winter.TcpReceiver.{tcp_receiver}
use cs144_2024_winter.TcpReceiver
use cs144_2024_winter.Link.{Link, fresh, write}

abbrev isn : Wrap32
isn = record { raw_value = 137 }

abbrev stream : ℕ → ℕ
stream i = 100 + i

abbrev nothing : Link
nothing = fresh 4 4 isn 1000

abbrev one : Link
one = write stream 2 nothing

-- What `push` makes of the sender, and transmits.
abbrev pushed : Link → TcpSender × List SenderMessage
pushed k = elim (TcpSender.push k.sender) [
  | PushResult.done s ms ↦ (s, ms)
  | PushResult.threw ↦ (k.sender, [])
  | PushResult.out_of_fuel ↦ (k.sender, [])
]

abbrev after_push : Link → Link
after_push k = record k { sender = (pushed k).0; segments = (pushed k).1 ++ k.segments }

-- The newest segment arrives, and is acknowledged, and the acknowledgement arrives.
abbrev exchange : SenderMessage → Link → Link
exchange m k =
    let t = TcpReceiver.receive m k.receiver in
    record k {
      receiver = t;
      acks = TcpReceiver.send t ∷ k.acks;
      sender = TcpSender.receive (TcpReceiver.send t) k.sender;
    }

abbrev syn : SenderMessage
syn = record { seqno = isn; syn = true; payload = []; fin = false; rst = false }

abbrev two_bytes : SenderMessage
two_bytes = record {
  seqno = record { raw_value = 138 };
  syn = false;
  payload = 100 ∷ 101 ∷ [];
  fin = false;
  rst = false;
}

abbrev opened : Link
opened = exchange syn (after_push one)

abbrev sent : Link
sent = exchange two_bytes (after_push opened)

-- One of the two bytes is read.
abbrev received : Link
received = record sent {
  receiver = record (sent.receiver) { reassembler = read_out 1 sent.receiver.reassembler };
  out = [] ++ take 1 (peek sent.receiver.reassembler.output);
}

first_read : received.out ≡ 100 ∷ []
unfolding fresh tcp_sender tcp_receiver byte_stream available_capacity sub64 add64 write
    ByteStream.push ByteStream.copy_in ByteStream.move_to_head replace TcpSender.push
    TcpSender.push_loop TcpSender.start_loop TcpSender.add_syn TcpSender.add_payload
    TcpSender.add_fin TcpSender.dispatch TcpSender.ost_insert TcpSender.effective_wnd
    TcpSender.receive TcpSender.accept_ack TcpSender.new_ack TcpSender.old_ack
    TcpSender.settle_timer TcpSender.drop_acked RetxTimer.reset RetxTimer.turnoff wrap unwrap
    WrappingIntegers.dis WrappingIntegers.sign_extend read read_loop is_finished has_error
    bytes_buffered sequence_length ByteStream.pop peek reassembler TcpReceiver.receive
    TcpReceiver.receive_syn TcpReceiver.receive_rest TcpReceiver.send TcpReceiver.ackno
    Reassembler.avail_cap Reassembler.note_last Reassembler.write Reassembler.place
    Reassembler.seg_text Reassembler.absorb Reassembler.drain Reassembler.finish Reassembler.insert
    Reassembler.pending_from Reassembler.stored_bytes Reassembler.bytes_pending read_out
first_read = refl
