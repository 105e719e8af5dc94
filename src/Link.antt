-- ===== src/Link.antt =====
-- A sender of src/tcp_sender.cc and a receiver of src/tcp_receiver.cc with a network between them that
-- loses, repeats and reorders what they transmit. The sender's stream is not closed.
pub mod Sent
pub mod Pushed
pub mod Inv
pub mod SenderSteps
pub mod ReceiverSteps
pub mod Steps
pub mod Delivery
mod Tests
use cs144_2024_winter.Base.{
  ℕ, get_elem?, some, ◌+◌, ◌-◌, ◌≤◌, ◌<◌, ◌≡◌, ◌^◌, true, List, [], ◌∷◌, ◌++◌, Bytes, take,
}
use cs144_2024_winter.WrappingIntegers.{Wrap32}
use cs144_2024_winter.ByteStream.{byte_stream, available_capacity, peek}
use cs144_2024_winter.ByteStream
use cs144_2024_winter.Reassembler.{reassembler}
use cs144_2024_winter.Reassembler.Order.{read_out}
use cs144_2024_winter.Reassembler.Slice.{slice}
use cs144_2024_winter.TcpMessage.{SenderMessage, ReceiverMessage}
use cs144_2024_winter.TcpReceiver.{TcpReceiver, tcp_receiver}
use cs144_2024_winter.TcpReceiver
use cs144_2024_winter.TcpSender.{TcpSender, PushResult, tcp_sender}
use cs144_2024_winter.TcpSender

-- Both ends, what each has transmitted so far, how many bytes were written, and the bytes read.
pub record Link : Type 0 where
  pub sender : TcpSender
  pub receiver : TcpReceiver
  pub segments : List SenderMessage
  pub acks : List ReceiverMessage
  pub written : ℕ
  pub out : Bytes

-- Before anything happens.
pub fresh : ℕ → ℕ → Wrap32 → ℕ → Link
fresh send_capacity recv_capacity isn rto = record {
  sender = tcp_sender (byte_stream send_capacity) isn rto;
  receiver = tcp_receiver (reassembler (byte_stream recv_capacity));
  segments = [];
  acks = [];
  written = 0;
  out = [];
}

module _ (stream : ℕ → ℕ) where
  -- The next `n` bytes of the stream are written.
  pub write : ℕ → Link → Link
  write n k = record k {
    sender = record (k.sender) {
      input = ByteStream.push (slice stream k.written n) k.sender.input;
    };
    written = k.written + n;
  }

  -- What can happen. A segment or an acknowledgement that was transmitted may arrive at any time, and
  -- more than once. The receiver's end acknowledges once it has seen the SYN.
  pub data Step : Link → Link → Type 0 where
    writes : (n : ℕ) {k : Link} → n ≤ available_capacity k.sender.input → Step k (write n k)
    pushes :
        {k : Link} (s : TcpSender) (ms : List SenderMessage)
        → TcpSender.push k.sender ≡ PushResult.done s ms
        → Step k (record k { sender = s; segments = ms ++ k.segments })
    ticks :
        (ms : ℕ) {k : Link}
        → Step k (record k {
          sender = (TcpSender.tick ms k.sender).0;
          segments = (TcpSender.tick ms k.sender).1 ++ k.segments;
        })
    delivers :
        (i : ℕ) (m : SenderMessage) {k : Link}
        → get_elem? k.segments i ≡ some m
        → Step k (record k { receiver = TcpReceiver.receive m k.receiver })
    answers :
        {k : Link}
        → k.receiver.is_init ≡ true
        → Step k (record k { acks = TcpReceiver.send k.receiver ∷ k.acks })
    hears :
        (i : ℕ) (a : ReceiverMessage) {k : Link}
        → get_elem? k.acks i ≡ some a
        → Step k (record k { sender = TcpSender.receive a k.sender })
    reads :
        (n : ℕ) {k : Link}
        → n ≤ k.receiver.reassembler.output.end - k.receiver.reassembler.output.begin
        → Step k (record k {
          receiver = record (k.receiver) { reassembler = read_out n k.receiver.reassembler };
          out = k.out ++ take n (peek k.receiver.reassembler.output);
        })
