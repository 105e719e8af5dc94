-- ===== src/TcpMinnowSocket/Outbound.antt =====
-- util/tcp_minnow_socket_impl.hh: the rule that takes what the owner wrote to the TCPPeer.
use cs144_2024_winter.Base.{ℕ, ◌≤◌, ◌≡◌, ◌++◌, ◌||◌, ◌==◌, Bool, Bytes, length, take}
use cs144_2024_winter.ByteStream.{ByteStream, available_capacity}
use cs144_2024_winter.ByteStream
use cs144_2024_winter.ByteStream.Invariant.{contents, length-contents}
use cs144_2024_winter.ByteStream.Invariant
use cs144_2024_winter.TcpSender.Valid.{IsValid}
use cs144_2024_winter.TcpPeer.{TcpPeer}
use cs144_2024_winter.FileDescriptor.{SysAnswer, Attempt}
use cs144_2024_winter.FileDescriptor
use cs144_2024_winter.TcpMinnowSocket.{
  State, OperatingSystem, thread_data, outbound, set_descriptor, set_outbound,
}

-- The owner's bytes `text` went to the outbound stream, which is closed if `over`.
record Taken (text : Bytes) (over : Bool) (s t : State) : Type 0 where
  sender : IsValid t.world.tcp.sender
  bytes : contents (outbound t) ≡ contents (outbound s) ++ text
  capacity : (outbound t).capacity ≡ (outbound s).capacity
  closed : (outbound t).is_closed ≡ over
  shut : t.world.outbound_shutdown ≡ (over || s.world.outbound_shutdown)
  receiver : t.world.tcp.receiver ≡ s.world.tcp.receiver
  next : t.world.tcp.sender.abs_exp_ackno ≡ s.world.tcp.sender.abs_exp_ackno

-- Whether the owner's socket is at its end after a read of `n` bytes.
abbrev pub at_end : ℕ → State → Bool
at_end n s = (s.descriptors thread_data).eof || (n == 0)

-- The state after the bytes were pushed.
abbrev pushed_state : ℕ → Bytes → State → State
pushed_state n buffer s = set_outbound (ByteStream.push (take n buffer) (outbound s)) (
    set_descriptor thread_data
      (record (FileDescriptor.register_read (s.descriptors thread_data)) { eof = at_end n s }) s)

-- What the operating system's answer to the rule's `read` must be: `n` bytes in a buffer of the size
-- that was asked for.
pub record Answers (os : OperatingSystem) (s : State) (n : ℕ) (buffer : Bytes) : Type 0 where
  pub answer : os.read_thread (available_capacity (outbound s)) s ≡ (SysAnswer.returned n, buffer)
  pub size : length buffer ≡ available_capacity (outbound s)
  pub fits : n ≤ length buffer
