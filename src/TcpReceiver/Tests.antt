-- ===== src/TcpReceiver/Tests.antt =====
-- Runs of src/tcp_receiver.cc on a stream of five bytes, and instances of the theorems on it.
use cs144_2024_winter.Base.{ℕ, ◌<◌, ◌≡◌, refl, arith, [], ◌∷◌, true, false, Bytes}
use cs144_2024_winter.ByteStream.{byte_stream}
use cs144_2024_winter.ByteStream.Invariant.{max_size}
use cs144_2024_winter.WrappingIntegers.{Wrap32, wrap}
use cs144_2024_winter.TcpMessage.{SenderMessage}
use cs144_2024_winter.Reassembler.{Reassembler, reassembler, insert}
use cs144_2024_winter.Reassembler.Inv.{Inv}
use cs144_2024_winter.TcpReceiver.{TcpReceiver, receive, send}
use cs144_2024_winter.TcpReceiver.Reset.{rst_sticks, receive_all}

-- The bytes 0, 1, 2, 3, 4.
abbrev stream : ℕ → ℕ
stream i = i

abbrev small : 5 < max_size
small = omega arith

abbrev whole : Bytes
whole = 0 ∷ 1 ∷ 2 ∷ 3 ∷ 4 ∷ []

abbrev isn : Wrap32
isn = record { raw_value = 4294967294 }

-- A receiver that has seen the SYN, with room for eight bytes.
abbrev empty : Reassembler
empty = reassembler (byte_stream 8)

abbrev listening : TcpReceiver
listening = record {
  reassembler = empty;
  isn = isn;
  max_abs_seqno = 0;
  is_init = true;
  has_fin = false;
  has_rst = false;
}

abbrev filled : TcpReceiver
filled = record listening { has_fin = true; reassembler = insert 0 whole true empty }

-- All of the stream, and the FIN.
abbrev everything : SenderMessage
everything = record { seqno = wrap 1 isn; syn = false; payload = whole; fin = true; rst = false }

abbrev reset_ : SenderMessage
reset_ = record everything { payload = []; fin = false; rst = true }

rst_sticks_example : (send (receive_all (everything ∷ []) (receive reset_ listening))).rst ≡ true
rst_sticks_example = rst_sticks reset_ (everything ∷ []) listening refl
