-- ===== src/TcpReceiver/Reset.antt =====
-- src/tcp_receiver.cc: the RST flag over a history of segments.
use cs144_2024_winter.Base.{◌≡◌, true, List, [], ◌∷◌, arith}
use cs144_2024_winter.ByteStream.{set_error, has_error}
use cs144_2024_winter.Reassembler.Errors.{error-insert}
use cs144_2024_winter.TcpMessage.{SenderMessage}
use cs144_2024_winter.TcpReceiver.{TcpReceiver, receive, send, receive_syn, receive_rest, fail}

-- The segments of a history, oldest first.
pub receive_all : List SenderMessage → TcpReceiver → TcpReceiver
receive_all [] t = t
receive_all (m ∷ ms) t = receive_all ms (receive m t)

-- A segment with the RST flag marks the stream, and no segment clears the mark.
receive_rst :
    (m : SenderMessage) (t : TcpReceiver)
    → m.rst ≡ true
    → (receive m t).reassembler.output.error ≡ true
unfolding receive fail set_error
receive_rst m t h = ground arith

receive_keeps :
    (m : SenderMessage) (t : TcpReceiver)
    → t.reassembler.output.error ≡ true
    → (receive m t).reassembler.output.error ≡ true
unfolding receive fail set_error receive_syn receive_rest
receive_keeps m t h = grind (arith, error-insert)

receive_all_keeps :
    (ms : List SenderMessage) (t : TcpReceiver)
    → t.reassembler.output.error ≡ true
    → (receive_all ms t).reassembler.output.error ≡ true
unfolding receive_all
receive_all_keeps [] t h = h
receive_all_keeps (m ∷ ms) t h = receive_all_keeps ms (receive m t) (receive_keeps m t h)

-- After a segment with the RST flag every answer carries it, whatever comes later, a new SYN included.
pub rst_sticks :
    (m : SenderMessage) (ms : List SenderMessage) (t : TcpReceiver)
    → m.rst ≡ true
    → (send (receive_all ms (receive m t))).rst ≡ true
unfolding send has_error
rst_sticks m ms t h = ground (arith, receive_all_keeps ms (receive m t) (receive_rst m t h))
