-- ===== src/TcpPeer/Reply.antt =====
-- util/tcp_peer.hh: replies of an active peer.
use cs144_2024_winter.Base.{
  ◌+◌, ◌-◌, ◌^◌, ◌<◌, ◌≡◌, refl, sym, subst, arith, List, [], ◌∷◌, map, true, false, lt→ltb, length,
}
use cs144_2024_winter.ByteStream.Invariant.{max_size}
use cs144_2024_winter.TcpMessage.{SenderMessage, sequence_length}
use cs144_2024_winter.TcpReceiver
use cs144_2024_winter.TcpSender.{TcpSender, PushResult, make_empty_message}
use cs144_2024_winter.TcpSender.Valid.{IsValid, receive-IsValid, receive-abs_exp_ackno}
use cs144_2024_winter.TcpSender.Push.{push-Pushes}
use cs144_2024_winter.TcpSender
use cs144_2024_winter.TcpPeer.{
  TcpPeer, TcpMessage, PeerResult, done, threw, receive, take_in, push, send_all, reply_due, active,
}

-- What comes out of `receive` once a reply is due and the sender has pushed.
abbrev answer : TcpPeer → PeerResult
answer r = elim (push r) [ done q sent ↦ reply_due q sent | threw ↦ threw ]

abbrev Answered : TcpPeer → TcpSender → Type 0
Answered r s =
    (q : TcpPeer) × (sent : List TcpMessage) × (answer r ≡ done q sent)
    × (0 < length sent)
    × (q.need_send ≡ false)
    × (q.sender ≡ s)
    × (q.receiver ≡ r.receiver)

answered :
    (r : TcpPeer) (s : TcpSender) (ms : List SenderMessage)
    → r.need_send ≡ true
    → TcpSender.push r.sender ≡ PushResult.done s ms
    → Answered r s
unfolding push send_all reply_due
answered r s [] n e = (
  record r { sender = s; need_send = false },
  record { sender = make_empty_message s; receiver = TcpReceiver.send r.receiver } ∷ [],
  rw (answer, push, e, send_all, reply_due, n) refl,
  omega arith,
  refl,
  refl,
  refl,
)
answered r s (m ∷ ms) n e = (
  record r { sender = s; need_send = false },
  map (λ x. record { sender = x; receiver = TcpReceiver.send r.receiver }) (m ∷ ms),
  rw (answer, push, e, send_all, reply_due) refl,
  omega arith,
  refl,
  refl,
  refl,
)

-- An active peer with a valid sender, whose numbers are far from 2 ^ 63, does not throw on a message
-- that takes up sequence numbers. It transmits at least one message, leaves no reply due, keeps the
-- sender valid, and hands the message's part for the receiver to it.
pub receive_replies :
    (msg : TcpMessage) (p : TcpPeer)
    → active p ≡ true
    → IsValid p.sender
    → p.sender.abs_exp_ackno + (p.sender.input.end - p.sender.input.begin) + 2 ^ 16 < max_size
    → msg.receiver.window_size < 2 ^ 16
    → 0 < sequence_length msg.sender
    → (q : TcpPeer) × (sent : List TcpMessage) × (receive msg p ≡ done q sent)
      × (0 < length sent)
      × (q.need_send ≡ false)
      × IsValid q.sender
      × (q.receiver ≡ TcpReceiver.receive msg.sender p.receiver)
unfolding receive take_in
receive_replies msg p a v room window asks =
    let kept = receive-abs_exp_ackno msg.receiver p.sender in
    let (s, ms, pushes) =
      push-Pushes (TcpSender.receive msg.receiver p.sender) (receive-IsValid msg.receiver v window)
        (omega (arith, kept)) in
    let r = take_in msg p in
    let due : r.need_send ≡ true = ground (arith, lt→ltb 0 (sequence_length msg.sender) asks) in
    let (q, sent, e, some_, clear, sender, receiver) = answered r s ms due pushes.result in
    (q, sent, rw (receive, a) e, some_, clear, subst IsValid (sym sender) pushes.valid, receiver)
