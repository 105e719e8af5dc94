-- ===== src/TcpPeer/Sends.antt =====
-- util/tcp_peer.hh: what `push` transmits is what its sender transmits.
use cs144_2024_winter.Base.{◌≡◌, refl, ap, List, [], ◌∷◌, map, false}
use cs144_2024_winter.TcpMessage.{SenderMessage}
use cs144_2024_winter.TcpReceiver
use cs144_2024_winter.TcpSender.{TcpSender, PushResult}
use cs144_2024_winter.TcpSender
use cs144_2024_winter.TcpPeer.{TcpPeer, TcpMessage, done, push, send_all}

-- The parts of messages that a sender wrote.
abbrev pub sender_parts : List TcpMessage → List SenderMessage
sender_parts ms = map (λ m. m.sender) ms

sender_parts-map :
    (p : TcpPeer) (ms : List SenderMessage)
    → sender_parts (map (λ x. record { sender = x; receiver = TcpReceiver.send p.receiver }) ms)
      ≡ ms
sender_parts-map p [] = refl
sender_parts-map p (m ∷ ms) = ap (λ t. m ∷ t) (sender_parts-map p ms)

pub push_lem :
    (p : TcpPeer) (s : TcpSender) (ms : List SenderMessage)
    → TcpSender.push p.sender ≡ PushResult.done s ms
    → (q : TcpPeer) × (sent : List TcpMessage) × (push p ≡ done q sent)
      × (sender_parts sent ≡ ms)
      × (q.sender ≡ s)
      × (q.receiver ≡ p.receiver)
unfolding push send_all
push_lem p s [] e = (record p { sender = s }, [], rw (push, e) refl, refl, refl, refl)
push_lem p s (m ∷ ms) e = (
  record p { sender = s; need_send = false },
  map (λ x. record { sender = x; receiver = TcpReceiver.send p.receiver }) (m ∷ ms),
  rw (push, e) refl,
  sender_parts-map p (m ∷ ms),
  refl,
  refl,
)
