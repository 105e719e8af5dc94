-- ===== src/TcpReceiver/Acks.antt =====
-- src/tcp_receiver.cc: what is inserted for a segment, and the acknowledgement and window of `send`.
use cs144_2024_winter.Base.{
  ℕ, ◌+◌, ◌-◌, ◌^◌, ◌≤◌, ◌<◌, min, ◌≡◌, refl, ap, sym, subst, ◌∙◌, false, none, arith, sub64,
  sub64_small,
}
use cs144_2024_winter.ByteStream.Invariant.{max_size}
use cs144_2024_winter.WrappingIntegers.{IsValid, wrap, unwrap}
use cs144_2024_winter.WrappingIntegers.RoundTrip.{unwrap-wrap}
use cs144_2024_winter.TcpMessage.{SenderMessage}
use cs144_2024_winter.Reassembler.{Reassembler, insert}
use cs144_2024_winter.Reassembler.Inv.{Inv, edge, avail_cap-room}
use cs144_2024_winter.Reassembler.Insert.{insert-Inv}
use cs144_2024_winter.Reassembler.Place.{IsPart, Fits}
use cs144_2024_winter.TcpReceiver.{TcpReceiver, receive, send, receive_rest, ackno}

receive_rest_lem :
    (m : SenderMessage) (t : TcpReceiver)
    → m.rst ≡ false
    → m.syn ≡ false
    → receive m t ≡ receive_rest m t
unfolding receive
receive_rest_lem m t r s = ground (arith, r, s)

reassembler-receive_rest :
    (m : SenderMessage) (t : TcpReceiver)
    → (receive_rest m t).reassembler
      ≡ insert (sub64 (unwrap m.seqno t.isn t.max_abs_seqno) 1) m.payload m.fin t.reassembler
unfolding receive_rest
reassembler-receive_rest m t = refl

max_abs_seqno-receive_rest :
    (m : SenderMessage) (t : TcpReceiver)
    → (receive_rest m t).max_abs_seqno ≡ unwrap m.seqno t.isn t.max_abs_seqno
unfolding receive_rest
max_abs_seqno-receive_rest m t = refl

-- Nothing is acknowledged before a SYN.
pub ackno-none : (t : TcpReceiver) → t.is_init ≡ false → (send t).ackno ≡ none
unfolding send ackno
ackno-none t h = ground (arith, h)

module _ (stream : ℕ → ℕ) (total : ℕ) (small : total < max_size) where
  pub receive_part :
      (i : ℕ) (m : SenderMessage) (t : TcpReceiver)
      → Inv stream total t.reassembler
      → IsValid t.isn
      → m.rst ≡ false
      → m.syn ≡ false
      → m.seqno ≡ wrap (i + 1) t.isn
      → IsPart stream total small i m.payload m.fin
      → Fits stream total small t.reassembler i m.payload
      → i + 1 < max_size
      → i ≤ t.max_abs_seqno + (2 ^ 31 - 2)
      → t.max_abs_seqno ≤ i + 2 ^ 31
      → let u = receive m t in
        Inv stream total u.reassembler
        × (u.max_abs_seqno ≡ i + 1)
        × (u.reassembler ≡ insert i m.payload m.fin t.reassembler)
  receive_part i m t v valid rst syn seq p fits bound above below =
      let seen : unwrap m.seqno t.isn t.max_abs_seqno ≡ i + 1 =
        ap (λ w. unwrap w t.isn t.max_abs_seqno) seq
        ∙ unwrap-wrap (i + 1) t.max_abs_seqno t.isn valid (omega arith) (omega arith)
            (omega arith) in
      let index : sub64 (unwrap m.seqno t.isn t.max_abs_seqno) 1 ≡ i =
        ap (λ a. sub64 a 1) seen ∙ omega (arith, sub64_small (i + 1) 1) in
      let put : (receive_rest m t).reassembler ≡ insert i m.payload m.fin t.reassembler =
        reassembler-receive_rest m t ∙ ap (λ k. insert k m.payload m.fin t.reassembler) index in
      rw (receive_rest_lem m t rst syn) (
        subst (λ r. Inv stream total r) (sym put)
            (insert-Inv stream total small i m.payload m.fin v p fits),
        max_abs_seqno-receive_rest m t ∙ seen,
        put,
      )

  -- The window is the free room of the output, as far as 16 bits go.
  pub send_window :
      (t : TcpReceiver)
      → Inv stream total t.reassembler
      → (send t).window_size ≡ min 65535 (edge t.reassembler - t.reassembler.next)
  unfolding send
  send_window t v = ground (arith, avail_cap-room stream total v.core)
