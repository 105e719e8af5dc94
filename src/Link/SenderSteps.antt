-- ===== src/Link/SenderSteps.antt =====
-- The steps of the sender's end keep what holds of it.
use cs144_2024_winter.Base.{
  ℕ, ◌+◌, ◌-◌, ◌^◌, ◌≤◌, ◌<◌, ◌≡◌, ◌⊎◌, inl, inr, sym, ap, ◌∙◌, subst, true, List, ◌++◌, arith,
  length, take_all, leb_cases,
}
use cs144_2024_winter.WrappingIntegers.{Wrap32, wrap, unwrap}
use cs144_2024_winter.WrappingIntegers
use cs144_2024_winter.WrappingIntegers.RoundTrip.{unwrap-wrap}
use cs144_2024_winter.ByteStream.{ByteStream, available_capacity}
use cs144_2024_winter.ByteStream
use cs144_2024_winter.ByteStream.Invariant.{
  contents, room, available_capacity-room, push-Pushed_open, Pushed, length-contents,
}
use cs144_2024_winter.Reassembler.Slice.{slice, length-slice, slice_join}
use cs144_2024_winter.TcpMessage.{SenderMessage, ReceiverMessage}
use cs144_2024_winter.TcpSender.Sequences.{Consecutive}
use cs144_2024_winter.TcpSender.Keeps.{Acked, tick-Ticked, receive-Acked}
use cs144_2024_winter.TcpSender.Push.{Pushes, push-Pushes}
use cs144_2024_winter.TcpSender.Valid.{receive-IsValid, tick-IsValid, with_input-IsValid}
use cs144_2024_winter.TcpSender.{TcpSender, PushResult, effective_wnd}
use cs144_2024_winter.TcpSender
use cs144_2024_winter.Link.Sent.{
  Bounds, Later, AllSent, AllQueued, AllQueued-append, AllQueued-numbered, AllQueued-drop_acked,
  AllQueued-Later,
}
use cs144_2024_winter.Link.Pushed.{Sending, all_sent}
use cs144_2024_winter.Link.Inv.{IsAck, SenderInv}

module _ (stream : ℕ → ℕ) (isn : Wrap32) where
  pub write-SenderInv :
      (n : ℕ) {b c : Bounds} {s : TcpSender}
      → SenderInv stream isn b s
      → Later b c
      → c.written ≡ b.written + n
      → n ≤ available_capacity s.input
      → SenderInv stream isn c
          (record s { input = ByteStream.push (slice stream b.written n) s.input })
  write-SenderInv n {b} {c} {s} v l e fits =
      let new = slice stream b.written n in
      let i = v.valid.sound.input in
      let size = length-slice stream b.written n in
      let width = available_capacity-room i in
      let p = push-Pushed_open new i (omega (arith, size, width, fits, i.small)) v.open_ in
      let whole = take_all (room s.input) new (omega (arith, size, width, fits)) in
      let q = subst (λ t. Pushed t s.input (ByteStream.push new s.input)) whole p in
      record {
        valid = with_input-IsValid (ByteStream.push new s.input) q.valid v.valid;
        zero_point = v.zero_point;
        open_ = q.closed ∙ v.open_;
        fine = q.error ∙ v.fine;
        left =
            q.bytes
            ∙ ap (λ t. t ++ new) v.left
            ∙ slice_join stream (s.abs_exp_ackno - 1) b.written n v.known
            ∙ ap (λ w. slice stream (s.abs_exp_ackno - 1) (w - (s.abs_exp_ackno - 1))) (sym e);
        known = omega (arith, e, v.known);
        queued = AllQueued-Later stream isn s.ost_segs l v.queued;
        room = omega (arith, v.room, l.edge);
        covered = omega (arith, v.covered, l.next);
        begun = elim v.begun [ inl w ↦ inl w | inr h ↦ inr (l.is_init h) ];
      }

  -- What the loop of `push` is bounded by.
  limits :
      {b : Bounds} {s : TcpSender}
      → SenderInv stream isn b s
      → let limit = s.abs_last_ackno + effective_wnd s in
        ((limit ≤ 1 + b.edge) ⊎ ((limit ≡ s.abs_last_ackno + 1) × (s.abs_last_ackno ≤ b.next + 1)))
        × ((limit ≤ 1) ⊎ (b.is_init ≡ true))
  unfolding effective_wnd
  limits {b} {s} v = elim (leb_cases 1 s.wnd_size) [
    | inl (some_, _) ↦
        let e : effective_wnd s ≡ s.wnd_size = ground (arith, some_) in
        (
          inl (omega (arith, e, v.room)),
          elim v.begun [ inl w ↦ inl (omega (arith, e, w.0, w.1)) | inr i ↦ inr i ],
        )
    | inr (none_, _) ↦
        let e : effective_wnd s ≡ 1 = ground (arith, none_) in
        (
          inr (omega (arith, e), v.covered),
          elim v.begun [ inl w ↦ inl (omega (arith, e, w.0)) | inr i ↦ inr i ],
        )
  ]

  Pushes-SenderInv :
      {b : Bounds} {s t : TcpSender} (ms : List SenderMessage)
      → SenderInv stream isn b s
      → Pushes s t ms
      → b.written < 2 ^ 30
      → SenderInv stream isn b t × AllSent stream isn b ms
  Pushes-SenderInv {b} {s} {t} ms v p h =
      let (room_, begun) = limits v in
      let limit = s.abs_last_ackno + effective_wnd s in
      let start : Sending stream isn b s.input s.abs_last_ackno limit t.abs_exp_ackno
          (contents t.input) v.open_ v.fine room_ begun s.abs_exp_ackno ms =
        record {
          numbers =
              subst (λ z. Consecutive z s.abs_exp_ackno t.abs_exp_ackno ms) v.zero_point p.numbers;
          plain = p.plain;
          bytes = p.bytes ∙ v.left;
          known = v.known;
          above = v.valid.sound.ordered;
          below = p.window;
        } in
      let (sent, rest, known) =
        all_sent stream isn b s.input s.abs_last_ackno limit t.abs_exp_ackno (contents t.input)
          v.open_ v.fine room_ begun s.abs_exp_ackno ms start in
      (
        record {
          valid = p.valid;
          zero_point = p.zero_point ∙ v.zero_point;
          open_ = p.closed ∙ v.open_;
          fine = p.error ∙ v.fine;
          left = rest;
          known = known;
          queued = subst (AllQueued stream isn b) (sym p.queued) (
              AllQueued-append stream isn b s.ost_segs _ v.queued
                (AllQueued-numbered stream isn b s.abs_exp_ackno ms sent));
          room = omega (arith, p.same_ack, p.same_wnd, v.room);
          covered = omega (arith, p.same_ack, v.covered);
          begun = elim v.begun [
            | inl w ↦ inl (p.same_ack ∙ w.0, omega (arith, p.same_wnd, w.1))
            | inr i ↦ inr i
          ];
        },
        sent,
      )

  pub push-SenderInv :
      {b : Bounds} {s t : TcpSender} (ms : List SenderMessage)
      → SenderInv stream isn b s
      → TcpSender.push s ≡ PushResult.done t ms
      → b.written < 2 ^ 30
      → SenderInv stream isn b t × AllSent stream isn b ms
  push-SenderInv {b} {s} {t} ms v e h =
      let i = v.valid.sound.input in
      let width : s.input.end - s.input.begin ≡ b.written - (s.abs_exp_ackno - 1) =
        sym (length-contents i)
        ∙ ap length v.left
        ∙ length-slice stream (s.abs_exp_ackno - 1) (b.written - (s.abs_exp_ackno - 1)) in
      let (u, ns, p) = push-Pushes s v.valid (omega (arith, width, h, v.known)) in
      let same : PushResult.done t ms ≡ PushResult.done u ns = sym e ∙ p.result in
      let one : u ≡ t = cc in
      let two : ns ≡ ms = cc in
      Pushes-SenderInv ms v (subst (λ x. Pushes s x ms) one (subst (λ x. Pushes s u x) two p)) h

  pub tick-SenderInv :
      (ms : ℕ) {b : Bounds} {s : TcpSender}
      → SenderInv stream isn b s
      → SenderInv stream isn b (TcpSender.tick ms s).0
        × AllSent stream isn b (TcpSender.tick ms s).1
  tick-SenderInv ms {b} {s} v =
      let k = tick-Ticked ms s in
      (
        record {
          valid = tick-IsValid ms v.valid;
          zero_point = k.same.zero_point ∙ v.zero_point;
          open_ = rw k.same.input v.open_;
          fine = rw k.same.input v.fine;
          left = rw (k.same.input, k.same.next) v.left;
          known = rw k.same.next v.known;
          queued = rw k.queued v.queued;
          room = rw (k.last, k.wnd) v.room;
          covered = rw k.last v.covered;
          begun = rw (k.last, k.wnd) v.begun;
        },
        elim k.transmitted [
          | inl none_ ↦ rw none_ tt
          | inr (j, m, rest, e, one) ↦ rw one ((subst (AllQueued stream isn b) e v.queued).0, tt)
        ],
      )

  pub receive-SenderInv :
      (a : ReceiverMessage) (number : ℕ) {b : Bounds} {s : TcpSender}
      → SenderInv stream isn b s
      → IsAck stream isn b number a
      → WrappingIntegers.IsValid isn
      → b.next ≤ b.written
      → b.next ≤ b.edge
      → b.written < 2 ^ 30
      → b.edge < 2 ^ 63 + 2 ^ 30
      → SenderInv stream isn b (TcpSender.receive a s)
  receive-SenderInv a number {b} {s} v i valid upto inside h small =
      let seen : unwrap (wrap number isn) s.isn s.abs_last_ackno ≡ number =
        ap (λ z. unwrap (wrap number isn) z s.abs_last_ackno) v.zero_point
        ∙ unwrap-wrap number s.abs_last_ackno isn valid (omega (arith, i.covered, upto, h))
            (omega (arith, i.covered, upto, h)) (omega (arith, v.covered, upto, h)) in
      let k : Acked number a.window_size s (TcpSender.receive a s) =
        subst (λ n. Acked n a.window_size s (TcpSender.receive a s)) seen
          (receive-Acked a (wrap number isn) s i.fine i.ackno
            (omega (arith, seen, i.covered, upto, h)) (omega (arith, i.word))
            (omega (arith, v.covered, upto, h))) in
      record {
        valid = receive-IsValid a v.valid i.word;
        zero_point = k.same.zero_point ∙ v.zero_point;
        open_ = rw k.same.input v.open_;
        fine = rw k.same.input v.fine;
        left = rw (k.same.input, k.same.next) v.left;
        known = rw k.same.next v.known;
        queued = elim k.queued [
          | inl e ↦ rw e v.queued
          | inr e ↦ rw e (AllQueued-drop_acked stream isn b number s.ost_segs v.queued)
        ];
        room = omega (arith, k.last, v.room, v.covered, i.room, inside);
        covered = omega (arith, k.last, v.covered, i.covered);
        begun = inr i.begun;
      }
