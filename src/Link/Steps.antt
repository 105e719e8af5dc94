-- ===== src/Link/Steps.antt =====
-- Every step keeps what holds of both ends and of what travels.
use cs144_2024_winter.Base.{
  ℕ, ◌+◌, ◌-◌, ◌^◌, ◌≤◌, ◌<◌, ◌≡◌, refl, sym, ap, ◌∙◌, ◌++◌, arith, take, Bytes,
}
use cs144_2024_winter.WrappingIntegers.{Wrap32}
use cs144_2024_winter.WrappingIntegers
use cs144_2024_winter.ByteStream.{available_capacity, peek}
use cs144_2024_winter.ByteStream.Invariant.{max_size}
use cs144_2024_winter.ByteStream.Refine.{pop-is_closed, pop-error}
use cs144_2024_winter.Reassembler.Slice.{slice}
use cs144_2024_winter.Reassembler.Order.{read_out, read_out-Inv, edge-read_out, read_out-slice}
use cs144_2024_winter.Reassembler.Open.{Inv-le}
use cs144_2024_winter.TcpReceiver.{TcpReceiver, tcp_receiver}
use cs144_2024_winter.TcpReceiver
use cs144_2024_winter.Link.{
  Link, Step, write, writes, pushes, ticks, delivers, answers, hears, reads,
}
use cs144_2024_winter.Link.Sent.{Later, AllSent-Later, AllSent-append, member}
use cs144_2024_winter.Link.Inv.{
  bounds, ReceiverInv, LinkInv, AllAcks-Later, acknowledged, SenderInv-Later,
}
use cs144_2024_winter.Link.SenderSteps.{
  write-SenderInv, push-SenderInv, tick-SenderInv, receive-SenderInv,
}
use cs144_2024_winter.Link.ReceiverSteps.{receive-ReceiverInv, send-IsAck, next_inside}

module _ (stream : ℕ → ℕ) (isn : Wrap32) (valid : WrappingIntegers.IsValid isn) where
  -- More was written.
  wider : (t : TcpReceiver) (w n : ℕ) → Later (bounds t w) (bounds t (w + n))
  wider t w n = record {
    next = omega arith;
    edge = omega arith;
    is_init = λ i. i;
    written = omega arith;
  }

  wider-ReceiverInv :
      (w n : ℕ) {t : TcpReceiver} → ReceiverInv stream isn w t → ReceiverInv stream isn (w + n) t
  wider-ReceiverInv w n {t} v = record {
    inv = Inv-le stream w (w + n) (omega arith) v.goes_on v.inv;
    goes_on = v.goes_on;
    fine = v.fine;
    no_fin = v.no_fin;
    no_rst = v.no_rst;
    zero_point = v.zero_point;
    seen = omega (arith, v.seen);
  }

  write-LinkInv :
      (n : ℕ) {k : Link}
      → LinkInv stream isn k
      → n ≤ available_capacity k.sender.input
      → LinkInv stream isn (write stream n k)
  unfolding write
  write-LinkInv n {k} v fits =
      let l = wider k.receiver k.written n in
      record {
        sender = write-SenderInv stream isn n v.sender l refl fits;
        receiver = wider-ReceiverInv k.written n v.receiver;
        segments = AllSent-Later stream isn k.segments l v.segments;
        acks = AllAcks-Later stream isn k.acks l v.acks;
        out = v.out;
      }

  -- The receiver went on, and its reader took nothing.
  move-LinkInv :
      {k : Link} (u : TcpReceiver) (out : Bytes)
      → LinkInv stream isn k
      → ReceiverInv stream isn k.written u
      → Later (bounds k.receiver k.written) (bounds u k.written)
      → out ≡ slice stream 0 u.reassembler.output.popped_cnt
      → LinkInv stream isn (record k { receiver = u; out = out })
  move-LinkInv {k} u out v w l e = record {
    sender = SenderInv-Later stream isn l refl v.sender;
    receiver = w;
    segments = AllSent-Later stream isn k.segments l v.segments;
    acks = AllAcks-Later stream isn k.acks l v.acks;
    out = e;
  }

  read-ReceiverInv :
      {t : TcpReceiver} {w : ℕ} (small : w < max_size) (n : ℕ)
      → ReceiverInv stream isn w t
      → n ≤ t.reassembler.output.end - t.reassembler.output.begin
      → ReceiverInv stream isn w (record t { reassembler = read_out n t.reassembler })
  unfolding read_out
  read-ReceiverInv {t} {w} small n v fits = record {
    inv = read_out-Inv stream w small n v.inv fits;
    goes_on = (v.goes_on.0, pop-is_closed n t.reassembler.output ∙ v.goes_on.1);
    fine = pop-error n t.reassembler.output ∙ v.fine;
    no_fin = v.no_fin;
    no_rst = v.no_rst;
    zero_point = v.zero_point;
    seen = v.seen;
  }

  pub Step-LinkInv :
      {k l : Link}
      → Step stream k l
      → k.written < 2 ^ 30
      → LinkInv stream isn k
      → LinkInv stream isn l
  unfolding read_out
  Step-LinkInv (writes n fits) h v = write-LinkInv n v fits
  Step-LinkInv (pushes {k} s ms e) h v =
      let (t, sent) = push-SenderInv stream isn ms v.sender e h in
      record {
        sender = t;
        receiver = v.receiver;
        segments = AllSent-append stream isn _ ms k.segments sent v.segments;
        acks = v.acks;
        out = v.out;
      }
  Step-LinkInv (ticks ms {k}) h v =
      let (t, sent) = tick-SenderInv stream isn ms v.sender in
      record {
        sender = t;
        receiver = v.receiver;
        segments = AllSent-append stream isn _ _ k.segments sent v.segments;
        acks = v.acks;
        out = v.out;
      }
  Step-LinkInv (delivers i m {k} e) h v =
      let (number, s) =
        member stream isn (bounds k.receiver k.written) i m k.segments e v.segments in
      let (w, l, popped) = receive-ReceiverInv stream isn k.written h number m v.receiver valid s in
      move-LinkInv (TcpReceiver.receive m k.receiver) k.out v w l
        (v.out ∙ ap (slice stream 0) (sym popped))
  Step-LinkInv (answers {k} init) h v = record {
    sender = v.sender;
    receiver = v.receiver;
    segments = v.segments;
    acks = (
      (k.receiver.reassembler.next + 1, send-IsAck stream isn k.written h v.receiver init),
      v.acks,
    );
    out = v.out;
  }
  Step-LinkInv (hears i a {k} e) h v =
      let (number, s) = acknowledged stream isn (bounds k.receiver k.written) i a k.acks e v.acks in
      let (upto, inside, small) = next_inside stream isn k.written h v.receiver in
      record {
        sender = receive-SenderInv stream isn a number v.sender s valid upto inside h small;
        receiver = v.receiver;
        segments = v.segments;
        acks = v.acks;
        out = v.out;
      }
  Step-LinkInv (reads n {k} fits) h v =
      let r = k.receiver.reassembler in
      let small : k.written < max_size = omega (arith, h) in
      let u : TcpReceiver = record (k.receiver) { reassembler = read_out n r } in
      move-LinkInv u (k.out ++ take n (peek r.output)) v (read-ReceiverInv small n v.receiver fits)
        (record {
          next = omega arith;
          edge = omega (arith, edge-read_out stream k.written small n v.receiver.inv fits);
          is_init = λ i. i;
          written = omega arith;
        })
        (read_out-slice stream k.written small n v.receiver.inv fits v.out)
