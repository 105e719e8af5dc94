-- ===== src/Link/ReceiverSteps.antt =====
-- The steps of the receiver's end keep what holds of it.
use cs144_2024_winter.Base.{
  ℕ, zero, suc, ne→==, ◌+◌, ◌-◌, ◌^◌, ◌≤◌, ◌<◌, ◌≡◌, inl, inr, refl, sym, ap, ◌∙◌, subst, Bool,
  true, false, some, arith, ◌==◌, add64, add64_small, if◌then◌else◌,
}
use cs144_2024_winter.WrappingIntegers.{Wrap32, wrap}
use cs144_2024_winter.WrappingIntegers
use cs144_2024_winter.WrappingIntegers.RoundTrip.{wrap_zero}
use cs144_2024_winter.ByteStream.{has_error}
use cs144_2024_winter.ByteStream.Invariant.{max_size}
use cs144_2024_winter.Reassembler.{insert, bytes_pending}
use cs144_2024_winter.Reassembler.Inv.{edge, avail_cap-room}
use cs144_2024_winter.Reassembler.Insert.{insert-Inv}
use cs144_2024_winter.Reassembler.Place.{IsPart, Fits}
use cs144_2024_winter.Reassembler.Open.{GoesOn-insert, insert_keeps}
use cs144_2024_winter.Reassembler.Errors.{error-insert}
use cs144_2024_winter.TcpMessage.{SenderMessage}
use cs144_2024_winter.TcpReceiver.{TcpReceiver, receive, receive_syn, receive_rest, send, ackno}
use cs144_2024_winter.TcpReceiver.Acks.{receive_part, send_window}
use cs144_2024_winter.Link.Sent.{Later, IsSent}
use cs144_2024_winter.Link.Inv.{bounds, IsAck, ReceiverInv}

either_number :
    (b : Bool) {x y n : ℕ} (isn : Wrap32)
    → x ≡ n
    → y ≡ n
    → some (wrap (if b then x else y) isn) ≡ some (wrap n isn)
either_number true isn e f = ap (λ k. some (wrap k isn)) e
either_number false isn e f = ap (λ k. some (wrap k isn)) f

module _ (stream : ℕ → ℕ) (isn : Wrap32) (written : ℕ) (h : written < 2 ^ 30) where
  small : written < max_size
  small = omega (arith, h)

  -- What a segment carries is a part of what was written so far, and the receiver has room for it.
  part :
      (t : TcpReceiver) {number : ℕ} {m : SenderMessage}
      → IsSent stream isn (bounds t written) number m
      → IsPart stream written small (number - 1) m.payload false
        × Fits stream written small t.reassembler (number - 1) m.payload
  part t s = (record { text = s.text; within = s.within; last = λ e. absurd (cc) }, s.fits)

  -- A receiver with a part inserted.
  record Took (t u : TcpReceiver) (i : ℕ) (m : SenderMessage) : Type 0 where
    reassembler : u.reassembler ≡ insert i m.payload false t.reassembler
    has_fin : u.has_fin ≡ false
    has_rst : u.has_rst ≡ false
    seen : u.max_abs_seqno ≤ written + 1
    zero_point : u.isn ≡ isn
    is_init : u.is_init ≡ true

  syn-Took :
      {t : TcpReceiver} (m : SenderMessage)
      → ReceiverInv stream isn written t
      → WrappingIntegers.IsValid isn
      → IsSent stream isn (bounds t written) 0 m
      → Took t (receive m t) 0 m
  unfolding receive receive_syn
  syn-Took {t} m v valid s =
      let whole : receive m t ≡ receive_syn m t = ground (arith, s.no_rst, s.first) in
      subst (λ u. Took t u 0 m) (sym whole)
        (record {
          reassembler = ap (λ f. insert 0 m.payload f t.reassembler) s.no_fin;
          has_fin = s.no_fin;
          has_rst = s.no_rst;
          seen = omega arith;
          zero_point = s.seq ∙ wrap_zero 0 isn valid refl;
          is_init = refl;
        })

  rest-Took :
      {t : TcpReceiver} (i : ℕ) (m : SenderMessage)
      → ReceiverInv stream isn written t
      → WrappingIntegers.IsValid isn
      → IsSent stream isn (bounds t written) (i + 1) m
      → t.is_init ≡ true
      → Took t (receive m t) i m
  unfolding receive receive_rest
  rest-Took {t} i m v valid s init =
      let zero_ = v.zero_point init in
      let at_ : i + 1 - 1 ≡ i = omega arith in
      let later : m.syn ≡ false = s.first ∙ ne→== (i + 1) 0 (omega arith) in
      let (p, fits) = part t s in
      let (_, seen, put) =
        receive_part stream written small i m t v.inv (rw zero_ valid) s.no_rst later
          (rw zero_ s.seq)
          (rw s.no_fin (subst (λ k. IsPart stream written small k m.payload false) at_ p))
          (subst (λ k. Fits stream written small t.reassembler k m.payload) at_ fits)
          (omega (arith, s.within, h)) (omega (arith, s.within, h)) (omega (arith, v.seen, h)) in
      record {
        reassembler = put ∙ ap (λ f. insert i m.payload f t.reassembler) s.no_fin;
        has_fin = ground (arith, s.no_rst, later, s.no_fin, v.no_fin);
        has_rst = ground (arith, s.no_rst, later, s.no_fin, v.no_rst);
        seen = omega (arith, seen, s.within);
        zero_point = ground (arith, s.no_rst, later, zero_);
        is_init = ground (arith, s.no_rst, later, init);
      }

  receive-Took :
      {t : TcpReceiver} (number : ℕ) (m : SenderMessage)
      → ReceiverInv stream isn written t
      → WrappingIntegers.IsValid isn
      → IsSent stream isn (bounds t written) number m
      → Took t (receive m t) (number - 1) m
  receive-Took zero m v valid s = syn-Took m v valid s
  receive-Took {t} (suc i) m v valid s =
      let back : suc i - 1 ≡ i = omega arith in
      let next : suc i ≡ i + 1 = omega arith in
      let init : t.is_init ≡ true = elim s.begun [
        | inl z ↦ absurd (omega (arith, z))
        | inr b ↦ b
      ] in
      subst (λ k. Took t (receive m t) k m) (sym back)
        (rest-Took i m v valid (subst (λ k. IsSent stream isn (bounds t written) k m) next s) init)

  Took-Inv :
      {t u : TcpReceiver} (number : ℕ) (m : SenderMessage)
      → ReceiverInv stream isn written t
      → IsSent stream isn (bounds t written) number m
      → Took t u (number - 1) m
      → ReceiverInv stream isn written u
        × Later (bounds t written) (bounds u written)
        × (u.reassembler.output.popped_cnt ≡ t.reassembler.output.popped_cnt)
  Took-Inv {t} {u} number m v s k =
      let (p, fits) = part t s in
      let r = t.reassembler in
      let i = number - 1 in
      let (next, same_edge, popped) = insert_keeps stream written small i m.payload v.inv p fits in
      (
        record {
          inv = rw k.reassembler (insert-Inv stream written small i m.payload false v.inv p fits);
          goes_on = rw k.reassembler (GoesOn-insert i m.payload r v.goes_on);
          fine = rw k.reassembler (error-insert i m.payload false r ∙ v.fine);
          no_fin = k.has_fin;
          no_rst = k.has_rst;
          zero_point = λ _. k.zero_point;
          seen = k.seen;
        },
        record {
          next = rw k.reassembler next;
          edge = rw (k.reassembler, same_edge) (omega arith);
          is_init = λ _. k.is_init;
          written = omega arith;
        },
        rw k.reassembler popped,
      )

  pub receive-ReceiverInv :
      {t : TcpReceiver} (number : ℕ) (m : SenderMessage)
      → ReceiverInv stream isn written t
      → WrappingIntegers.IsValid isn
      → IsSent stream isn (bounds t written) number m
      → let u = receive m t in
        ReceiverInv stream isn written u
        × Later (bounds t written) (bounds u written)
        × (u.reassembler.output.popped_cnt ≡ t.reassembler.output.popped_cnt)
  receive-ReceiverInv number m v valid s = Took-Inv number m v s (receive-Took number m v valid s)

  -- What the receiver knows of its output's room.
  pub next_inside :
      {t : TcpReceiver}
      → ReceiverInv stream isn written t
      → (t.reassembler.next ≤ written)
        × (t.reassembler.next ≤ edge t.reassembler)
        × (edge t.reassembler < 2 ^ 63 + 2 ^ 30)
  next_inside {t} v =
      let c = v.inv.core in
      let r = avail_cap-room stream written c in
      (
        c.reach,
        omega (arith, r),
        omega (arith, c.delivers.behind, c.reach, c.delivers.valid.small, h),
      )

  pub send-IsAck :
      {t : TcpReceiver}
      → ReceiverInv stream isn written t
      → t.is_init ≡ true
      → IsAck stream isn (bounds t written) (t.reassembler.next + 1) (send t)
  unfolding send ackno has_error
  send-IsAck {t} v init =
      let r = t.reassembler in
      let (upto, inside, _) = next_inside v in
      let window = send_window stream written small t v.inv in
      let one : add64 r.next 1 ≡ r.next + 1 = add64_small r.next 1 (omega (arith, upto, h)) in
      let none_ : add64 (add64 r.next 1) 0 ≡ r.next + 1 =
        ap (λ k. add64 k 0) one
        ∙ add64_small (r.next + 1) 0 (omega (arith, upto, h))
        ∙ omega arith in
      record {
        ackno =
            rw (init, v.no_fin, v.zero_point init)
              (either_number (bytes_pending r == 0) isn none_ one);
        fine = rw (v.no_rst, v.fine) refl;
        covered = omega arith;
        room = omega (arith, window, inside);
        word = omega (arith, window);
        begun = init;
      }
