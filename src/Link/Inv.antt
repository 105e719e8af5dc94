-- ===== src/Link/Inv.antt =====
-- What holds of both ends and of all that travels between them.
use cs144_2024_winter.Base.{
  ℕ, suc, zero, ◌+◌, ◌-◌, ◌^◌, ◌≤◌, ◌<◌, ◌≡◌, ◌⊎◌, inl, inr, true, false, some, List, [], ◌∷◌,
  arith, get_elem?, subst,
}
use cs144_2024_winter.WrappingIntegers.{Wrap32, wrap}
use cs144_2024_winter.ByteStream.Invariant.{contents}
use cs144_2024_winter.Reassembler.Slice.{slice}
use cs144_2024_winter.Reassembler.Inv.{edge}
use cs144_2024_winter.Reassembler.Inv
use cs144_2024_winter.Reassembler.Open.{GoesOn}
use cs144_2024_winter.TcpMessage.{ReceiverMessage}
use cs144_2024_winter.TcpSender.{TcpSender}
use cs144_2024_winter.TcpSender.Valid.{IsValid}
use cs144_2024_winter.TcpReceiver.{TcpReceiver}
use cs144_2024_winter.Link.{Link}
use cs144_2024_winter.Link.Sent.{Bounds, Later, AllSent, AllQueued, AllQueued-Later}

-- Where the receiver stands when so many bytes were written.
abbrev pub bounds : TcpReceiver → ℕ → Bounds
bounds t written = record {
  next = t.reassembler.next;
  edge = edge t.reassembler;
  is_init = t.is_init;
  written = written;
}

module _ (stream : ℕ → ℕ) (isn : Wrap32) where
  -- An acknowledgement that the receiver sent: it covers what was written, and its window ends where
  -- the output's capacity ends.
  pub record IsAck (b : Bounds) (number : ℕ) (a : ReceiverMessage) : Type 0 where
    pub ackno : a.ackno ≡ some (wrap number isn)
    pub fine : a.rst ≡ false
    pub covered : number ≤ b.next + 1
    pub room : number + a.window_size ≤ b.edge + 1
    pub word : a.window_size < 2 ^ 16
    pub begun : b.is_init ≡ true

  abbrev pub AllAcks : Bounds → List ReceiverMessage → Type 0
  AllAcks b [] = Unit {0}
  AllAcks b (a ∷ as_) = ((number : ℕ) × IsAck b number a) × AllAcks b as_

  pub AllAcks-Later :
      {b c : Bounds} (as_ : List ReceiverMessage) → Later b c → AllAcks b as_ → AllAcks c as_
  AllAcks-Later [] l s = tt
  AllAcks-Later (a ∷ as_) l ((n, s), rest) = (
    (
      n,
      record {
        ackno = s.ackno;
        fine = s.fine;
        covered = omega (arith, s.covered, l.next);
        room = omega (arith, s.room, l.edge);
        word = s.word;
        begun = l.is_init s.begun;
      },
    ),
    AllAcks-Later as_ l rest,
  )

  pub acknowledged :
      (b : Bounds) (i : ℕ) (a : ReceiverMessage) (as_ : List ReceiverMessage)
      → get_elem? as_ i ≡ some a
      → AllAcks b as_
      → (number : ℕ) × IsAck b number a
  acknowledged b zero a (x ∷ as_) e s = subst (λ x. (number : ℕ) × IsAck b number x) (cc) s.0
  acknowledged b zero a [] e s = absurd (cc)
  acknowledged b (suc i) a (x ∷ as_) e s = acknowledged b i a as_ e s.1
  acknowledged b (suc i) a [] e s = absurd (cc)

  -- The sender's end.
  pub record SenderInv (b : Bounds) (s : TcpSender) : Type 0 where
    pub valid : IsValid s
    pub zero_point : s.isn ≡ isn
    pub open_ : s.input.is_closed ≡ false
    pub fine : s.input.error ≡ false
    pub left :
        contents s.input ≡ slice stream (s.abs_exp_ackno - 1) (b.written - (s.abs_exp_ackno - 1))
    pub known : s.abs_exp_ackno - 1 ≤ b.written
    pub queued : AllQueued stream isn b s.ost_segs
    pub room : s.abs_last_ackno + s.wnd_size ≤ b.edge + 1
    pub covered : s.abs_last_ackno ≤ b.next + 1
    pub begun : ((s.abs_last_ackno ≡ 0) × (s.wnd_size ≤ 1)) ⊎ (b.is_init ≡ true)

  -- The receiver's end.
  pub record ReceiverInv (written : ℕ) (t : TcpReceiver) : Type 0 where
    pub inv : Inv.Inv stream written t.reassembler
    pub goes_on : GoesOn t.reassembler
    pub fine : t.reassembler.output.error ≡ false
    pub no_fin : t.has_fin ≡ false
    pub no_rst : t.has_rst ≡ false
    pub zero_point : t.is_init ≡ true → t.isn ≡ isn
    pub seen : t.max_abs_seqno ≤ written + 1

  pub record LinkInv (k : Link) : Type 0 where
    pub sender : SenderInv (bounds k.receiver k.written) k.sender
    pub receiver : ReceiverInv k.written k.receiver
    pub segments : AllSent stream isn (bounds k.receiver k.written) k.segments
    pub acks : AllAcks (bounds k.receiver k.written) k.acks
    pub out : k.out ≡ slice stream 0 k.receiver.reassembler.output.popped_cnt

  -- The sender's end when the receiver has moved on, with nothing new written.
  pub SenderInv-Later :
      {b c : Bounds} {s : TcpSender}
      → Later b c
      → c.written ≡ b.written
      → SenderInv b s
      → SenderInv c s
  SenderInv-Later {b} {c} {s} l e v = record {
    valid = v.valid;
    zero_point = v.zero_point;
    open_ = v.open_;
    fine = v.fine;
    left = rw e v.left;
    known = rw e v.known;
    queued = AllQueued-Later stream isn s.ost_segs l v.queued;
    room = omega (arith, v.room, l.edge);
    covered = omega (arith, v.covered, l.next);
    begun = elim v.begun [ inl w ↦ inl w | inr i ↦ inr (l.is_init i) ];
  }
