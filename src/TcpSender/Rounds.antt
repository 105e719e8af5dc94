-- ===== src/TcpSender/Rounds.antt =====
-- src/tcp_sender.cc: the loop in `push`, round by round.
use cs144_2024_winter.Base.{
  ℕ, zero, suc, ◌+◌, ◌≤◌, ◌<◌, ◌≡◌, refl, subst, sym, ap, ap₂, ◌∙◌, true, not, [], ◌∷◌, ◌++◌, arith,
  ◌==◌, if◌then◌else◌, bit, ltb_cases, ne→==, inl, inr, ◌⊎◌, add64, add64_small, append_assoc,
  Bytes,
}
use cs144_2024_winter.ByteStream.{has_error}
use cs144_2024_winter.ByteStream.Invariant.{max_size, contents}
use cs144_2024_winter.WrappingIntegers.{wrap}
use cs144_2024_winter.TcpMessage.{SenderMessage, sequence_length}
use cs144_2024_winter.TcpSender.RetxTimer.{Timer, reset}
use cs144_2024_winter.TcpSender.Outstanding.{
  IsSegment, Chain, start, ost_insert-Chain, start-ost_insert, ost_insert-Front,
  is_empty-ost_insert, numbered, ost_insert-append,
}
use cs144_2024_winter.TcpSender.Valid.{IsSound, IsTicking}
use cs144_2024_winter.TcpSender.Fill.{used, buffered, Ready, Filled, fill-Filled}
use cs144_2024_winter.TcpSender.{TcpSender, Loop, done, push_loop, dispatch, ost_insert}
use cs144_2024_winter.TcpSender.Sequences.{
  payloads, payloads-snoc, Consecutive, Consecutive-snoc, AllPlain, AllPlain-snoc, numbered-snoc,
  sequence_length-used,
}

-- What holds before each round, for a loop that began at the number `first` with the bytes `whole`
-- to read and may go up to `limit`.
pub record Going (origin : TcpSender) (first limit : ℕ) (whole : Bytes) (l : Loop) : Type 0 where
  pub sound : IsSound l.sender
  pub ticking : IsTicking l.sender
  pub cur : l.abs_cur_seqno ≡ l.sender.abs_exp_ackno
  pub syn : l.has_syn_sent ≡ true → 0 < l.abs_cur_seqno
  pub wnd : l.sender.abs_exp_ackno + l.remain_wnd_size ≡ limit
  pub progress :
      (l.remain_data_size ≡ 0)
      ⊎ ((bit (l.abs_cur_seqno == 0) + buffered l ≤ l.remain_data_size)
          × (l.remain_data_size
              ≤ bit (l.abs_cur_seqno == 0) + buffered l + bit l.sender.input.is_closed)
          × (l.sender.abs_exp_ackno + l.remain_data_size + 1 < max_size))
  pub sent : Consecutive l.sender.isn first l.sender.abs_exp_ackno l.sent
  pub bytes : payloads l.sent ++ contents l.sender.input ≡ whole
  pub closed : l.sender.input.is_closed ≡ origin.input.is_closed
  pub error : l.sender.input.error ≡ origin.input.error
  pub plain : AllPlain origin.input l.sent
  pub queued : l.sender.ost_segs ≡ origin.ost_segs ++ numbered first l.sent
  pub zero_point : l.sender.isn ≡ origin.isn
  pub last : l.sender.abs_last_ackno ≡ origin.abs_last_ackno
  pub same_wnd : l.sender.wnd_size ≡ origin.wnd_size

-- The sender after the segment `msg` went out, with the timer `t`.
abbrev sent_by : TcpSender → SenderMessage → Timer → TcpSender
sent_by s msg t = record s {
  ost_segs = ost_insert s.abs_exp_ackno msg s.ost_segs;
  abs_exp_ackno = s.abs_exp_ackno + sequence_length msg;
  timer = t;
}

sent_by-IsSound :
    (s : TcpSender) (msg : SenderMessage) (t : Timer)
    → IsSound s
    → IsSegment s.isn s.abs_exp_ackno msg
    → s.abs_exp_ackno + sequence_length msg < max_size
    → IsSound (sent_by s msg t)
sent_by-IsSound s msg t v g h =
    let a = start s.abs_exp_ackno s.ost_segs in
    let z = s.abs_exp_ackno in
    record {
      input = v.input;
      zero_point = v.zero_point;
      ordered = omega arith;
      bounded = h;
      chain =
          subst (λ b. Chain s.isn b (z + sequence_length msg) (ost_insert z msg s.ost_segs))
            (sym (start-ost_insert s.isn a z msg s.ost_segs v.chain))
            (ost_insert-Chain s.isn a z msg s.ost_segs v.chain g);
      front = ost_insert-Front s.isn a z s.abs_last_ackno msg s.ost_segs v.chain g.positive v.front;
      window = v.window;
    }

dispatch-rest :
    (m : SenderMessage) (n : Loop) → (dispatch (m, n)).remain_data_size ≡ n.remain_data_size
unfolding dispatch
dispatch-rest m n = refl

module _ (origin : TcpSender) (first limit : ℕ) (whole : Bytes) (small : limit < max_size) where
  ready :
      {l : Loop}
      → Going origin first limit whole l
      → 0 < l.remain_data_size
      → 0 < l.remain_wnd_size
      → Ready l
  ready {l} g d w = ground (arith, g)

  -- The sender of a round before it transmits is sound.
  Filled-IsSound :
      {l n : Loop} {m : SenderMessage}
      → Going origin first limit whole l
      → Filled l m n
      → IsSound n.sender
  Filled-IsSound {l} {n} g f = subst IsSound (sym f.same) (ground (arith, g, f))

  module _ {l : Loop} (m : SenderMessage) (n : Loop) (g : Going origin first limit whole l)
      (d : 0 < l.remain_data_size) (f : Filled l m n) where
    msg : SenderMessage
    msg = record m { rst = has_error n.sender.input }

    facts :
        (sequence_length msg ≡ used m)
        × (n.sender.abs_exp_ackno ≡ l.sender.abs_exp_ackno)
        × (n.abs_cur_seqno ≡ n.sender.abs_exp_ackno)
        × (n.sender.abs_exp_ackno + used m < max_size)
        × (n.sender.isn ≡ l.sender.isn)
    unfolding msg
    facts =
        let e = ap (λ (s : TcpSender). s.abs_exp_ackno) f.same in
        (
          sequence_length-used msg f.sized,
          e,
          f.cur ∙ g.cur ∙ sym e,
          ground (arith, f, g, e),
          ap (λ (s : TcpSender). s.isn) f.same,
        )

    segment : IsSegment n.sender.isn n.sender.abs_exp_ackno msg
    unfolding msg
    segment =
        let (len, e, c, _, i) = facts in
        record {
          seq = f.seq ∙ ap₂ wrap (g.cur ∙ sym e) (sym i);
          first = f.syn ∙ ap (λ k. k == 0) (g.cur ∙ sym e);
          positive = omega (arith, len, f.positive);
          sized = f.sized;
        }

    sum :
        add64 n.sender.abs_exp_ackno (sequence_length msg)
        ≡ n.sender.abs_exp_ackno + sequence_length msg
    sum =
        let (len, e, c, b, i) = facts in
        add64_small n.sender.abs_exp_ackno (sequence_length msg) (omega arith)

    next_timer : Timer
    next_timer =
        if not n.sender.timer.is_running
        then reset n.sender.cur_rto_ms n.sender.timer
        else n.sender.timer

    dispatched : (dispatch (m, n)).sender ≡ sent_by n.sender msg next_timer
    unfolding dispatch msg next_timer
    dispatched =
        let c = facts.2 in
        λ i. record (n.sender) {
          ost_segs =
              ost_insert (c i) (record m { rst = has_error n.sender.input }) n.sender.ost_segs;
          abs_exp_ackno = sum i;
          timer = next_timer;
        }

    running : next_timer.is_running ≡ true
    unfolding next_timer reset
    running = ground arith

    later : Consecutive n.sender.isn first n.sender.abs_exp_ackno n.sent
    later = let (_, e, _, _, i) = facts in rw (i, e, f.sent) g.sent

    joined : payloads (n.sent ++ msg ∷ []) ++ contents n.sender.input ≡ whole
    unfolding msg
    joined =
        ap (λ b. b ++ contents n.sender.input) (payloads-snoc n.sent msg)
        ∙ append_assoc (payloads n.sent) m.payload (contents n.sender.input)
        ∙ ap₂ (λ a b. payloads a ++ b) f.sent f.bytes
        ∙ g.bytes

    error : n.sender.input.error ≡ origin.input.error
    error = f.error ∙ g.error

    queue :
        ost_insert n.sender.abs_exp_ackno msg n.sender.ost_segs
        ≡ origin.ost_segs ++ numbered first (n.sent ++ msg ∷ [])
    queue =
        let z = n.sender.abs_exp_ackno in
        ost_insert-append n.sender.isn (start z n.sender.ost_segs) z msg n.sender.ost_segs
          (Filled-IsSound g f).chain
        ∙ ap (λ t. t ++ (z, msg) ∷ [])
            (ap (λ (s : TcpSender). s.ost_segs) f.same
              ∙ g.queued
              ∙ ap (λ t. origin.ost_segs ++ numbered first t) (sym f.sent))
        ∙ append_assoc origin.ost_segs (numbered first n.sent) ((z, msg) ∷ [])
        ∙ ap (λ t. origin.ost_segs ++ t) (sym (numbered-snoc n.sender.isn first z n.sent msg later))

    -- Each round keeps what the loop maintains.
    dispatch-Going : Going origin first limit whole (dispatch (m, n))
    unfolding dispatch msg has_error
    dispatch-Going =
        let (len, e, c, b, i) = facts in
        let total = sum in
        let at : add64 n.abs_cur_seqno (sequence_length msg) ≡ n.sender.abs_exp_ackno + used m =
          ap (λ k. add64 k (sequence_length msg)) c ∙ sum ∙ omega (arith, len) in
        record {
          sound = subst IsSound (sym dispatched) (
              sent_by-IsSound n.sender msg next_timer (Filled-IsSound g f) segment
                (omega (arith, len, b)));
          ticking = subst IsTicking (sym dispatched) (
              running
              ∙ sym (ap not (is_empty-ost_insert n.sender.abs_exp_ackno msg n.sender.ost_segs)));
          cur = ap (λ k. add64 k (sequence_length msg)) c;
          syn = λ _. omega (arith, at, f.positive);
          wnd = omega (arith, total, len, e, f.wnd, g.wnd);
          progress =
              rw
                (ne→== (add64 n.abs_cur_seqno (sequence_length msg)) 0
                  (omega (arith, at, f.positive)))
                (ground (arith, f, g, total, len, e));
          sent =
              subst (λ z. Consecutive n.sender.isn first z (n.sent ++ msg ∷ [])) (sym total)
                (Consecutive-snoc n.sender.isn first n.sender.abs_exp_ackno n.sent msg later
                  segment);
          bytes = joined;
          closed = f.closed ∙ g.closed;
          error = error;
          plain =
              AllPlain-snoc origin.input n.sent msg (rw f.sent g.plain)
                (λ e. sym g.closed ∙ f.fin e) error;
          queued = ap (λ (s : TcpSender). s.ost_segs) dispatched ∙ queue;
          zero_point = i ∙ g.zero_point;
          last = ap (λ (s : TcpSender). s.abs_last_ackno) f.same ∙ g.last;
          same_wnd = ap (λ (s : TcpSender). s.wnd_size) f.same ∙ g.same_wnd;
        }

  -- The loop ends, within `fuel` rounds beyond what there is to send, and never throws.
  pub push_loop_ends :
      (fuel : ℕ) {l : Loop}
      → Going origin first limit whole l
      → l.remain_data_size < fuel
      → (t : Loop) × (push_loop fuel l ≡ done t.sender t.sent)
        × Going origin first limit whole t
        × ((t.remain_data_size ≡ 0) ⊎ (t.remain_wnd_size ≡ 0))
  unfolding push_loop
  push_loop_ends zero g h = elim h [ ]
  push_loop_ends (suc fuel) {l} g h = elim (ltb_cases 0 l.remain_data_size) [
    | inr (none_, t) ↦ (l, rw t, g, inl (omega arith))
    | inl (data_, t) ↦ elim (ltb_cases 0 l.remain_wnd_size) [
      | inr (none_, u) ↦ (l, rw (t, u), g, inr (omega arith))
      | inl (wnd_, u) ↦
          let (m, n, e, f) = fill-Filled (ready g data_ wnd_) in
          let (r, e', g', end) =
            push_loop_ends fuel (dispatch-Going m n g data_ f)
              (omega (arith, f.less, dispatch-rest m n)) in
          (r, rw (t, u, e) e', g', end)
    ]
  ]
