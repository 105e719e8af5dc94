-- ===== src/TcpSender/Valid.antt =====
-- src/tcp_sender.cc: the invariant of the sender, over `receive` and `tick`.
use cs144_2024_winter.Base.{
  ℕ, ◌+◌, ◌^◌, ◌≤◌, ◌<◌, ◌≡◌, refl, Bool, true, not, ◌&&◌, [], arith, ltb, ◌==◌, leb_cases,
  ltb_cases, lt→ltb, Bool-cases, Option-cases, inl, inr, ◌⊎◌, add64_small, sub64_small,
}
use cs144_2024_winter.ByteStream.{ByteStream, set_error}
use cs144_2024_winter.ByteStream.Invariant.{max_size}
use cs144_2024_winter.ByteStream.Invariant
use cs144_2024_winter.WrappingIntegers.{Wrap32, wrap, unwrap}
use cs144_2024_winter.WrappingIntegers
use cs144_2024_winter.TcpMessage.{ReceiverMessage}
use cs144_2024_winter.TcpSender.RetxTimer.{grow, reset, turnoff}
use cs144_2024_winter.TcpSender.Outstanding.{
  is_empty, Chain, Front, start, start-le, drop_acked-Chain,
}
use cs144_2024_winter.TcpSender.{
  TcpSender, tcp_sender, receive, accept_ack, old_ack, new_ack, settle_timer, tick, retransmit,
  back_off,
}

-- All of the invariant but the timer's part.
pub record IsSound (s : TcpSender) : Type 0 where
  pub input : Invariant.IsValid s.input
  pub zero_point : WrappingIntegers.IsValid s.isn
  pub ordered : s.abs_last_ackno ≤ s.abs_exp_ackno
  pub bounded : s.abs_exp_ackno < max_size
  pub chain : Chain s.isn (start s.abs_exp_ackno s.ost_segs) s.abs_exp_ackno s.ost_segs
  pub front : Front s.abs_last_ackno s.abs_exp_ackno s.ost_segs
  pub window : s.wnd_size < 2 ^ 16

-- The timer runs exactly while something is outstanding.
abbrev pub IsTicking : TcpSender → Type 0
IsTicking s = s.timer.is_running ≡ not (is_empty s.ost_segs)

pub record IsValid (s : TcpSender) : Type 0 where
  pub sound : IsSound s
  pub ticking : IsTicking s

pub tcp_sender-IsValid :
    (input : ByteStream) (isn : Wrap32) (rto : ℕ)
    → Invariant.IsValid input
    → WrappingIntegers.IsValid isn
    → IsValid (tcp_sender input isn rto)
unfolding tcp_sender
tcp_sender-IsValid input isn rto v w = ground (arith, v)

settle_timer-IsSound : (b : Bool) {s : TcpSender} → IsSound s → IsSound (settle_timer b s)
unfolding settle_timer
settle_timer-IsSound b {s} v = ground (arith, v)

settle_timer-IsTicking :
    (b : Bool) (s : TcpSender)
    → (b ≡ true) ⊎ (IsTicking s ⊎ (s.ost_segs ≡ []))
    → IsTicking (settle_timer b s)
unfolding settle_timer turnoff reset
settle_timer-IsTicking b s h = ground arith

old_ack-IsSound :
    (ack window_size : ℕ) {s : TcpSender}
    → IsSound s
    → ack ≤ s.abs_last_ackno
    → window_size < 2 ^ 16
    → IsSound (old_ack ack window_size s)
unfolding old_ack
old_ack-IsSound ack window_size {s} v h w =
    ground (arith, v, add64_small ack window_size, sub64_small (ack + window_size) s.abs_last_ackno)

old_ack-IsTicking :
    (ack window_size : ℕ) (s : TcpSender)
    → IsTicking s ⊎ (s.ost_segs ≡ [])
    → IsTicking (old_ack ack window_size s) ⊎ ((old_ack ack window_size s).ost_segs ≡ [])
unfolding old_ack
old_ack-IsTicking ack window_size s h = h

new_ack-IsSound :
    (ack window_size : ℕ) {s : TcpSender}
    → IsSound s
    → s.abs_last_ackno < ack
    → ack ≤ s.abs_exp_ackno
    → window_size < 2 ^ 16
    → IsSound (new_ack ack window_size s)
unfolding new_ack
new_ack-IsSound ack window_size {s} v h k w =
    let a = start-le s.abs_last_ackno s.abs_exp_ackno s.ost_segs v.front in
    let d =
      drop_acked-Chain s.isn (start s.abs_exp_ackno s.ost_segs) s.abs_exp_ackno ack s.ost_segs
        v.chain (omega (arith, a)) k v.bounded in
    record {
      input = v.input;
      zero_point = v.zero_point;
      ordered = k;
      bounded = v.bounded;
      chain = d.0;
      front = d.1;
      window = w;
    }

noted-IsSound : (b : Bool) {s : TcpSender} → IsSound s → IsSound (record s { is_fin_acked = b })
noted-IsSound b v = ground (arith, v)

accept_ack-IsValid :
    (ack window_size : ℕ) {s : TcpSender}
    → IsSound s
    → IsTicking s ⊎ ((s.ost_segs ≡ []) × (ack ≤ s.abs_last_ackno))
    → window_size < 2 ^ 16
    → IsValid (accept_ack ack window_size s)
unfolding accept_ack
accept_ack-IsValid ack window_size {s} v t w = elim (ltb_cases s.abs_exp_ackno ack) [
  | inl (impossible, e) ↦ rw e (record { sound = v; ticking = running t impossible })
  | inr (possible, e) ↦
      let noted = noted-IsSound (s.has_fin_sent && (ack == s.abs_exp_ackno)) v in
      let n = record s { is_fin_acked = s.has_fin_sent && (ack == s.abs_exp_ackno) } in
      rw e (elim (leb_cases ack s.abs_last_ackno) [
        | inl (old, f) ↦ rw f (record {
          sound =
              settle_timer-IsSound (ltb s.abs_last_ackno ack)
                (old_ack-IsSound ack window_size noted old w);
          ticking =
              settle_timer-IsTicking (ltb s.abs_last_ackno ack) (old_ack ack window_size n)
                (inr (old_ack-IsTicking ack window_size n (either t)));
        })
        | inr (new, f) ↦ rw f (record {
          sound =
              settle_timer-IsSound (ltb s.abs_last_ackno ack)
                (new_ack-IsSound ack window_size noted new possible w);
          ticking =
              settle_timer-IsTicking (ltb s.abs_last_ackno ack) (new_ack ack window_size n)
                (inl (lt→ltb s.abs_last_ackno ack new));
        })
      ])
]
  where
    running :
        IsTicking s ⊎ ((s.ost_segs ≡ []) × (ack ≤ s.abs_last_ackno))
        → s.abs_exp_ackno < ack
        → IsTicking s
    running (inl k) h = k
    running (inr k) h = absurd (omega (arith, v.ordered, k.1))

    either :
        IsTicking s ⊎ ((s.ost_segs ≡ []) × (ack ≤ s.abs_last_ackno))
        → IsTicking s ⊎ (s.ost_segs ≡ [])
    either (inl k) = inl k
    either (inr k) = inr k.0

-- An answer without an acknowledgement number takes the sender back to its start.
forgotten :
    {s : TcpSender} {w : ℕ}
    → IsSound s
    → w < 2 ^ 16
    → IsSound (record s { abs_last_ackno = 0; abs_exp_ackno = 0; wnd_size = w; ost_segs = [] })
forgotten v w = ground (arith, v)

set_error-IsValid : {o : ByteStream} → Invariant.IsValid o → Invariant.IsValid (set_error o)
unfolding set_error
set_error-IsValid v = ground (arith, v)

-- `receive` keeps the invariant, whatever the message.
pub receive-IsValid :
    (m : ReceiverMessage) {s : TcpSender}
    → IsValid s
    → m.window_size < 2 ^ 16
    → IsValid (receive m s)
unfolding receive
receive-IsValid m {s} v w = elim (Bool-cases m.rst) [
  | inl reset_ ↦ ground (arith, reset_, v, set_error-IsValid v.sound.input)
  | inr fine ↦ elim (Option-cases m.ackno) [
    | inl none_ ↦ ground (
      arith,
      fine,
      none_,
      accept_ack-IsValid 0 m.window_size (forgotten v.sound w) (inr (refl, omega arith)) w,
    )
    | inr (ackno, some_) ↦ ground (
      arith,
      fine,
      some_,
      accept_ack-IsValid (unwrap ackno s.isn s.abs_last_ackno) m.window_size v.sound (inl v.ticking)
          w,
    )
  ]
]

-- `tick` keeps it too.
pub tick-IsValid : (ms : ℕ) {s : TcpSender} → IsValid s → IsValid (tick ms s).0
unfolding tick retransmit back_off grow reset turnoff
tick-IsValid ms {s} v = ground (arith, v)

-- `receive` never moves the next number up, and reads nothing of the input.
pub receive-abs_exp_ackno :
    (m : ReceiverMessage) (s : TcpSender)
    → ((receive m s).abs_exp_ackno ≤ s.abs_exp_ackno)
      × ((receive m s).input.end ≡ s.input.end)
      × ((receive m s).input.begin ≡ s.input.begin)
unfolding receive accept_ack old_ack new_ack settle_timer set_error
receive-abs_exp_ackno m s = ground arith

-- A sender with another input.
pub with_input-IsValid :
    (b : ByteStream) {s : TcpSender}
    → Invariant.IsValid b
    → IsValid s
    → IsValid (record s { input = b })
with_input-IsValid b v w = record {
  sound = record {
    input = v;
    zero_point = w.sound.zero_point;
    ordered = w.sound.ordered;
    bounded = w.sound.bounded;
    chain = w.sound.chain;
    front = w.sound.front;
    window = w.sound.window;
  };
  ticking = w.ticking;
}
