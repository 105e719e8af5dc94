-- ===== src/TcpSender/Push.antt =====
-- What `push` transmits, from the three early returns to the end of its loop.
use cs144_2024_winter.Base.{
  suc, ◌+◌, ◌-◌, ◌^◌, ◌≤◌, ◌<◌, max, ◌≡◌, refl, sym, append-nil, subst, ◌∙◌, not, ◌&&◌, List, [],
  ◌++◌, arith, ◌==◌, bit, bit_le, bit-and_le, leb_cases, Bool-cases, inl, inr, add64, add64_small,
  sub64_small,
}
use cs144_2024_winter.ByteStream.Invariant.{max_size, contents, bytes_buffered_lem}
use cs144_2024_winter.TcpMessage.{SenderMessage}
use cs144_2024_winter.TcpSender.Valid.{IsValid}
use cs144_2024_winter.TcpSender.Fill.{buffered}
use cs144_2024_winter.TcpSender.Outstanding.{numbered}
use cs144_2024_winter.TcpSender.{TcpSender, done, push, push_loop, start_loop, effective_wnd}
use cs144_2024_winter.TcpSender.Rounds.{Going, push_loop_ends}
use cs144_2024_winter.TcpSender.Sequences.{payloads, AllPlain, Consecutive}

effective_wnd_bounds :
    (s : TcpSender) → s.wnd_size < 2 ^ 16 → (0 < effective_wnd s) × (effective_wnd s < 2 ^ 16)
unfolding effective_wnd
effective_wnd_bounds s h = ground (arith, h)

window_end :
    (s : TcpSender)
    → IsValid s
    → add64 s.abs_last_ackno (effective_wnd s) ≡ s.abs_last_ackno + effective_wnd s
window_end s v =
    add64_small s.abs_last_ackno (effective_wnd s)
      (omega (arith, effective_wnd_bounds s v.sound.window, v.sound.ordered, v.sound.bounded))

start_rest :
    (s : TcpSender)
    → IsValid s
    → s.abs_exp_ackno < s.abs_last_ackno + effective_wnd s
    → s.abs_exp_ackno + (start_loop s).remain_wnd_size ≡ s.abs_last_ackno + effective_wnd s
unfolding start_loop
start_rest s v h =
    let e = effective_wnd_bounds s v.sound.window in
    let w =
      sub64_small (s.abs_last_ackno + effective_wnd s) s.abs_exp_ackno (omega arith)
        (omega (arith, v.sound.ordered, v.sound.bounded)) in
    rw (window_end s v) (omega (arith, w))

start_data :
    (s : TcpSender)
    → IsValid s
    → s.abs_exp_ackno + (s.input.end - s.input.begin) + 2 ^ 16 < max_size
    → let l = start_loop s in
      (bit (l.abs_cur_seqno == 0) + buffered l ≤ l.remain_data_size)
      × (l.remain_data_size
          ≤ bit (l.abs_cur_seqno == 0) + buffered l + bit l.sender.input.is_closed)
      × (l.sender.abs_exp_ackno + l.remain_data_size + 1 < max_size)
unfolding start_loop
start_data s v h =
    let n = s.input.end - s.input.begin in
    let b = bytes_buffered_lem v.sound.input in
    let one = bit_le (s.abs_exp_ackno == 0) in
    let two = bit_le (s.input.is_closed && not s.has_fin_sent) in
    rw
      (
        b,
        add64_small (bit (s.abs_exp_ackno == 0)) n (omega (arith, one)),
        add64_small (bit (s.abs_exp_ackno == 0) + n) (bit (s.input.is_closed && not s.has_fin_sent))
            (omega (arith, one, two)),
      )
      (omega (arith, one, two, bit-and_le s.input.is_closed (not s.has_fin_sent)))

-- Where the loop starts.
start_loop-Going :
    (s : TcpSender)
    → IsValid s
    → s.abs_exp_ackno + (s.input.end - s.input.begin) + 2 ^ 16 < max_size
    → s.abs_exp_ackno < s.abs_last_ackno + effective_wnd s
    → Going s s.abs_exp_ackno (s.abs_last_ackno + effective_wnd s) (contents s.input) (start_loop s)
unfolding start_loop payloads
start_loop-Going s v h w = record {
  sound = v.sound;
  ticking = v.ticking;
  cur = refl;
  syn = λ e. cc;
  wnd = start_rest s v w;
  progress = inr (start_data s v h);
  sent = refl;
  bytes = refl;
  closed = refl;
  error = refl;
  plain = tt;
  queued = sym (append-nil s.ost_segs);
  zero_point = refl;
  last = refl;
  same_wnd = refl;
}

-- What `push` does to the sender `s`: it becomes `t`, and transmits `ms`.
pub record Pushes (s t : TcpSender) (ms : List SenderMessage) : Type 0 where
  pub result : push s ≡ done t ms
  pub valid : IsValid t
  pub numbers : Consecutive s.isn s.abs_exp_ackno t.abs_exp_ackno ms
  pub bytes : payloads ms ++ contents t.input ≡ contents s.input
  pub plain : AllPlain s.input ms
  pub queued : t.ost_segs ≡ s.ost_segs ++ numbered s.abs_exp_ackno ms
  pub closed : t.input.is_closed ≡ s.input.is_closed
  pub error : t.input.error ≡ s.input.error
  pub window : t.abs_exp_ackno ≤ max s.abs_exp_ackno (s.abs_last_ackno + effective_wnd s)
  pub zero_point : t.isn ≡ s.isn
  pub same_wnd : t.wnd_size ≡ s.wnd_size
  pub same_ack : t.abs_last_ackno ≡ s.abs_last_ackno

-- The three early returns.
push_nothing : (s : TcpSender) → IsValid s → push s ≡ done s [] → Pushes s s []
unfolding payloads
push_nothing s v e = record {
  result = e;
  valid = v;
  numbers = refl;
  bytes = refl;
  plain = tt;
  queued = sym (append-nil s.ost_segs);
  closed = refl;
  error = refl;
  window = omega arith;
  zero_point = refl;
  same_wnd = refl;
  same_ack = refl;
}

push_something :
    (s : TcpSender)
    → IsValid s
    → s.abs_exp_ackno + (s.input.end - s.input.begin) + 2 ^ 16 < max_size
    → s.abs_exp_ackno < s.abs_last_ackno + effective_wnd s
    → push s ≡ push_loop (suc (start_loop s).remain_data_size) (start_loop s)
    → (t : TcpSender) × (ms : List SenderMessage) × Pushes s t ms
push_something s v h w e =
    let bound = effective_wnd_bounds s v.sound.window in
    let limit = s.abs_last_ackno + effective_wnd s in
    let (l, r, g, _) =
      push_loop_ends s s.abs_exp_ackno limit (contents s.input)
        (omega (arith, bound, v.sound.ordered)) (suc (start_loop s).remain_data_size)
        (start_loop-Going s v h w) (omega arith) in
    (
      l.sender,
      l.sent,
      record {
        result = e ∙ r;
        valid = record { sound = g.sound; ticking = g.ticking };
        numbers =
            subst (λ z. Consecutive z s.abs_exp_ackno l.sender.abs_exp_ackno l.sent) g.zero_point
              g.sent;
        bytes = g.bytes;
        plain = g.plain;
        queued = g.queued;
        closed = g.closed;
        error = g.error;
        window = omega (arith, g.wnd);
        zero_point = g.zero_point;
        same_wnd = g.same_wnd;
        same_ack = g.last;
      },
    )

-- A valid sender whose next number and buffered bytes stay 2 ^ 16 below 2 ^ 63 has `push` return
-- without an exception, and what it transmits is as `Pushes` says.
pub push-Pushes :
    (s : TcpSender)
    → IsValid s
    → s.abs_exp_ackno + (s.input.end - s.input.begin) + 2 ^ 16 < max_size
    → (t : TcpSender) × (ms : List SenderMessage) × Pushes s t ms
unfolding push
push-Pushes s v h = elim (Bool-cases s.is_fin_acked) [
  | inl acked ↦ (s, [], push_nothing s v (ground (arith, acked)))
  | inr not_yet ↦ elim (leb_cases (add64 s.abs_last_ackno (effective_wnd s)) s.abs_exp_ackno) [
    | inl (full, e) ↦ (s, [], push_nothing s v (ground (arith, not_yet, e)))
    | inr (open_, e) ↦
        let w : s.abs_exp_ackno < s.abs_last_ackno + effective_wnd s =
          omega (arith, window_end s v) in
        push_something s v h w (ground (arith, not_yet, e, start_rest s v w))
  ]
]
