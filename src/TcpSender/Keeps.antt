-- ===== src/TcpSender/Keeps.antt =====
-- src/tcp_sender.cc: what `tick` and `receive` leave as it is.
use cs144_2024_winter.Base.{
  ℕ, ◌+◌, ◌≤◌, ◌<◌, max, ◌≡◌, ◌⊎◌, inl, inr, refl, arith, Bool, not, if◌then◌else◌, List, [], ◌∷◌,
  true, false, some, add64_small, sub64_small,
}
use cs144_2024_winter.ByteStream.Invariant.{max_size}
use cs144_2024_winter.WrappingIntegers.{Wrap32, unwrap}
use cs144_2024_winter.TcpMessage.{SenderMessage, ReceiverMessage}
use cs144_2024_winter.TcpSender.RetxTimer.{Timer, grow}
use cs144_2024_winter.TcpSender.{
  TcpSender, tick, retransmit, back_off, receive, accept_ack, old_ack, new_ack, settle_timer,
  drop_acked,
}

-- All but the timers and the counts.
pub record SameData (s t : TcpSender) : Type 0 where
  pub zero_point : t.isn ≡ s.isn
  pub input : t.input ≡ s.input
  pub next : t.abs_exp_ackno ≡ s.abs_exp_ackno

pub record Ticked (s t : TcpSender) (sent : List SenderMessage) : Type 0 where
  pub same : SameData s t
  pub last : t.abs_last_ackno ≡ s.abs_last_ackno
  pub wnd : t.wnd_size ≡ s.wnd_size
  pub queued : t.ost_segs ≡ s.ost_segs
  pub transmitted :
      (sent ≡ [])
      ⊎ ((k : ℕ) × (m : SenderMessage) × (rest : List (ℕ × SenderMessage)) × (s.ost_segs
            ≡ (k, m) ∷ rest)
          × (sent ≡ m ∷ []))

retransmit-Ticked : (s : TcpSender) → Ticked s (retransmit s).0 (retransmit s).1
unfolding retransmit back_off
retransmit-Ticked s = cases s.ost_segs refl
  where
    cases :
        (q : List (ℕ × SenderMessage)) → s.ost_segs ≡ q → Ticked s (retransmit s).0 (retransmit s).1
    cases [] e = record {
      same = ground (arith, e);
      last = ground (arith, e);
      wnd = ground (arith, e);
      queued = ground (arith, e);
      transmitted = inl (ground (arith, e));
    }
    cases ((k, m) ∷ rest) e = record {
      same = ground (arith, e);
      last = ground (arith, e);
      wnd = ground (arith, e);
      queued = ground (arith, e);
      transmitted = inr (k, m, rest, e, ground (arith, e));
    }

quiet : (s : TcpSender) (t : Timer) → Ticked s (record s { timer = t }) []
quiet s t = record {
  same = ground arith;
  last = refl;
  wnd = refl;
  queued = refl;
  transmitted = inl refl;
}

Ticked-timer :
    (s : TcpSender) (t : Timer) → let u = retransmit (record s { timer = t }) in Ticked s u.0 u.1
Ticked-timer s t =
    let r = retransmit-Ticked (record s { timer = t }) in
    record {
      same = record { zero_point = r.same.zero_point; input = r.same.input; next = r.same.next };
      last = r.last;
      wnd = r.wnd;
      queued = r.queued;
      transmitted = r.transmitted;
    }

either :
    (b : Bool) {s : TcpSender} {p q : TcpSender × List SenderMessage}
    → Ticked s p.0 p.1
    → Ticked s q.0 q.1
    → let r = if b then p else q in Ticked s r.0 r.1
either true t u = t
either false t u = u

pub tick-Ticked : (ms : ℕ) (s : TcpSender) → Ticked s (tick ms s).0 (tick ms s).1
unfolding tick
tick-Ticked ms s = either (not s.timer.is_running) (quiet s s.timer) (
    either (not (grow ms s.timer).is_expired) (quiet s (grow ms s.timer))
      (Ticked-timer s (grow ms s.timer)))

-- What the acknowledgement of the number `ack` does.
pub record Acked (ack window_size : ℕ) (s t : TcpSender) : Type 0 where
  pub same : SameData s t
  pub queued : (t.ost_segs ≡ s.ost_segs) ⊎ (t.ost_segs ≡ drop_acked ack s.ost_segs)
  pub last :
      ((t.abs_last_ackno ≡ s.abs_last_ackno)
        × (t.abs_last_ackno + t.wnd_size
            ≤ max (s.abs_last_ackno + s.wnd_size) (max s.abs_last_ackno (ack + window_size))))
      ⊎ ((t.abs_last_ackno ≡ ack) × (t.wnd_size ≡ window_size))

accept_ack-Acked :
    (ack window_size : ℕ) (s : TcpSender)
    → ack < max_size
    → window_size < max_size
    → s.abs_last_ackno < max_size
    → Acked ack window_size s (accept_ack ack window_size s)
unfolding accept_ack old_ack new_ack settle_timer
accept_ack-Acked ack window_size s h j l = record {
  same = ground (arith);
  queued = ground arith;
  last = ground (
    arith,
    add64_small ack window_size,
    h,
    j,
    l,
    sub64_small (ack + window_size) s.abs_last_ackno,
  );
}

pub receive-Acked :
    (m : ReceiverMessage) (ackno : Wrap32) (s : TcpSender)
    → m.rst ≡ false
    → m.ackno ≡ some ackno
    → unwrap ackno s.isn s.abs_last_ackno < max_size
    → m.window_size < max_size
    → s.abs_last_ackno < max_size
    → Acked (unwrap ackno s.isn s.abs_last_ackno) m.window_size s (receive m s)
unfolding receive
receive-Acked m ackno s fine e h j l =
    rw (receive, fine, e)
      (accept_ack-Acked (unwrap ackno s.isn s.abs_last_ackno) m.window_size s h j l)
