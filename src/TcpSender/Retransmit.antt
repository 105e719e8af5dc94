-- ===== src/TcpSender/Retransmit.antt =====
-- The retransmission timer at work: when `tick` sends a segment again, and how the timeout grows.
use cs144_2024_winter.Base.{
  ℕ, ◌+◌, ◌*◌, ◌%◌, ◌≤◌, ◌<◌, ◌≡◌, true, false, List, [], ◌∷◌, arith, ◌==◌, if◌then◌else◌,
  add64_small, u32_mod, u64_mod,
}
use cs144_2024_winter.TcpMessage.{SenderMessage}
use cs144_2024_winter.TcpSender.RetxTimer.{grow, reset}
use cs144_2024_winter.TcpSender.Outstanding.{Segments}
use cs144_2024_winter.TcpSender.{TcpSender, tick, retransmit, back_off}

-- Before the timeout nothing is sent, and the time is added up.
pub tick_waits :
    (ms : ℕ) (s : TcpSender)
    → s.timer.is_running ≡ true
    → s.timer.cur_time + ms < s.timer.exp_time
    → s.timer.exp_time < u64_mod
    → let (t, sent) = tick ms s in
      (sent ≡ [])
      × (t ≡ record s { timer = t.timer })
      × (t.timer.cur_time ≡ s.timer.cur_time + ms)
      × (t.timer.is_running ≡ true)
      × (t.timer.exp_time ≡ s.timer.exp_time)
unfolding tick grow
tick_waits ms s r h k = ground (arith, add64_small s.timer.cur_time ms, r)

-- The timeout after an expiry.
abbrev pub next_rto : TcpSender → ℕ
next_rto s = if s.wnd_size == 0 then s.cur_rto_ms else 2 * s.cur_rto_ms

-- At the timeout the first outstanding segment, and nothing else, is sent again, and stays
-- outstanding. The timer starts over; with a window, the timeout is doubled and the retransmission
-- counted.
pub tick_retransmits :
    (ms k : ℕ) (m : SenderMessage) (rest : Segments) (s : TcpSender)
    → s.timer.is_running ≡ true
    → s.ost_segs ≡ (k, m) ∷ rest
    → s.timer.exp_time ≤ s.timer.cur_time + ms
    → s.timer.cur_time + ms < u64_mod
    → 2 * s.cur_rto_ms < u64_mod
    → let (t, sent) = tick ms s in
      (sent ≡ m ∷ [])
      × (t.ost_segs ≡ s.ost_segs)
      × (t.abs_exp_ackno ≡ s.abs_exp_ackno)
      × (t.cur_rto_ms ≡ next_rto s)
      × (t.timer
          ≡ record { is_running = true; is_expired = false; exp_time = next_rto s; cur_time = 0 })
      × (t.retx_cnt ≡ (
          if s.wnd_size == 0
          then s.retx_cnt
          else if s.is_con_retx
          then (s.retx_cnt + 1) % u32_mod
          else 1))
unfolding tick grow retransmit back_off reset
tick_retransmits ms k m rest s r o h w b =
    ground (arith, r, o, add64_small s.timer.cur_time ms, add64_small s.cur_rto_ms s.cur_rto_ms)

-- Expiries one after the other, each at the time the timer says, or later.
pub expiries : List ℕ → TcpSender → TcpSender
expiries [] s = s
expiries (ms ∷ rest) s = expiries rest (tick ms s).0

-- Each wait is as long as the timeout by then, and nothing overflows.
abbrev pub AllExpire : ℕ → List ℕ → Type 0
AllExpire rto [] = rto < u64_mod
AllExpire rto (ms ∷ rest) =
    (rto ≤ ms) × (ms < u64_mod) × (2 * rto < u64_mod) × AllExpire (2 * rto) rest

-- A timer that was just started over, with something outstanding and a window.
pub record Armed (first : ℕ × SenderMessage) (s : TcpSender) : Type 0 where
  pub running : s.timer.is_running ≡ true
  pub fresh : s.timer.cur_time ≡ 0
  pub timeout : s.timer.exp_time ≡ s.cur_rto_ms
  pub window : (s.wnd_size == 0) ≡ false
  pub rest : Segments
  pub waiting : s.ost_segs ≡ first ∷ rest
