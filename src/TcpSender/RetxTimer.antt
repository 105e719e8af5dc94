-- ===== src/TcpSender/RetxTimer.antt =====
-- The retransmission timer of src/tcp_sender.hh.
use cs144_2024_winter.Base.{ℕ, Bool, true, false, not, leb, ltb, if◌then◌else◌, add64}

pub record Timer : Type 0 where
  pub is_running : Bool
  pub is_expired : Bool
  pub exp_time : ℕ
  pub cur_time : ℕ

-- The default constructor, and the one that starts the timer.
abbrev pub timer : Timer
timer = record { is_running = false; is_expired = false; exp_time = 0; cur_time = 0 }

pub started : ℕ → Timer
started exp_time = record {
  is_running = true;
  is_expired = false;
  exp_time = exp_time;
  cur_time = 0;
}

-- A time that wraps counts as expired.
unfoldable pub grow : ℕ → Timer → Timer
grow time t =
    if not t.is_running
    then t
    else if ltb (add64 t.cur_time time) t.cur_time
    then record t { is_expired = true }
    else record t {
      cur_time = add64 t.cur_time time;
      is_expired = leb t.exp_time (add64 t.cur_time time);
    }

unfoldable pub reset : ℕ → Timer → Timer
reset exp_time t = record {
  is_running = true;
  is_expired = false;
  exp_time = exp_time;
  cur_time = 0;
}

unfoldable pub turnoff : Timer → Timer
turnoff t = record t { is_running = false }
