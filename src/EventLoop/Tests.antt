-- ===== src/EventLoop/Tests.antt =====
-- Runs of util/eventloop.cc with rules that count down, and instances of the theorems on them.
use cs144_2024_winter.Base.{ℕ, ◌-◌, ◌≡◌, refl, true, false, ltb, some, List, [], ◌∷◌}
use cs144_2024_winter.FileDescriptor.{fd_wrapper}
use cs144_2024_winter.EventLoop.{Sys, BasicRule, EventLoop, PollAnswer, serve_rule}
use cs144_2024_winter.EventLoop.Wait.{PollFd, wait_next_event}
use cs144_2024_winter.EventLoop.Silent.{seen, without_cancelled, cancelled_silent}

-- A rule that is interested until the world has come down to 0.
abbrev countdown : ℕ → BasicRule ℕ
countdown id = record {
  id = id;
  category_id = 0;
  interest = λ s. ltb 0 s.world;
  callback = λ s. record s { world = s.world - 1 };
}

-- Rule 1 was cancelled.
abbrev start : ℕ → Sys ℕ
start n = record {
  world = n;
  descriptors = λ fd. fd_wrapper fd false;
  cancel_requested = λ id. ltb 0 id;
}

three_calls : serve_rule 128 (countdown 0) false (start 3) ≡ some (true, start 0)
unfolding serve_rule
three_calls = refl

abbrev idle : List PollFd → Sys ℕ → PollAnswer
idle fds s = PollAnswer.timed_out

abbrev rules : EventLoop ℕ
rules = record {
  rule_categories = [];
  category_capacity = 64;
  fd_rules = [];
  non_fd_rules = countdown 1 ∷ countdown 0 ∷ [];
  next_id = 2;
}

cancelled_silent_example :
    seen (wait_next_event idle (without_cancelled (start 3) rules) (start 3))
    ≡ seen (wait_next_event idle rules (start 3))
cancelled_silent_example = cancelled_silent idle rules (start 3) tt
