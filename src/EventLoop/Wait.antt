-- ===== src/EventLoop/Wait.antt =====
-- util/eventloop.cc: `wait_next_event`.
use cs144_2024_winter.Base.{
  ℕ, List, [], ◌∷◌, map, Bool, true, false, not, ◌&&◌, ◌||◌, ◌==◌, if◌then◌else◌, Option, none,
  some,
}
use cs144_2024_winter.EventLoop.{
  Direction, is_inward, Sys, BasicRule, FdRule, EventLoop, Polled, PollAnswer, service_count,
  serve_rule,
}

pub data Result : Type 0 where
  success : Result
  timeout : Result
  exit : Result

-- A descriptor handed to `poll`, and whether its rule's event is asked for.
pub record PollFd : Type 0 where
  pub fd : ℕ
  pub direction : Direction
  pub asked : Bool

-- The rules without a descriptor: the rules that are left, and whether one was served.
pub data Pass (W : Type 0) : Type 0 where
  served : List (BasicRule W) → Sys W → Pass W
  unserved : List (BasicRule W) → Sys W → Pass W
  busy : Pass W

-- What the pass over the poll's answers does: the rules that are left, or an exception.
pub data Polling (W : Type 0) : Type 0 where
  finished : List (FdRule W) → Sys W → Polling W
  threw : Polling W

pub data Waited (W : Type 0) : Type 0 where
  waited : Result → EventLoop W → Sys W → Waited W
  failed : Waited W

module _ {W : Type 0} where
  keep : BasicRule W → Pass W → Pass W
  keep r (served rs s) = served (r ∷ rs) s
  keep r (unserved rs s) = unserved (r ∷ rs) s
  keep r busy = busy

  -- What the loop on one rule makes of the pass: one rule is served in each pass.
  unfoldable pub serve_step :
      Option (Bool × Sys W) → BasicRule W → List (BasicRule W) → Pass W → Pass W
  unfolding keep
  serve_step none r rs later = busy
  serve_step (some (true, t)) r rs later = served (r ∷ rs) t
  serve_step (some (false, t)) r rs later = keep r later

  unfoldable pub serve_rules : List (BasicRule W) → Sys W → Pass W
  serve_rules [] s = unserved [] s
  serve_rules (r ∷ rs) s =
      let later = serve_rules rs s in
      let step = serve_step (serve_rule 128 r false s) r rs later in
      if s.cancel_requested r.id then later else step

  -- The rules with a descriptor that are left to poll, each with whether it is interested.
  unfoldable pub prepare : List (FdRule W) → Sys W → List (FdRule W × Bool) × Sys W
  prepare [] s = ([], s)
  prepare (r ∷ rs) s =
      let dropped = prepare rs s in
      let cancelled = prepare rs (r.cancel s) in
      let (kept, t) = prepare rs s in
      if s.cancel_requested r.base.id
      then dropped
      else if (is_inward r.direction && (s.descriptors r.fd).eof) || (s.descriptors r.fd).closed
      then cancelled
      else ((r, r.base.interest s) ∷ kept, t)

  unfoldable pub something_to_poll : List (FdRule W × Bool) → Bool
  something_to_poll [] = false
  something_to_poll ((r, asked) ∷ rs) = asked || something_to_poll rs

  unfoldable pub pollfd : FdRule W × Bool → PollFd
  pollfd (r, asked) = record { fd = r.fd; direction = r.direction; asked = asked }

  keep_fd : FdRule W → Polling W → Polling W
  keep_fd r (finished rs s) = finished (r ∷ rs) s
  keep_fd r threw = threw

  rules_of : List (FdRule W × Bool) → List (FdRule W)
  rules_of [] = []
  rules_of ((r, asked) ∷ rs) = r ∷ rules_of rs

  -- The callback of a rule whose descriptor is ready. The rules behind it are left for later.
  unfoldable pub serve_ready : FdRule W → List (FdRule W × Bool) → Sys W → Polling W
  unfolding rules_of service_count
  serve_ready r rest s =
      let t = r.base.callback s in
      if (service_count r s == service_count r t)
        && (not (t.descriptors r.fd).closed && r.base.interest t)
      then threw
      else finished (r ∷ rules_of rest) t

  -- No answer for a rule is `at` out of range.
  unfoldable pub serve_polled : List (FdRule W × Bool) → List Polled → Sys W → Polling W
  unfolding keep_fd serve_ready
  serve_polled [] answers s = finished [] s
  serve_polled ((r, asked) ∷ rest) [] s = threw
  serve_polled ((r, asked) ∷ rest) (p ∷ ps) s =
      let after_error = serve_polled rest ps (r.cancel (r.error s)) in
      let after_hup = serve_polled rest ps (r.cancel s) in
      let later = serve_polled rest ps s in
      let ready = asked && p.ready in
      if p.error
      then (if p.sockopt_throws then threw else after_error)
      else if p.hup && ((asked && not ready) || not (is_inward r.direction))
      then after_hup
      else if ready
      then serve_ready r rest s
      else keep_fd r later

  -- What `wait_next_event` returns after the pass over the poll's answers.
  unfoldable pub after_polling : EventLoop W → Polling W → Waited W
  after_polling l (finished rs t) = waited Result.success (record l { fd_rules = rs }) t
  after_polling l threw = failed

  unfoldable pub after_poll : List (FdRule W × Bool) → EventLoop W → Sys W → PollAnswer → Waited W
  unfolding serve_polled after_polling
  after_poll rules l s PollAnswer.timed_out = waited Result.timeout l s
  after_poll rules l s PollAnswer.poll_failed = failed
  after_poll rules l s (PollAnswer.polled answers) = after_polling l (serve_polled rules answers s)

  -- The rules with a descriptor, once they are prepared.
  unfoldable pub poll_rules :
      (List PollFd → Sys W → PollAnswer) → List (FdRule W × Bool) → EventLoop W → Sys W → Waited W
  unfolding something_to_poll pollfd after_poll rules_of
  poll_rules poll rules l s =
      let left = record l { fd_rules = rules_of rules } in
      if something_to_poll rules
      then after_poll rules left s (poll (map pollfd rules) s)
      else waited Result.exit left s

  unfoldable pub after_pass : (List PollFd → Sys W → PollAnswer) → EventLoop W → Pass W → Waited W
  unfolding prepare poll_rules
  after_pass poll l (served rs t) = waited Result.success (record l { non_fd_rules = rs }) t
  after_pass poll l busy = failed
  after_pass poll l (unserved rs t) =
      poll_rules poll (prepare l.fd_rules t).0 (record l { non_fd_rules = rs })
        (prepare l.fd_rules t).1

  unfoldable pub wait_next_event :
      (List PollFd → Sys W → PollAnswer) → EventLoop W → Sys W → Waited W
  unfolding serve_rules after_pass
  wait_next_event poll l s = after_pass poll l (serve_rules l.non_fd_rules s)
