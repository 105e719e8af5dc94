-- ===== src/EventLoop/Silent.antt =====
-- util/eventloop.cc: rules that were cancelled by their handles.
use cs144_2024_winter.Base.{
  ℕ, ◌≡◌, refl, List, [], ◌∷◌, map, Bool, true, false, Bool-cases, inl, inr, Option, none, some,
  if◌then◌else◌,
}
use cs144_2024_winter.EventLoop.{Sys, BasicRule, FdRule, serve_rule, EventLoop, PollAnswer}
use cs144_2024_winter.EventLoop.Wait.{
  Result, PollFd, Pass, Waited, serve_step, serve_rules, Polling, something_to_poll, pollfd,
  serve_polled, prepare, after_polling, after_poll, poll_rules, after_pass, wait_next_event,
}

module _ {W : Type 0} where
  -- The rules whose cancellation was not asked for.
  abbrev pub live_rules : Sys W → List (BasicRule W) → List (BasicRule W)
  live_rules s [] = []
  live_rules s (r ∷ rs) =
      let rest = live_rules s rs in if s.cancel_requested r.id then rest else r ∷ rest

  abbrev pub live_fd_rules : Sys W → List (FdRule W) → List (FdRule W)
  live_fd_rules s [] = []
  live_fd_rules s (r ∷ rs) =
      let rest = live_fd_rules s rs in if s.cancel_requested r.base.id then rest else r ∷ rest

  abbrev pub without_cancelled : Sys W → EventLoop W → EventLoop W
  without_cancelled s l = record l {
    fd_rules = live_fd_rules s l.fd_rules;
    non_fd_rules = live_rules s l.non_fd_rules;
  }

  -- A request to cancel is not taken back.
  abbrev pub Above : Sys W → Sys W → Type 0
  Above s t = (id : ℕ) → s.cancel_requested id ≡ true → t.cancel_requested id ≡ true

  abbrev pub CancelsGrow : List (FdRule W) → Type 0
  CancelsGrow [] = Unit {0}
  CancelsGrow (r ∷ rs) = ((t : Sys W) → Above t (r.cancel t)) × CancelsGrow rs

  -- What a caller of `wait_next_event` sees: the result and the state.
  abbrev pub seen : Waited W → Option (Result × Sys W)
  seen (Waited.waited result l s) = some (result, s)
  seen Waited.failed = none

  prepare_live :
      (rs : List (FdRule W)) (s t : Sys W)
      → Above s t
      → CancelsGrow rs
      → prepare (live_fd_rules s rs) t ≡ prepare rs t
  unfolding prepare
  prepare_live [] s t above grow = refl
  prepare_live (r ∷ rs) s t above grow = elim (Bool-cases (s.cancel_requested r.base.id)) [
    | inl gone ↦ rw (gone, above r.base.id gone) (prepare_live rs s t above grow.1)
    | inr live ↦
        rw
          (
            live,
            prepare_live rs s t above grow.1,
            prepare_live rs s (r.cancel t) (λ id e. grow.0 t id (above id e)) grow.1,
          )
          refl
  ]

  -- The pass over the rules without a descriptor, up to the rules that are left.
  abbrev pub pass_seen : Pass W → Option (Bool × Sys W)
  pass_seen (Pass.served rs s) = some (true, s)
  pass_seen (Pass.unserved rs s) = some (false, s)
  pass_seen Pass.busy = none

  keep_seen :
      (o : Option (Bool × Sys W)) (r : BasicRule W) (rs qs : List (BasicRule W)) (p q : Pass W)
      → pass_seen p ≡ pass_seen q
      → pass_seen (serve_step o r rs p) ≡ pass_seen (serve_step o r qs q)
  unfolding serve_step
  keep_seen none r rs qs p q e = refl
  keep_seen (some (true, t)) r rs qs p q e = refl
  keep_seen (some (false, t)) r rs qs (Pass.served ps u) (Pass.served vs v) e = e
  keep_seen (some (false, t)) r rs qs (Pass.served ps u) (Pass.unserved vs v) e = e
  keep_seen (some (false, t)) r rs qs (Pass.served ps u) Pass.busy e = e
  keep_seen (some (false, t)) r rs qs (Pass.unserved ps u) (Pass.served vs v) e = e
  keep_seen (some (false, t)) r rs qs (Pass.unserved ps u) (Pass.unserved vs v) e = e
  keep_seen (some (false, t)) r rs qs (Pass.unserved ps u) Pass.busy e = e
  keep_seen (some (false, t)) r rs qs Pass.busy (Pass.served vs v) e = e
  keep_seen (some (false, t)) r rs qs Pass.busy (Pass.unserved vs v) e = e
  keep_seen (some (false, t)) r rs qs Pass.busy Pass.busy e = e

  pass_live :
      (rs : List (BasicRule W)) (s : Sys W)
      → pass_seen (serve_rules (live_rules s rs) s) ≡ pass_seen (serve_rules rs s)
  unfolding serve_rules
  pass_live [] s = refl
  pass_live (r ∷ rs) s = elim (Bool-cases (s.cancel_requested r.id)) [
    | inl gone ↦ rw gone (pass_live rs s)
    | inr live ↦ rw live (
        rw live (
          keep_seen (serve_rule 128 r false s) r (live_rules s rs) rs
            (serve_rules (live_rules s rs) s) (serve_rules rs s) (pass_live rs s)))
  ]

  -- A pass in which no rule is served leaves the state as it was.
  abbrev Quiet : Sys W → Pass W → Type 0
  Quiet s (Pass.served rs t) = Unit {0}
  Quiet s (Pass.unserved rs t) = t ≡ s
  Quiet s Pass.busy = Unit {0}

  step-Quiet :
      (o : Option (Bool × Sys W)) (r : BasicRule W) (rs : List (BasicRule W)) (s : Sys W)
      (p : Pass W)
      → Quiet s p
      → Quiet s (serve_step o r rs p)
  unfolding serve_step
  step-Quiet none r rs s p h = tt
  step-Quiet (some (true, t)) r rs s p h = tt
  step-Quiet (some (false, t)) r rs s (Pass.served ps u) h = tt
  step-Quiet (some (false, t)) r rs s (Pass.unserved ps u) h = h
  step-Quiet (some (false, t)) r rs s Pass.busy h = tt

  pass-Quiet : (rs : List (BasicRule W)) (s : Sys W) → Quiet s (serve_rules rs s)
  unfolding serve_rules
  pass-Quiet [] s = refl
  pass-Quiet (r ∷ rs) s = elim (Bool-cases (s.cancel_requested r.id)) [
    | inl gone ↦ rw gone (pass-Quiet rs s)
    | inr live ↦
        rw live (step-Quiet (serve_rule 128 r false s) r rs s (serve_rules rs s) (pass-Quiet rs s))
  ]

  seen-after_poll :
      (rules : List (FdRule W × Bool)) (k l : EventLoop W) (s : Sys W) (a : PollAnswer)
      → seen (after_poll rules k s a) ≡ seen (after_poll rules l s a)
  unfolding after_poll
  seen-after_poll rules k l s PollAnswer.timed_out = refl
  seen-after_poll rules k l s PollAnswer.poll_failed = refl
  seen-after_poll rules k l s (PollAnswer.polled answers) = finish (serve_polled rules answers s)
    where
      finish : (p : Polling W) → seen (after_polling k p) ≡ seen (after_polling l p)
      finish (Polling.finished rs t) = refl
      finish Polling.threw = refl

  -- The rules without a descriptor do not show in what is polled.
  poll_seen :
      (poll : List PollFd → Sys W → PollAnswer) (rules : List (FdRule W × Bool)) (k l : EventLoop W)
      (s : Sys W)
      → seen (poll_rules poll rules k s) ≡ seen (poll_rules poll rules l s)
  unfolding poll_rules
  poll_seen poll rules k l s = elim (Bool-cases (something_to_poll rules)) [
    | inl some_ ↦ rw some_ (seen-after_poll rules _ _ s (poll (map pollfd rules) s))
    | inr none_ ↦ rw none_ refl
  ]

  seen-after_pass :
      (poll : List PollFd → Sys W → PollAnswer) (l : EventLoop W) (s : Sys W) (p q : Pass W)
      → CancelsGrow l.fd_rules
      → Quiet s p
      → Quiet s q
      → pass_seen p ≡ pass_seen q
      → seen (after_pass poll (without_cancelled s l) p) ≡ seen (after_pass poll l q)
  unfolding after_pass
  seen-after_pass poll l s (Pass.served ps u) (Pass.served vs v) g h j e = cc
  seen-after_pass poll l s (Pass.served ps u) (Pass.unserved vs v) g h j e = absurd (cc)
  seen-after_pass poll l s (Pass.served ps u) Pass.busy g h j e = absurd (cc)
  seen-after_pass poll l s (Pass.unserved ps u) (Pass.served vs v) g h j e = absurd (cc)
  seen-after_pass poll l s (Pass.unserved ps u) (Pass.unserved vs v) g h j e =
      rw (h, j, prepare_live l.fd_rules s s (λ id c. c) g)
        (poll_seen poll (prepare l.fd_rules s).0
          (record (without_cancelled s l) { non_fd_rules = ps }) (record l { non_fd_rules = vs })
          (prepare l.fd_rules s).1)
  seen-after_pass poll l s (Pass.unserved ps u) Pass.busy g h j e = absurd (cc)
  seen-after_pass poll l s Pass.busy (Pass.served vs v) g h j e = absurd (cc)
  seen-after_pass poll l s Pass.busy (Pass.unserved vs v) g h j e = absurd (cc)
  seen-after_pass poll l s Pass.busy Pass.busy g h j e = refl

  -- The rules whose cancellation was asked for might as well not be there: neither the result nor
  -- the state after `wait_next_event` depends on their interests and callbacks. The cancellation
  -- callbacks must not take back a request to cancel.
  pub cancelled_silent :
      (poll : List PollFd → Sys W → PollAnswer) (l : EventLoop W) (s : Sys W)
      → CancelsGrow l.fd_rules
      → seen (wait_next_event poll (without_cancelled s l) s) ≡ seen (wait_next_event poll l s)
  unfolding wait_next_event
  cancelled_silent poll l s grow =
      seen-after_pass poll l s (serve_rules (live_rules s l.non_fd_rules) s)
        (serve_rules l.non_fd_rules s) grow (pass-Quiet (live_rules s l.non_fd_rules) s)
        (pass-Quiet l.non_fd_rules s) (pass_live l.non_fd_rules s)
