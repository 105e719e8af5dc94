-- ===== src/EventLoop/Busy.antt =====
-- util/eventloop.cc: the loop that serves a rule without a descriptor.
use cs144_2024_winter.Base.{
  ℕ, zero, suc, ◌≤◌, ◌<◌, ◌≡◌, refl, ap, ◌∙◌, arith, Bool, true, false, some,
}
use cs144_2024_winter.EventLoop.{Sys, BasicRule, serve_rule}

-- Was the rule served, before or by these calls?
abbrev pub any : ℕ → Bool → Bool
any zero fired = fired
any (suc k) fired = true

any-true : (k : ℕ) → any k true ≡ true
any-true zero = refl
any-true (suc k) = refl

module _ {W : Type 0} where
  -- The state after so many calls of the rule's callback.
  abbrev pub after : ℕ → BasicRule W → Sys W → Sys W
  after zero r s = s
  after (suc k) r s = after k r (r.callback s)

  -- A rule that loses its interest after `k` calls is served `k` times.
  pub serve_rule_stops :
      (n k : ℕ) (r : BasicRule W) (fired : Bool) (s : Sys W)
      → k ≤ n
      → ((j : ℕ) → j < k → r.interest (after j r s) ≡ true)
      → r.interest (after k r s) ≡ false
      → serve_rule n r fired s ≡ some (any k fired, after k r s)
  unfolding serve_rule
  serve_rule_stops zero zero r fired s le h e = rw e refl
  serve_rule_stops zero (suc k) r fired s le h e = absurd (omega arith)
  serve_rule_stops (suc n) zero r fired s le h e = rw e refl
  serve_rule_stops (suc n) (suc k) r fired s le h e = rw (h 0 (omega arith)) (
      serve_rule_stops n k r true (r.callback s) (omega arith) (λ j lt. h (suc j) (omega arith)) e
      ∙ ap (λ b. some (b, after k r (r.callback s))) (any-true k))
