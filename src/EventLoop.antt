-- ===== src/EventLoop.antt =====
-- util/eventloop.hh and util/eventloop.cc: rules that are served when they are interested and, where
-- they watch a file descriptor, when it is ready.
pub mod Wait
pub mod Busy
mod Tests
pub mod Silent
use cs144_2024_winter.Base.{
  ℕ, zero, suc, ◌+◌, List, [], ◌∷◌, ◌++◌, map, Bool, true, false, not, ◌&&◌, ◌||◌, ltb, leb, ◌==◌,
  if◌then◌else◌, Option, none, some, length,
}
use Prim.Native.String.{String}
use cs144_2024_winter.FileDescriptor.{FdWrapper}

pub data Direction : Type 0 where
  inward : Direction
  outward : Direction

unfoldable pub is_inward : Direction → Bool
is_inward Direction.inward = true
is_inward Direction.outward = false

-- What callbacks see and change: the program's own state, the file descriptors, and the flags
-- `cancel_requested` of the rules, each under the rule's number.
pub record Sys (W : Type 0) : Type 0 where
  pub world : W
  pub descriptors : ℕ → FdWrapper
  pub cancel_requested : ℕ → Bool

pub record BasicRule (W : Type 0) : Type 0 where
  pub id : ℕ
  pub category_id : ℕ
  pub interest : Sys W → Bool
  pub callback : Sys W → Sys W

pub record FdRule (W : Type 0) : Type 0 where
  pub base : BasicRule W
  pub fd : ℕ
  pub direction : Direction
  pub cancel : Sys W → Sys W
  pub error : Sys W → Sys W

-- `next_id` numbers the rules.
pub record EventLoop (W : Type 0) : Type 0 where
  pub rule_categories : List String
  pub category_capacity : ℕ
  pub fd_rules : List (FdRule W)
  pub non_fd_rules : List (BasicRule W)
  pub next_id : ℕ

unfoldable pub event_loop : {W : Type 0} → EventLoop W
event_loop = record {
  rule_categories = [];
  category_capacity = 64;
  fd_rules = [];
  non_fd_rules = [];
  next_id = 0;
}

-- What `poll` found for one descriptor: an error with the failure of `getsockopt` that throws, the
-- asked event, a hangup.
pub record Polled : Type 0 where
  pub error : Bool
  pub sockopt_throws : Bool
  pub ready : Bool
  pub hup : Bool

pub data PollAnswer : Type 0 where
  timed_out : PollAnswer
  poll_failed : PollAnswer
  polled : List Polled → PollAnswer

module _ {W : Type 0} where
  -- The sum of reads or writes so far.
  unfoldable pub service_count : FdRule W → Sys W → ℕ
  unfolding is_inward
  service_count r s =
      let d = s.descriptors r.fd in if is_inward r.direction then d.read_count else d.write_count

  -- `none` is the exception.
  unfoldable pub add_category : String → EventLoop W → Option (ℕ × EventLoop W)
  add_category name l =
      if leb l.category_capacity (length l.rule_categories)
      then none
      else some
          (length l.rule_categories, record l { rule_categories = l.rule_categories ++ name ∷ [] })

  -- Both overloads of `add_rule`, with the number by which the handle finds the rule.
  unfoldable pub add_fd_rule :
      ℕ
      → ℕ
      → Direction
      → (Sys W → Sys W)
      → (Sys W → Bool)
      → (Sys W → Sys W)
      → (Sys W → Sys W)
      → EventLoop W
      → Option (ℕ × EventLoop W)
  add_fd_rule category_id fd direction callback interest cancel error l =
      if leb (length l.rule_categories) category_id
      then none
      else some (
        l.next_id,
        record l {
          fd_rules =
              l.fd_rules
              ++ (record {
                base = record {
                  id = l.next_id;
                  category_id = category_id;
                  interest = interest;
                  callback = callback;
                };
                fd = fd;
                direction = direction;
                cancel = cancel;
                error = error;
              })
                ∷ [];
          next_id = l.next_id + 1;
        },
      )

  unfoldable pub add_basic_rule :
      ℕ → (Sys W → Sys W) → (Sys W → Bool) → EventLoop W → Option (ℕ × EventLoop W)
  add_basic_rule category_id callback interest l =
      if leb (length l.rule_categories) category_id
      then none
      else some (
        l.next_id,
        record l {
          non_fd_rules =
              l.non_fd_rules
              ++ (record {
                id = l.next_id;
                category_id = category_id;
                interest = interest;
                callback = callback;
              })
                ∷ [];
          next_id = l.next_id + 1;
        },
      )

  -- `RuleHandle::cancel`
  unfoldable pub cancel : ℕ → Sys W → Sys W
  cancel id s = record s { cancel_requested = λ n. (n == id) || s.cancel_requested n }

  -- The inner loop of a rule without a descriptor, with the iterations that are left before the
  -- exception, which is `none`, and whether it was served yet.
  unfoldable pub serve_rule : ℕ → BasicRule W → Bool → Sys W → Option (Bool × Sys W)
  serve_rule zero r fired s = if r.interest s then none else some (fired, s)
  serve_rule (suc n) r fired s =
      let more = serve_rule n r true (r.callback s) in
      if r.interest s then more else some (fired, s)
