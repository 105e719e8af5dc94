-- ===== src/Link/Delivery.antt =====
-- What the reader gets is what the writer wrote, whatever the network does.
use cs144_2024_winter.Base.{ℕ, ◌+◌, ◌<◌}
use cs144_2024_winter.WrappingIntegers.{Wrap32}
use cs144_2024_winter.WrappingIntegers
use cs144_2024_winter.ByteStream.Invariant.{max_size}
use cs144_2024_winter.Link.{Link, Step, fresh}

module _ (stream : ℕ → ℕ) (isn : Wrap32) where
  -- The states that can come about.
  pub data Reach : Link → Type 0 where
    started :
        (send_capacity recv_capacity rto : ℕ)
        → send_capacity + 1 < max_size
        → recv_capacity + 1 < max_size
        → Reach (fresh send_capacity recv_capacity isn rto)
    stepped : {k l : Link} → Reach k → Step stream k l → Reach l
