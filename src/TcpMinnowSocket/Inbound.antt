-- ===== src/TcpMinnowSocket/Inbound.antt =====
-- util/tcp_minnow_socket_impl.hh: the rule that hands the inbound stream to the owner.
use cs144_2024_winter.Base.{ℕ, ◌≡◌, ◌++◌, ◌||◌, take, drop}
use cs144_2024_winter.ByteStream.{is_finished, has_error}
use cs144_2024_winter.ByteStream.Invariant.{IsValid, contents}
use cs144_2024_winter.FileDescriptor.{Attempt}
use cs144_2024_winter.FileDescriptor
use cs144_2024_winter.TcpMinnowSocket.{State, inbound, outbound}

-- The owner was handed the first `n` of the buffered bytes, and the end of the stream if it was
-- reached.
pub record Handed (n : ℕ) (s t : State) : Type 0 where
  pub valid : IsValid (inbound t)
  pub delivered : t.world.delivered ≡ s.world.delivered ++ take n (contents (inbound s))
  pub left : contents (inbound t) ≡ drop n (contents (inbound s))
  pub ended :
      t.world.inbound_shutdown
      ≡ (s.world.inbound_shutdown || (is_finished (inbound t) || has_error (inbound t)))
  pub outbound : outbound t ≡ outbound s

record Given (n : ℕ) (s t : State) : Type 0 where
  valid : IsValid (inbound t)
  delivered : t.world.delivered ≡ s.world.delivered ++ take n (contents (inbound s))
  left : contents (inbound t) ≡ drop n (contents (inbound s))
  shut : t.world.inbound_shutdown ≡ s.world.inbound_shutdown
  outbound : outbound t ≡ outbound s
