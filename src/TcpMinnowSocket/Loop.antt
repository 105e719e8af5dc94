-- ===== src/TcpMinnowSocket/Loop.antt =====
-- util/tcp_minnow_socket_impl.hh: the rules of `_initialize_TCP`, `_tcp_loop`, and what connects a
-- socket and runs it. The parent module has the rules' callbacks.
use cs144_2024_winter.Base.{
  ℕ, List, [], ◌∷◌, Bool, true, false, not, ◌||◌, ◌==◌, if◌then◌else◌, Option, none, some, sub64,
}
use Prim.Native.String.{String}
use cs144_2024_winter.WrappingIntegers.{Wrap32}
use cs144_2024_winter.ByteStream.{set_error}
use cs144_2024_winter.TcpSender.{sequence_numbers_in_flight}
use cs144_2024_winter.TcpPeer.{TcpPeer, active, has_ackno, tcp_peer}
use cs144_2024_winter.TcpPeer
use cs144_2024_winter.TcpOverIp.{FdAdapterConfig}
use cs144_2024_winter.FileDescriptor.{Attempt}
use cs144_2024_winter.EventLoop.{Direction, Sys, EventLoop, PollAnswer, add_category, add_fd_rule}
use cs144_2024_winter.EventLoop.Wait.{Result, PollFd, Waited, wait_next_event}
use cs144_2024_winter.TcpMinnowSocket.{
  MinnowSocket, State, OperatingSystem, How, device, thread_data, owner, outbound, inbound,
  set_outbound, set_inbound, set_descriptor, shutdown, shut_outbound, with_peer, receive_segment,
  push_bytes, read_bytes, wants_push, wants_read,
}

-- A socket that has no TCPPeer yet or no longer, one that has, or an exception of a callback, which
-- ends the event loop's call and `_tcp_loop`.
pub data World : Type 0 where
  idle : (TcpPeer → MinnowSocket) → World
  up : MinnowSocket → World
  thrown : World

unfoldable pub as_state : MinnowSocket → Sys World → State
as_state m s = record {
  world = m;
  descriptors = s.descriptors;
  cancel_requested = s.cancel_requested;
}

unfoldable pub as_sys : State → Sys World
as_sys s = record {
  world = up s.world;
  descriptors = s.descriptors;
  cancel_requested = s.cancel_requested;
}

-- A callback, and a test, as the event loop calls them.
unfoldable pub callback : (State → Option State) → Sys World → Sys World
unfolding as_state as_sys
callback f s = elim s.world [
  | idle _ ↦ s
  | thrown ↦ s
  | up m ↦ elim (f (as_state m s)) [ none ↦ record s { world = thrown } | some t ↦ as_sys t ]
]

unfoldable pub test : (State → Bool) → Sys World → Bool
unfolding as_state
test f s = elim s.world [ idle _ ↦ false | thrown ↦ false | up m ↦ f (as_state m s) ]

-- `add_rule` with a name.
unfoldable pub add_rule :
    String
    → ℕ
    → Direction
    → (State → Option State)
    → (State → Bool)
    → (State → Option State)
    → (State → Option State)
    → EventLoop World
    → Option (EventLoop World)
unfolding callback test
add_rule name fd direction f interest cancel error l = elim (add_category name l) [
  | none ↦ none
  | some (id, named) ↦
      elim (add_fd_rule id fd direction (callback f) (test interest) (callback cancel)
        (callback error) named) [ none ↦ none | some (_, longer) ↦ some longer ]
]

abbrev receive_name : String
receive_name = "receive TCP segment from the network"

abbrev push_name : String
push_name = "push bytes to TCPPeer"

abbrev read_name : String
read_name = "read bytes from inbound stream"

-- The three rules of `_initialize_TCP`.
unfoldable pub initialize_tcp : OperatingSystem → EventLoop World → Option (EventLoop World)
unfolding add_rule
initialize_tcp os l =
    elim (add_rule receive_name device Direction.inward (receive_segment os)
      (λ s. active s.world.tcp) some some l) [
        | none ↦ none
        | some one ↦
            elim (add_rule push_name thread_data Direction.inward (push_bytes os) wants_push
              (λ s. some (shut_outbound s)) (λ s. some (set_outbound (set_error (outbound s)) s))
              one) [
                | none ↦ none
                | some two ↦
                    add_rule read_name thread_data Direction.outward (read_bytes os) wants_read some
                      (λ s. some (set_inbound (set_error (inbound s)) s)) two
              ]
      ]

-- An iteration of `_tcp_loop` finds this time and this value of `_abort`.
pub record Tick : Type 0 where
  pub now : ℕ
  pub abort : Bool

pub data Looped : Type 0 where
  left : EventLoop World → Sys World → Looped
  going : EventLoop World → Sys World → Looped
  failed : Looped

unfoldable pub is_exit : Result → Bool
is_exit Result.exit = true
is_exit Result.success = false
is_exit Result.timeout = false

pub record TcpConfig : Type 0 where
  pub rt_timeout : ℕ
  pub recv_capacity : ℕ
  pub send_capacity : ℕ
  pub isn : Wrap32

unfoldable pub emplace : TcpConfig → (TcpPeer → MinnowSocket) → MinnowSocket
emplace c make = make (tcp_peer c.rt_timeout c.recv_capacity c.send_capacity c.isn)

unfoldable pub configure : FdAdapterConfig → MinnowSocket → MinnowSocket
configure ad m = record m { datagram_adapter = record (m.datagram_adapter) { config = ad } }

unfoldable pub listen : MinnowSocket → MinnowSocket
listen m = record m { datagram_adapter = record (m.datagram_adapter) { listening = true } }

unfoldable pub in_flight : State → ℕ
in_flight s = sequence_numbers_in_flight s.world.tcp.sender

module _ (os : OperatingSystem) where
  unfoldable pub after_event : ℕ → ℕ → Sys World → Option (ℕ × Sys World)
  unfolding as_state as_sys
  after_event base_time now s = elim s.world [
    | idle _ ↦ none
    | thrown ↦ none
    | up m ↦
        if active m.tcp
        then elim (with_peer os (TcpPeer.tick (sub64 now base_time) m.tcp) (as_state m s)) [
          | none ↦ none
          | some t ↦ some (now, as_sys t)
        ]
        else some (base_time, s)
  ]

  -- The SYN of `connect`; `none` is one of its two last exceptions.
  unfoldable pub send_syn : State → Option State
  unfolding in_flight
  send_syn s = elim (with_peer os (TcpPeer.push s.world.tcp) s) [
    | none ↦ none
    | some t ↦ if in_flight t == 1 then some t else none
  ]

  -- The end of `_tcp_main`: the owner's socket is shut down and the TCPPeer dropped.
  unfoldable pub reset : EventLoop World → Sys World → Looped
  unfolding shutdown set_descriptor
  reset l s = elim s.world [
    | thrown ↦ failed
    | idle _ ↦ failed
    | up m ↦ elim (shutdown How.shut_rdwr (os.shutdown owner) (s.descriptors owner)) [
      | Attempt.threw w ↦ failed
      | Attempt.ok n w ↦
          left l (set_descriptor owner w (record s { world = idle (λ p. record m { tcp = p }) }))
    ]
  ]

module _ (os : OperatingSystem) (poll : List PollFd → Sys World → PollAnswer) where
  -- The end of an iteration, with the base time of the next one.
  -- `going` is a loop that has not ended within the iterations listed.
  unfoldable pub tcp_loop :
      (Sys World → Bool) → ℕ → List Tick → EventLoop World → Sys World → Looped
  unfolding is_exit after_event
  tcp_loop condition base_time [] l s = if condition s then going l s else left l s
  tcp_loop condition base_time (t ∷ ts) l s =
      let iteration : Looped = elim (wait_next_event poll l s) [
        | Waited.failed ↦ failed
        | Waited.waited r k u ↦
            let next : Looped = elim (after_event os base_time t.now u) [
              | none ↦ failed
              | some (base, v) ↦ tcp_loop condition base ts k v
            ] in
            elim u.world [
              | thrown ↦ failed
              | idle _ ↦ if is_exit r || t.abort then left k u else failed
              | up _ ↦ if is_exit r || t.abort then left k u else next
            ]
      ] in
      if condition s then iteration else left l s

  -- `connect` up to the start of the thread. The first time is that before the loop.
  unfoldable pub connect :
      TcpConfig → FdAdapterConfig → ℕ → List Tick → EventLoop World → Sys World → Looped
  unfolding initialize_tcp emplace configure send_syn tcp_loop as_state as_sys test
  connect c ad start ticks l s = elim s.world [
    | up _ ↦ failed
    | thrown ↦ failed
    | idle make ↦ elim (initialize_tcp os l) [
      | none ↦ failed
      | some k ↦ elim (send_syn os (as_state (configure ad (emplace c make)) s)) [
        | none ↦ failed
        | some t ↦ tcp_loop (test (λ u. in_flight u == 1)) start ticks k (as_sys t)
      ]
    ]
  ]

  -- `listen_and_accept` up to the start of the thread.
  unfoldable pub listen_and_accept :
      TcpConfig → FdAdapterConfig → ℕ → List Tick → EventLoop World → Sys World → Looped
  unfolding initialize_tcp emplace configure listen tcp_loop as_state as_sys test
  listen_and_accept c ad start ticks l s = elim s.world [
    | up _ ↦ failed
    | thrown ↦ failed
    | idle make ↦ elim (initialize_tcp os l) [
      | none ↦ failed
      | some k ↦
          tcp_loop (test (λ u. not (has_ackno u.world.tcp) || not (in_flight u == 0))) start ticks k
            (as_sys (as_state (listen (configure ad (emplace c make))) s))
    ]
  ]

  unfoldable pub tcp_main : ℕ → List Tick → EventLoop World → Sys World → Looped
  unfolding tcp_loop reset
  tcp_main start ticks l s = elim s.world [
    | idle _ ↦ failed
    | thrown ↦ failed
    | up _ ↦ elim (tcp_loop (λ _. true) start ticks l s) [
      | failed ↦ failed
      | going k t ↦ going k t
      | left k t ↦ reset os k t
    ]
  ]
