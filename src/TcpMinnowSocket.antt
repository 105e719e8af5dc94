-- ===== src/TcpMinnowSocket.antt =====
-- util/tcp_minnow_socket.hh and util/tcp_minnow_socket_impl.hh, with `shutdown` of util/socket.cc: the
-- callbacks by which a socket's event loop moves bytes between its owner, its TCPPeer and the device.
pub mod Loop
pub mod Inbound
pub mod Outbound
pub mod Connect
mod Tests
use cs144_2024_winter.Base.{
  ℕ, List, [], ◌∷◌, ◌++◌, Bool, true, not, ◌&&◌, ◌||◌, ltb, ◌==◌, if◌then◌else◌, Option, none, some,
  Bytes, take,
}
use cs144_2024_winter.ByteStream.{
  ByteStream, available_capacity, bytes_buffered, is_finished, has_error, peek, pop,
}
use cs144_2024_winter.ByteStream
use cs144_2024_winter.TcpSender.{sequence_numbers_in_flight}
use cs144_2024_winter.TcpPeer.{TcpMessage, TcpPeer, PeerResult, active}
use cs144_2024_winter.TcpPeer
use cs144_2024_winter.TcpOverIp.{Adapter}
use cs144_2024_winter.TcpOverIp
use cs144_2024_winter.FileDescriptor.{
  FdWrapper, SysAnswer, Attempt, check_system_call, read_buffers, register_read, register_write,
}
use cs144_2024_winter.FileDescriptor
use cs144_2024_winter.EventLoop.{Sys}

-- A socket whose TCPPeer is set up. `wire` holds what was handed to the device, a datagram in each
-- element, and `delivered` what was handed to the owner.
pub record MinnowSocket : Type 0 where
  pub datagram_adapter : Adapter
  pub tcp : TcpPeer
  pub inbound_shutdown : Bool
  pub outbound_shutdown : Bool
  pub fully_acked : Bool
  pub wire : List (List Bytes)
  pub delivered : Bytes

-- The numbers of the descriptors: the device's, the TCPPeer's end of the pair of local sockets, and
-- the owner's end.
abbrev pub device : ℕ
device = 0

abbrev pub thread_data : ℕ
thread_data = 1

abbrev pub owner : ℕ
owner = 2

abbrev pub State : Type 0
State = Sys MinnowSocket

-- The operating system's answers: to `readv` and `writev` on the device, to `read` of so many bytes
-- and to `writev` on the local socket, each read with the buffers as it leaves them, and to
-- `shutdown`.
pub record OperatingSystem : Type 0 where
  pub read_device : State → SysAnswer × List Bytes
  pub write_device : List Bytes → State → SysAnswer
  pub read_thread : ℕ → State → SysAnswer × Bytes
  pub write_thread : Bytes → State → SysAnswer
  pub shutdown : ℕ → SysAnswer

unfoldable pub set_descriptor : {W : Type 0} → ℕ → FdWrapper → Sys W → Sys W
set_descriptor fd w s = record s { descriptors = λ n. if n == fd then w else s.descriptors n }

unfoldable pub set_tcp : TcpPeer → State → State
set_tcp p s = record s { world = record (s.world) { tcp = p } }

-- The streams that `outbound_writer` and `inbound_reader` refer to, and a change of each.
abbrev pub outbound : State → ByteStream
outbound s = s.world.tcp.sender.input

abbrev pub inbound : State → ByteStream
inbound s = s.world.tcp.receiver.reassembler.output

unfoldable pub set_outbound : ByteStream → State → State
unfolding set_tcp
set_outbound b s =
    set_tcp (record (s.world.tcp) { sender = record (s.world.tcp.sender) { input = b } }) s

unfoldable pub set_inbound : ByteStream → State → State
unfolding set_tcp
set_inbound b s =
    set_tcp
      (record (s.world.tcp) {
        receiver = record (s.world.tcp.receiver) {
          reassembler = record (s.world.tcp.receiver.reassembler) { output = b };
        };
      })
      s

pub data How : Type 0 where
  shut_rd shut_wr shut_rdwr : How

-- `Socket::shutdown`; no other `how` is passed.
unfoldable pub shutdown : How → SysAnswer → FdWrapper → Attempt ℕ
unfolding check_system_call register_read register_write
shutdown how answer w = elim (check_system_call answer w) [
  | Attempt.ok n v ↦ Attempt.ok n (elim how [
    | shut_rd ↦ register_read v
    | shut_wr ↦ register_write v
    | shut_rdwr ↦ register_write (register_read v)
  ])
  | Attempt.threw v ↦ Attempt.threw v
]

-- `strs.at( 0 )` and `strs.at( 1 )`
unfoldable pub two_buffers : List Bytes → Option (List Bytes)
two_buffers [] = none
two_buffers (a ∷ []) = none
two_buffers (a ∷ b ∷ rest) = some (a ∷ b ∷ [])

unfoldable pub unwrap_buffers : Option (List Bytes) → Adapter → Option (Option TcpMessage × Adapter)
unwrap_buffers none a = none
unwrap_buffers (some buffers) a = TcpOverIp.read buffers a

unfoldable pub note_acked : State → State
note_acked s =
    if (s.descriptors thread_data).eof
      && ((sequence_numbers_in_flight s.world.tcp.sender == 0) && not s.world.fully_acked)
    then record s { world = record (s.world) { fully_acked = true } }
    else s

unfoldable pub shut_outbound : State → State
unfolding set_outbound
shut_outbound s =
    let t = set_outbound (ByteStream.close (outbound s)) s in
    record t { world = record (t.world) { outbound_shutdown = true } }

module _ (os : OperatingSystem) where
  -- `none` is an exception, here and below.
  unfoldable pub transmit : TcpMessage → State → Option State
  transmit msg s = elim (TcpOverIp.write msg s.world.datagram_adapter) [
    | none ↦ none
    | some datagram ↦
        elim (FileDescriptor.write datagram (os.write_device datagram s) (s.descriptors device)) [
          | Attempt.ok n w ↦ some (
              set_descriptor device w
                (record s { world = record (s.world) { wire = s.world.wire ++ datagram ∷ [] } }))
          | Attempt.threw w ↦ none
        ]
  ]

  unfoldable pub transmit_all : List TcpMessage → State → Option State
  transmit_all [] s = some s
  transmit_all (m ∷ ms) s = elim (transmit m s) [ none ↦ none | some t ↦ transmit_all ms t ]

  -- A method of the TCPPeer, with what it transmits.
  unfoldable pub with_peer : PeerResult → State → Option State
  unfolding transmit_all set_tcp
  with_peer (PeerResult.done p sent) s = transmit_all sent (set_tcp p s)
  with_peer PeerResult.threw s = none

  -- `read` of the adapter.
  unfoldable pub read_datagram : State → Option (Option TcpMessage × State)
  unfolding two_buffers unwrap_buffers set_descriptor
  read_datagram s =
      let (answer, buffers) = os.read_device s in
      elim (read_buffers answer buffers (s.descriptors device)) [
        | Attempt.ok got w ↦ elim (unwrap_buffers (two_buffers got) s.world.datagram_adapter) [
          | none ↦ none
          | some (msg, a) ↦ some (
            msg,
            set_descriptor device w
                (record s { world = record (s.world) { datagram_adapter = a } }),
          )
        ]
        | Attempt.threw w ↦ none
      ]

  -- The callback of rule 1.
  unfoldable pub receive_segment : State → Option State
  unfolding read_datagram note_acked with_peer
  receive_segment s = elim (read_datagram s) [
    | none ↦ none
    | some (none, t) ↦ some (note_acked t)
    | some (some seg, t) ↦ elim (with_peer (TcpPeer.receive seg t.world.tcp) t) [
      | none ↦ none
      | some u ↦ some (note_acked u)
    ]
  ]

  -- The callback of rule 2 up to `push`: what the owner wrote goes to the outbound stream.
  unfoldable pub take_outbound : State → Option State
  unfolding set_descriptor set_outbound shut_outbound
  take_outbound s =
      let (answer, buffer) = os.read_thread (available_capacity (outbound s)) s in
      elim (FileDescriptor.read answer buffer (s.descriptors thread_data)) [
        | Attempt.ok data_ w ↦
            let t =
              set_outbound (ByteStream.push data_ (outbound s)) (set_descriptor thread_data w s) in
            some (if w.eof then shut_outbound t else t)
        | Attempt.threw w ↦ none
      ]

  -- The callback of rule 2.
  unfoldable pub push_bytes : State → Option State
  unfolding take_outbound with_peer
  push_bytes s = elim (take_outbound s) [
    | none ↦ none
    | some t ↦ with_peer (TcpPeer.push t.world.tcp) t
  ]

  -- The first half of the callback of rule 3: the owner gets what its socket takes.
  unfoldable pub give_inbound : State → Option State
  unfolding set_descriptor set_inbound
  give_inbound s =
      if bytes_buffered (inbound s) == 0
      then some s
      else (let buffer = peek (inbound s) in
          elim (FileDescriptor.write (buffer ∷ []) (os.write_thread buffer s)
            (s.descriptors thread_data)) [
              | Attempt.ok n w ↦
                  let t = set_inbound (pop n (inbound s)) (set_descriptor thread_data w s) in
                  some (record t {
                    world = record (t.world) { delivered = s.world.delivered ++ take n buffer };
                  })
              | Attempt.threw w ↦ none
            ])

  -- The second half: the end of the stream is passed on.
  unfoldable pub end_inbound : State → Option State
  unfolding shutdown set_descriptor
  end_inbound s =
      if is_finished (inbound s) || has_error (inbound s)
      then elim (shutdown shut_wr (os.shutdown thread_data) (s.descriptors thread_data)) [
        | Attempt.ok n w ↦ some (
            set_descriptor thread_data w
              (record s { world = record (s.world) { inbound_shutdown = true } }))
        | Attempt.threw w ↦ none
      ]
      else some s

  -- The callback of rule 3.
  unfoldable pub read_bytes : State → Option State
  unfolding give_inbound end_inbound
  read_bytes s = elim (give_inbound s) [ none ↦ none | some t ↦ end_inbound t ]

-- When the rules are interested.
unfoldable pub wants_push : State → Bool
wants_push s =
    active s.world.tcp && (not s.world.outbound_shutdown && ltb 0 (available_capacity (outbound s)))

unfoldable pub wants_read : State → Bool
wants_read s =
    not (bytes_buffered (inbound s) == 0)
    || ((is_finished (inbound s) || has_error (inbound s)) && not s.world.inbound_shutdown)
