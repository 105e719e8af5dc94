-- ===== src/TcpSender/Syn.antt =====
-- src/tcp_sender.cc: the first `push` of a connection.
use cs144_2024_winter.Base.{
  ℕ, ◌+◌, ◌<◌, ◌≡◌, refl, arith, ◌==◌, true, false, add64, sub64, ◌%◌, u64_mod, [], ◌∷◌,
}
use cs144_2024_winter.WrappingIntegers.{Wrap32}
use cs144_2024_winter.ByteStream.{byte_stream, bytes_buffered, is_finished, has_error}
use cs144_2024_winter.ByteStream.Invariant.{max_size}
use cs144_2024_winter.TcpMessage.{SenderMessage, empty_message, sequence_length}
use cs144_2024_winter.TcpSender.RetxTimer.{reset}
use cs144_2024_winter.TcpSender.{
  TcpSender, done, push, push_loop, start_loop, effective_wnd, tcp_sender, add_syn, add_payload,
  dispatch, ost_insert, sequence_numbers_in_flight,
}

-- The segment that opens a connection.
abbrev pub syn_message : Wrap32 → SenderMessage
syn_message isn = record empty_message { seqno = isn; syn = true }

-- The sender once it has sent it.
abbrev opened : ℕ → ℕ → Wrap32 → TcpSender
opened capacity rto isn =
    let s = tcp_sender (byte_stream capacity) isn rto in
    record s { abs_exp_ackno = 1; timer = reset rto s.timer; ost_segs = (0, syn_message isn) ∷ [] }

pub push_syn :
    (capacity rto : ℕ) (isn : Wrap32)
    → capacity + 1 < max_size
    → (s : TcpSender) × (push (tcp_sender (byte_stream capacity) isn rto)
        ≡ done s (syn_message isn ∷ []))
      × (sequence_numbers_in_flight s ≡ 1)
      × (s.input ≡ byte_stream capacity)
unfolding push push_loop start_loop effective_wnd tcp_sender add_syn add_payload dispatch
    byte_stream is_finished bytes_buffered has_error sequence_length sequence_numbers_in_flight
    ost_insert reset sub64 add64
push_syn capacity rto isn h =
    let e : ((capacity + 1) % u64_mod == 0) ≡ false = ground (arith, h) in
    (opened capacity rto isn, rw e refl, refl, refl)
