-- ===== src/TcpMinnowSocket/Tests.antt =====
-- A socket of util/tcp_minnow_socket_impl.hh with a connection in use, and instances of the theorems
-- on it.
use cs144_2024_winter.Base.{◌++◌, [], ◌∷◌, true, false, Bool, Bytes, length, take}
use cs144_2024_winter.ByteStream.{ByteStream, byte_stream}
use cs144_2024_winter.ByteStream.Invariant
use cs144_2024_winter.Reassembler.{reassembler}
use cs144_2024_winter.TcpPeer.{TcpPeer}
use cs144_2024_winter.TcpOverIp.{Adapter}
use cs144_2024_winter.FileDescriptor.{SysAnswer, fd_wrapper}
use cs144_2024_winter.EventLoop.{Sys, EventLoop}
use cs144_2024_winter.TcpMinnowSocket.{MinnowSocket, State, OperatingSystem}
use cs144_2024_winter.TcpMinnowSocket.Loop.{World, idle, TcpConfig}

-- A stream of capacity 4 with these bytes in front.
abbrev stream : Bytes → Bool → ByteStream
stream bytes closed = record {
  capacity = 4;
  error = false;
  begin = 0;
  end = length bytes;
  content = take 5 (bytes ++ 32 ∷ 32 ∷ 32 ∷ 32 ∷ 32 ∷ []);
  pushed_cnt = length bytes;
  popped_cnt = 0;
  is_closed = closed;
}

-- A peer whose SYN was acknowledged, with three bytes for the owner and two to send.
abbrev peer : TcpPeer
peer = record {
  rt_timeout = 1000;
  sender = record {
    input = stream (1 ∷ 2 ∷ []) false;
    isn = record { raw_value = 137 };
    initial_rto_ms = 1000;
    cur_rto_ms = 1000;
    abs_last_ackno = 1;
    abs_exp_ackno = 1;
    has_fin_sent = false;
    is_fin_acked = false;
    retx_cnt = 0;
    is_con_retx = false;
    timer = record { is_running = false; is_expired = false; exp_time = 0; cur_time = 0 };
    wnd_size = 3;
    ost_segs = [];
  };
  receiver = record {
    reassembler = record (reassembler (byte_stream 4)) { output = stream (7 ∷ 8 ∷ 9 ∷ []) true };
    isn = record { raw_value = 0 };
    max_abs_seqno = 0;
    is_init = true;
    has_fin = false;
    has_rst = false;
  };
  need_send = false;
  linger_after_streams_finish = true;
  cumulative_time = 0;
  time_of_last_receipt = 0;
}

abbrev adapter : Adapter
adapter = record {
  config = record {
    source = record { ip = 1; port = 2 };
    destination = record { ip = 3; port = 4 };
    loss_rate_dn = 0;
    loss_rate_up = 0;
  };
  listening = false;
}

abbrev socket : MinnowSocket
socket = record {
  datagram_adapter = adapter;
  tcp = peer;
  inbound_shutdown = false;
  outbound_shutdown = false;
  fully_acked = false;
  wire = [];
  delivered = 6 ∷ [];
}

abbrev state : State
state = record {
  world = socket;
  descriptors = λ fd. fd_wrapper fd true;
  cancel_requested = λ id. false;
}

-- The owner has written one byte, and takes two.
abbrev os : OperatingSystem
os = record {
  read_device = λ s. (SysAnswer.again, []);
  write_device = λ bytes s. SysAnswer.returned 40;
  read_thread = λ n s. (SysAnswer.returned 1, 3 ∷ 0 ∷ []);
  write_thread = λ bytes s. SysAnswer.returned 2;
  shutdown = λ fd. SysAnswer.returned 0;
}

abbrev config : TcpConfig
config = record {
  rt_timeout = 1000;
  recv_capacity = 4;
  send_capacity = 4;
  isn = record { raw_value = 137 };
}

-- The same socket before it is connected.
abbrev unconnected : Sys World
unconnected = record {
  world = idle (λ p. record socket { tcp = p });
  descriptors = λ fd. fd_wrapper fd true;
  cancel_requested = λ id. false;
}
