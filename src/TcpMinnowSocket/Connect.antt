-- ===== src/TcpMinnowSocket/Connect.antt =====
-- util/tcp_minnow_socket_impl.hh: how `connect` starts.
use cs144_2024_winter.Base.{◌==◌, Option, none, some, if◌then◌else◌}
use cs144_2024_winter.TcpPeer.{TcpPeer, TcpMessage}
use cs144_2024_winter.EventLoop.{EventLoop}
use cs144_2024_winter.TcpMinnowSocket.{State}
use cs144_2024_winter.TcpMinnowSocket.Loop.{in_flight}

abbrev transmitted : Option State → Option State
transmitted none = none
transmitted (some t) = some t

abbrev tested : Option State → Option State
tested none = none
tested (some t) = if in_flight t == 1 then some t else none
