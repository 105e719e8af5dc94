-- ===== src/Lib.antt =====
-- A model of the TCP/IP stack of this repository: the byte stream, the reassembler, the TCP
-- receiver and the TCP sender, the peer that joins them, the network interface with its protocol
-- headers, and the router.
--
-- The data flow. An application writes bytes to the outbound ByteStream of a TCPSender, which cuts
-- them into TCPSenderMessages. A TCPReceiver gets those messages, in any order, and hands their
-- payloads to its Reassembler, which writes the bytes in order to the inbound ByteStream. The
-- TCPReceiver answers with TCPReceiverMessages, by which the TCPSender drops what is acknowledged
-- and learns the window. Sequence numbers travel as Wrap32. Below TCP, a NetworkInterface puts
-- IPv4 datagrams into Ethernet frames and asks for Ethernet addresses by ARP, and a Router moves
-- datagrams between interfaces by the longest prefix.
--
-- The files.
--   Base: Boolean tests, lists, 64-bit and 32-bit words, strings, and `and` on bits.
--   WrappingIntegers: src/wrapping_integers.hh and .cc (wrap, unwrap, dis).
--   ByteStream: src/byte_stream.hh and .cc; ByteStream/Read is read of src/byte_stream_helpers.cc;
--     ByteStream/Spec is the abstract queue.
--   Reassembler: src/reassembler.hh and .cc. insert is note_last (the mark of the end), place (the
--     branches on where the substring lies), drain (the loop) and finish (the close).
--   TcpMessage: util/tcp_sender_message.hh, util/tcp_receiver_message.hh, util/tcp_config.hh.
--   TcpReceiver: src/tcp_receiver.hh and .cc (receive, send).
--   TcpSender: src/tcp_sender.hh and .cc (push, receive, tick, make_empty_message);
--     TcpSender/RetxTimer is its Timer. push is start_loop, then rounds of add_syn, add_payload with
--     add_fin, and dispatch.
--   TcpPeer: util/tcp_peer.hh (push, tick, receive, active). receive is take_in, push, reply_due.
--   Link: a TcpSender and a TcpReceiver with a network that loses, repeats and reorders (Step);
--     Link/Inv is what holds of both ends and of what travels, Link/Steps that each step keeps it.
--   TcpSegment: util/tcp_segment.hh and .cc, util/udinfo.hh.
--   Parser and Serializer: util/parser.hh. Parser/Integer is the round trip of
--     integers; Parser/Strings and Serializer/Strings are on several strings.
--   Checksum: util/checksum.hh. Ethernet: util/ethernet_header.hh and .cc, util/ethernet_frame.hh.
--   Arp: util/arp_message.hh and .cc. Ipv4: util/ipv4_header.hh and .cc, util/ipv4_datagram.hh.
--   NetworkInterface: src/network_interface.hh and .cc (send_datagram, recv_frame, tick).
--   TcpOverIp: util/tcp_over_ip.hh and .cc, util/fd_adapter.hh, util/lossy_fd_adapter.hh,
--     util/tuntap_adapter.hh and .cc (unwrap_tcp_in_ip, wrap_tcp_in_ip, read, write).
--   FileDescriptor: util/file_descriptor.hh and .cc (read, write, close, set_blocking).
--   EventLoop: util/eventloop.hh and .cc; EventLoop/Wait is wait_next_event: serve_rules, then
--     prepare, the poll, and serve_polled.
--   TcpMinnowSocket: util/tcp_minnow_socket.hh and util/tcp_minnow_socket_impl.hh, with shutdown of
--     util/socket.cc: the callbacks of the three rules. Each method that may throw is an Option.
--     TcpMinnowSocket/Loop is _initialize_TCP, _tcp_loop, connect, listen_and_accept and _tcp_main; a
--     loop runs over a list of iterations, and is still going where the list ends before the loop.
--   Router: src/router.hh and .cc (add_route, if_match, route).
--
-- The state. A class is a record with the fields of the class. A method that changes its object
-- takes the record last and returns the new one. What push and tick hand to their transmit
-- function is returned as a list. Exceptions are results of their own. What the network interface
-- hands to its port is a list of frames, and none is an exception. A std::map and a std::set are
-- lists in the order of their keys. A string is a list of byte values, and debug output is left
-- out.
--
-- Numbers and bounds. A uint64_t is a natural number, and every sum and difference of the code is
-- taken modulo 2^64 (add64, sub64). The theorems assume that strings are shorter than 2^63 bytes,
-- as std::string demands, and that a stream has fewer than 2^63 bytes.
--
-- Fuel. read gets one round more than the bytes that it may read, and push one round more than
-- remain_data_size, which every round lessens; that this is enough is part of the theorems on
-- them. The loop of the checksum gets two rounds, which are enough for 32 bits.
--
-- The operating system. What a system call answers is an argument: the answers of read, readv,
-- writev and fcntl, and poll as a function of the descriptors and the state. A callback of the
-- event loop is a function on the program's state, the descriptors and the requests to cancel.
--
-- Not modelled: Parser::string; the sockets, the constructors and the destructor of
-- TCPMinnowSocket and how its two threads interleave, and the other wrappers of the operating
-- system, which are input and output; the applications. An Address is its 32-bit number, with a
-- port where one is used. Interfaces of a router are taken to be distinct objects. Callbacks that
-- add rules to the event loop that calls them.
pub mod Base
pub mod WrappingIntegers
pub mod ByteStream
pub mod Reassembler
pub mod TcpMessage
pub mod TcpReceiver
pub mod TcpSender
pub mod TcpPeer
pub mod TcpSegment
pub mod Parser
pub mod Serializer
pub mod Checksum
pub mod TcpOverIp
pub mod Ethernet
pub mod FileDescriptor
pub mod EventLoop
pub mod TcpMinnowSocket
pub mod Link
pub mod Arp
pub mod Ipv4
pub mod NetworkInterface
pub mod Router
