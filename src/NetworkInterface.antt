-- ===== src/NetworkInterface.antt =====
-- src/network_interface.hh and src/network_interface.cc: datagrams in Ethernet frames, with the
-- Address Resolution Protocol.
pub mod Queue
pub mod Expiry
mod Tests
use cs144_2024_winter.Base.{
  ℕ, ◌+◌, List, [], ◌∷◌, ◌++◌, Bool, true, false, not, ◌&&◌, ◌||◌, Bytes, ltb, leb, ◌==◌,
  if◌then◌else◌, Option, none, some, add64,
}
use cs144_2024_winter.Parser.{parser}
use cs144_2024_winter.Serializer.{serializer, output}
use cs144_2024_winter.Ethernet.{
  EthernetFrame, ethernet_broadcast, ethernet_zero, same, type_ipv4, type_arp,
}
use cs144_2024_winter.Ipv4.{Ipv4Datagram, ipv4_header, serialize_datagram, parse_datagram}
use cs144_2024_winter.Arp.{ArpMessage, arp_message, opcode_request, opcode_reply}
use cs144_2024_winter.Arp

-- The port and the name only serve the calls of `transmit` and the debug output. An Address is its
-- 32-bit number.
pub record NetworkInterface : Type 0 where
  pub ethernet_address : Bytes
  pub ip_address : ℕ
  pub datagrams_received : List Ipv4Datagram
  pub datagrams_queued : List (Ipv4Datagram × ℕ)
  pub rtable : List (ℕ × Bytes × ℕ)
  pub pending_arp_reqs : List (ℕ × ℕ)

pub network_interface : Bytes → ℕ → NetworkInterface
network_interface ethernet_address ip_address = record {
  ethernet_address = ethernet_address;
  ip_address = ip_address;
  datagrams_received = [];
  datagrams_queued = [];
  rtable = [];
  pending_arp_reqs = [];
}

-- 30 and 5 seconds.
abbrev pub rtable_entry_expire_time : ℕ
rtable_entry_expire_time = 30000

abbrev pub pending_arp_req_expire_time : ℕ
pending_arp_req_expire_time = 5000

-- The interface after a method, with the frames that it transmitted; `none` is an exception.
abbrev pub Outcome : Type 0
Outcome = Option (NetworkInterface × List EthernetFrame)

pub generate_arp_request : ℕ → NetworkInterface → ArpMessage
generate_arp_request query_ip i = record arp_message {
  opcode = opcode_request;
  sender_ethernet_address = i.ethernet_address;
  sender_ip_address = i.ip_address;
  target_ethernet_address = ethernet_zero;
  target_ip_address = query_ip;
}

pub generate_arp_reply : ArpMessage → NetworkInterface → ArpMessage
generate_arp_reply arp_req i = record arp_message {
  opcode = opcode_reply;
  sender_ip_address = i.ip_address;
  sender_ethernet_address = i.ethernet_address;
  target_ip_address = arp_req.sender_ip_address;
  target_ethernet_address = arp_req.sender_ethernet_address;
}

pub pack_arp : ArpMessage → NetworkInterface → Option EthernetFrame
pack_arp m i = elim (Arp.serialize m serializer) [
  | none ↦ none
  | some s ↦ some (record {
    header = record {
      dst =
          if same m.target_ethernet_address ethernet_zero
          then ethernet_broadcast
          else m.target_ethernet_address;
      src = i.ethernet_address;
      type = type_arp;
    };
    payload = output s;
  })
]

-- The message as far as it could be parsed: errors of the parser are not looked at.
pub extract_arp_msg : EthernetFrame → Option ArpMessage
extract_arp_msg frame = elim (Arp.parse arp_message (parser frame.payload)) [
  | none ↦ none
  | some (m, p) ↦ some m
]

pub pack_dgram : Ipv4Datagram → Bytes → NetworkInterface → Option EthernetFrame
pack_dgram dgram dst_eth_addr i = elim (serialize_datagram dgram serializer) [
  | none ↦ none
  | some s ↦ some (record {
    header = record { dst = dst_eth_addr; src = i.ethernet_address; type = type_ipv4 };
    payload = output s;
  })
]

-- The first entry for an address.
pub find_eth : ℕ → List (ℕ × Bytes × ℕ) → Option Bytes
find_eth ip [] = none
find_eth ip ((ip_addr, eth_addr, live_time) ∷ rest) =
    let later = find_eth ip rest in if ip_addr == ip then some eth_addr else later

pub is_pending : ℕ → List (ℕ × ℕ) → Bool
is_pending ip [] = false
is_pending ip ((ip_addr, time_pass) ∷ rest) = (ip_addr == ip) || is_pending ip rest

-- `send_datagram` for an address that is not in the table.
pub queue_datagram : Ipv4Datagram → ℕ → NetworkInterface → Outcome
queue_datagram dgram dst_ip i =
    if is_pending dst_ip i.pending_arp_reqs
    then some (queued, [])
    else elim (pack_arp (generate_arp_request dst_ip queued) queued) [
      | none ↦ none
      | some frame ↦
          some (
            record queued { pending_arp_reqs = i.pending_arp_reqs ++ (dst_ip, 0) ∷ [] },
            frame ∷ [],
          )
    ]
  where
    queued : NetworkInterface
    queued = record i { datagrams_queued = i.datagrams_queued ++ (dgram, dst_ip) ∷ [] }

pub send_datagram : Ipv4Datagram → ℕ → NetworkInterface → Outcome
send_datagram dgram next_hop i = elim (find_eth next_hop i.rtable) [
  | some eth_addr ↦ elim (pack_dgram dgram eth_addr i) [
    | none ↦ none
    | some frame ↦ some (i, frame ∷ [])
  ]
  | none ↦ queue_datagram dgram next_hop i
]

pub erase_pending : ℕ → List (ℕ × ℕ) → List (ℕ × ℕ)
erase_pending ip [] = []
erase_pending ip ((ip_addr, time_pass) ∷ rest) =
    let later = erase_pending ip rest in
    if ip_addr == ip then later else (ip_addr, time_pass) ∷ later

-- The loop over the queue in `flush_pending`: what stays, and the frames sent.
pub flush_queue :
    ℕ
    → Bytes
    → NetworkInterface
    → List (Ipv4Datagram × ℕ)
    → Option (List (Ipv4Datagram × ℕ) × List EthernetFrame)
flush_queue ip eth_addr i [] = some ([], [])
flush_queue ip eth_addr i ((dgram, dst) ∷ rest) =
    let later = flush_queue ip eth_addr i rest in
    if dst == ip
    then elim (pack_dgram dgram eth_addr i) [
      | none ↦ none
      | some frame ↦ elim later [
        | none ↦ none
        | some (queue, frames) ↦ some (queue, frame ∷ frames)
      ]
    ]
    else elim later [ none ↦ none | some (queue, frames) ↦ some ((dgram, dst) ∷ queue, frames) ]

pub flush_pending : ℕ → Bytes → NetworkInterface → Outcome
flush_pending ip eth_addr i = elim (flush_queue ip eth_addr i i.datagrams_queued) [
  | none ↦ none
  | some (queue, frames) ↦ some (
    record i { pending_arp_reqs = erase_pending ip i.pending_arp_reqs; datagrams_queued = queue },
    frames,
  )
]

-- `recv_frame` for a datagram, which is received whether or not it could be parsed.
pub receive_datagram : EthernetFrame → NetworkInterface → Outcome
receive_datagram frame i =
    elim (parse_datagram (record { header = ipv4_header; payload = [] }) (parser frame.payload)) [
      | none ↦ none
      | some (dgram, p) ↦
          some (record i { datagrams_received = i.datagrams_received ++ dgram ∷ [] }, [])
    ]

-- The answer to a request for this interface's address.
pub reply_arp : ArpMessage → NetworkInterface × List EthernetFrame → Outcome
reply_arp m (i, frames) =
    if (m.opcode == opcode_request) && (m.target_ip_address == i.ip_address)
    then elim (pack_arp (generate_arp_reply m i) i) [
      | none ↦ none
      | some frame ↦ some (i, frames ++ frame ∷ [])
    ]
    else some (i, frames)

-- `recv_frame` for an ARP message: learn, flush, reply.
pub learn_arp : ArpMessage → NetworkInterface → Outcome
learn_arp m i = elim (flush_pending m.sender_ip_address m.sender_ethernet_address learned) [
  | none ↦ none
  | some flushed ↦ reply_arp m flushed
]
  where
    learned : NetworkInterface
    learned = record i {
      rtable = i.rtable ++ (m.sender_ip_address, m.sender_ethernet_address, 0) ∷ [];
    }

pub recv_frame : EthernetFrame → NetworkInterface → Outcome
recv_frame frame i =
    if not (same frame.header.dst ethernet_broadcast)
      && not (same frame.header.dst i.ethernet_address)
    then some (i, [])
    else if frame.header.type == type_ipv4
    then receive_datagram frame i
    else if frame.header.type == type_arp
    then elim (extract_arp_msg frame) [ none ↦ none | some m ↦ learn_arp m i ]
    else some (i, [])

-- The two loops of `tick`.
pub age_rtable : ℕ → List (ℕ × Bytes × ℕ) → List (ℕ × Bytes × ℕ)
age_rtable ms [] = []
age_rtable ms ((ip_addr, eth_addr, live_time) ∷ rest) =
    let later = age_rtable ms rest in
    if leb rtable_entry_expire_time (add64 live_time ms)
    then later
    else (ip_addr, eth_addr, add64 live_time ms) ∷ later

pub age_pending : ℕ → List (ℕ × ℕ) → List (ℕ × ℕ)
age_pending ms [] = []
age_pending ms ((ip_addr, time_pass) ∷ rest) =
    let later = age_pending ms rest in
    if ltb pending_arp_req_expire_time (add64 time_pass ms)
    then later
    else (ip_addr, add64 time_pass ms) ∷ later

pub tick : ℕ → NetworkInterface → NetworkInterface
tick ms i = record i {
  rtable = age_rtable ms i.rtable;
  pending_arp_reqs = age_pending ms i.pending_arp_reqs;
}
