-- ===== src/NetworkInterface/Tests.antt =====
-- Runs of src/network_interface.cc with one queued datagram, and instances of the theorems on it.
use cs144_2024_winter.Base.{
  ℕ, ◌-◌, ◌≤◌, ◌<◌, ◌≡◌, ◌↔◌, refl, arith, false, ◌==◌, ◌&&◌, List, [], ◌∷◌, ◌++◌, Bytes, some,
  length, bit,
}
use cs144_2024_winter.Ethernet.{EthernetFrame}
use cs144_2024_winter.Ipv4.{Ipv4Datagram, ipv4_header}
use cs144_2024_winter.Arp.{ArpMessage, arp_message}
use cs144_2024_winter.NetworkInterface.{
  NetworkInterface, is_pending, flush_pending, learn_arp, tick,
}
use cs144_2024_winter.NetworkInterface.Queue.{
  flush_pending_lem, learn_arp_lem, Carry, waiting_for, others,
}
use cs144_2024_winter.NetworkInterface.Expiry.{Known, Asked, tick_expires}

abbrev here : Bytes
here = 2 ∷ 0 ∷ 0 ∷ 0 ∷ 0 ∷ 1 ∷ []

abbrev there : Bytes
there = 2 ∷ 0 ∷ 0 ∷ 0 ∷ 0 ∷ 2 ∷ []

abbrev hello : Ipv4Datagram
hello = record { header = ipv4_header; payload = (104 ∷ 105 ∷ []) ∷ [] }

-- An interface that knows 167772162, and waits for the address of 167772163.
abbrev port : NetworkInterface
port = record {
  ethernet_address = here;
  ip_address = 167772161;
  datagrams_received = [];
  datagrams_queued = (hello, 167772163) ∷ [];
  rtable = (167772162, there, 29000) ∷ [];
  pending_arp_reqs = (167772163, 100) ∷ [];
}

-- A request from 167772163 for the interface's own address.
abbrev request : ArpMessage
request = record arp_message {
  opcode = 1;
  sender_ethernet_address = there;
  sender_ip_address = 167772163;
  target_ip_address = 167772161;
}

flush_pending_lem_example :
    (j : NetworkInterface) × (frames : List EthernetFrame) × (flush_pending 167772163 there port
      ≡ some (j, frames))
    × Carry there port (waiting_for 167772163 port.datagrams_queued) frames
    × (j.datagrams_queued ≡ others 167772163 port.datagrams_queued)
    × (is_pending 167772163 j.pending_arp_reqs ≡ false)
flush_pending_lem_example = flush_pending_lem 167772163 there port (refl, tt)

learn_arp_lem_example :
    let entry : ℕ × Bytes × ℕ = (167772163, there, 0) in
    (j : NetworkInterface) × (frames replies : List EthernetFrame) × (learn_arp request port
      ≡ some (j, frames ++ replies))
    × Carry there
        (record port { rtable = port.rtable ++ entry ∷ [] })
        (waiting_for 167772163 port.datagrams_queued)
        frames
    × (j.rtable ≡ port.rtable ++ entry ∷ [])
    × (j.datagrams_queued ≡ others 167772163 port.datagrams_queued)
    × (is_pending 167772163 j.pending_arp_reqs ≡ false)
    × (length replies
        ≡ bit ((request.opcode == 1) && (request.target_ip_address == port.ip_address)))
learn_arp_lem_example = learn_arp_lem request port (refl, tt)

tick_expires_example :
    (Known 167772162 there 29500 (tick 500 port).rtable
      ↔ ((29500 < 30000) × (500 ≤ 29500) × Known 167772162 there (29500 - 500) port.rtable))
    × (Asked 167772162 29500 (tick 500 port).pending_arp_reqs
        ↔ ((29500 ≤ 5000) × (500 ≤ 29500) × Asked 167772162 (29500 - 500) port.pending_arp_reqs))
tick_expires_example =
    tick_expires 500 167772162 29500 there port (omega arith) (omega arith, tt) (omega arith, tt)
