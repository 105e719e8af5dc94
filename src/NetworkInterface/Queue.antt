-- ===== src/NetworkInterface/Queue.antt =====
-- src/network_interface.cc: datagrams that wait for an Ethernet address.
use cs144_2024_winter.Base.{
  ℕ, ◌≡◌, refl, sym, ap, arith, false, ◌&&◌, List, [], ◌∷◌, ◌++◌, Bytes, ◌==◌, if◌then◌else◌, some,
  Bool-cases, Option-cases, inl, inr, length, bit, append-nil,
}
use cs144_2024_winter.Ethernet.{EthernetFrame}
use cs144_2024_winter.Serializer.{serializer, output}
use cs144_2024_winter.Ipv4.{Ipv4Datagram, datagram_serializes}
use cs144_2024_winter.Arp.{ArpMessage, supported}
use cs144_2024_winter.Arp
use cs144_2024_winter.NetworkInterface.{
  NetworkInterface, is_pending, pack_arp, pack_dgram, erase_pending, flush_queue, flush_pending,
  learn_arp, reply_arp, generate_arp_reply,
}

-- The queued datagrams for an address, and the others, in order.
pub waiting_for : ℕ → List (Ipv4Datagram × ℕ) → List Ipv4Datagram
waiting_for ip [] = []
waiting_for ip ((d, dst) ∷ rest) =
    if dst == ip then d ∷ waiting_for ip rest else waiting_for ip rest

pub others : ℕ → List (Ipv4Datagram × ℕ) → List (Ipv4Datagram × ℕ)
others ip [] = []
others ip ((d, dst) ∷ rest) = if dst == ip then others ip rest else (d, dst) ∷ others ip rest

-- The frames carry the datagrams, one each, to one Ethernet address.
abbrev pub Carry : Bytes → NetworkInterface → List Ipv4Datagram → List EthernetFrame → Type 0
Carry eth i [] [] = Unit {0}
Carry eth i [] (f ∷ fs) = ⊥
Carry eth i (d ∷ ds) [] = ⊥
Carry eth i (d ∷ ds) (f ∷ fs) = (pack_dgram d eth i ≡ some f) × Carry eth i ds fs

-- Every queued datagram is of version 4, so that it can be serialized.
abbrev pub AllVersion4 : List (Ipv4Datagram × ℕ) → Type 0
AllVersion4 [] = Unit {0}
AllVersion4 ((d, dst) ∷ rest) = (d.header.ver ≡ 4) × AllVersion4 rest

dgram_packs :
    (d : Ipv4Datagram) (eth : Bytes) (i : NetworkInterface)
    → d.header.ver ≡ 4
    → (frame : EthernetFrame) × (pack_dgram d eth i ≡ some frame)
unfolding pack_dgram
dgram_packs d eth i v =
    let (s, e) = datagram_serializes d serializer v in
    (
      record {
        header = record { dst = eth; src = i.ethernet_address; type = 0x800 };
        payload = output s;
      },
      rw (e, pack_dgram) refl,
    )

flush_queue_lem :
    (ip : ℕ) (eth : Bytes) (i : NetworkInterface) (queue : List (Ipv4Datagram × ℕ))
    → AllVersion4 queue
    → (frames : List EthernetFrame) × (flush_queue ip eth i queue ≡ some (others ip queue, frames))
      × Carry eth i (waiting_for ip queue) frames
unfolding flush_queue others waiting_for
flush_queue_lem ip eth i [] v = ([], refl, tt)
flush_queue_lem ip eth i ((d, dst) ∷ rest) v =
    let (frames, e, c) = flush_queue_lem ip eth i rest v.1 in
    let (frame, p) = dgram_packs d eth i v.0 in
    elim (Bool-cases (dst == ip)) [
      | inl mine ↦ rw (mine, p, e) (frame ∷ frames, refl, (p, c))
      | inr other ↦ rw (other, e) (frames, refl, c)
    ]

is_pending-erase_pending :
    (ip : ℕ) (reqs : List (ℕ × ℕ)) → is_pending ip (erase_pending ip reqs) ≡ false
unfolding is_pending erase_pending
is_pending-erase_pending ip [] = refl
is_pending-erase_pending ip ((i, a) ∷ rest) = ground (arith, is_pending-erase_pending ip rest)

-- When an address is learnt, all datagrams that waited for it, and no others, are sent to it, in the
-- order in which they were queued; the others stay queued, and no request for the address is pending.
pub flush_pending_lem :
    (ip : ℕ) (eth : Bytes) (i : NetworkInterface)
    → AllVersion4 i.datagrams_queued
    → (j : NetworkInterface) × (frames : List EthernetFrame) × (flush_pending ip eth i
        ≡ some (j, frames))
      × Carry eth i (waiting_for ip i.datagrams_queued) frames
      × (j.datagrams_queued ≡ others ip i.datagrams_queued)
      × (is_pending ip j.pending_arp_reqs ≡ false)
unfolding flush_pending
flush_pending_lem ip eth i v =
    let (frames, e, c) = flush_queue_lem ip eth i i.datagrams_queued v in
    (
      record i {
        pending_arp_reqs = erase_pending ip i.pending_arp_reqs;
        datagrams_queued = others ip i.datagrams_queued;
      },
      frames,
      rw (e, flush_pending) refl,
      c,
      refl,
      is_pending-erase_pending ip i.pending_arp_reqs,
    )

reply_packs :
    (m : ArpMessage) (i : NetworkInterface)
    → (frame : EthernetFrame) × (pack_arp (generate_arp_reply m i) i ≡ some frame)
unfolding pack_arp generate_arp_reply Arp.serialize supported
reply_packs m i = elim (Option-cases (pack_arp (generate_arp_reply m i) i)) [
  | inl failed ↦ absurd (cc failed)
  | inr done ↦ done
]

-- An ARP message enters its sender's mapping, sends everything that waited for that address and keeps
-- the rest, leaves no request for it pending, and is answered by one more frame exactly when it asks
-- for this interface's address.
pub learn_arp_lem :
    (m : ArpMessage) (i : NetworkInterface)
    → AllVersion4 i.datagrams_queued
    → let entry : ℕ × Bytes × ℕ = (m.sender_ip_address, m.sender_ethernet_address, 0) in
      (j : NetworkInterface) × (frames replies : List EthernetFrame) × (learn_arp m i
        ≡ some (j, frames ++ replies))
      × Carry m.sender_ethernet_address
          (record i { rtable = i.rtable ++ entry ∷ [] })
          (waiting_for m.sender_ip_address i.datagrams_queued)
          frames
      × (j.rtable ≡ i.rtable ++ entry ∷ [])
      × (j.datagrams_queued ≡ others m.sender_ip_address i.datagrams_queued)
      × (is_pending m.sender_ip_address j.pending_arp_reqs ≡ false)
      × (length replies ≡ bit ((m.opcode == 1) && (m.target_ip_address == i.ip_address)))
unfolding learn_arp reply_arp flush_pending
learn_arp_lem m i v =
    let learnt = record i {
      rtable = i.rtable ++ (m.sender_ip_address, m.sender_ethernet_address, 0) ∷ [];
    } in
    let (frames, e, c) =
      flush_queue_lem m.sender_ip_address m.sender_ethernet_address learnt i.datagrams_queued v in
    let j = record learnt {
      pending_arp_reqs = erase_pending m.sender_ip_address i.pending_arp_reqs;
      datagrams_queued = others m.sender_ip_address i.datagrams_queued;
    } in
    let gone = is_pending-erase_pending m.sender_ip_address i.pending_arp_reqs in
    elim (Bool-cases ((m.opcode == 1) && (m.target_ip_address == i.ip_address))) [
      | inl asked ↦
          let (frame, p) = reply_packs m j in
          (
            j,
            frames,
            frame ∷ [],
            rw (learn_arp, flush_pending, e, reply_arp, asked, p) refl,
            c,
            refl,
            refl,
            gone,
            rw asked refl,
          )
      | inr told ↦ (
        j,
        frames,
        [],
        rw (learn_arp, flush_pending, e, reply_arp, told)
            (ap (λ fs. some (j, fs)) (sym (append-nil frames))),
        c,
        refl,
        refl,
        gone,
        rw told refl,
      )
    ]
