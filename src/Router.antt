-- ===== src/Router.antt =====
-- src/router.hh and src/router.cc: longest-prefix-match routing between interfaces.
pub mod Match
pub mod Best
mod Tests
use Prim.Native.Nat.{bit_and}
use cs144_2024_winter.Base.{
  ℕ, zero, suc, ◌+◌, ◌-◌, ◌*◌, ◌%◌, ◌^◌, List, [], ◌∷◌, ◌++◌, Bool, true, false, ◌&&◌, leb, ltb,
  ◌==◌, if◌then◌else◌, Option, none, some, u32_mod, length,
}
use cs144_2024_winter.Ipv4.{Ipv4Datagram}
use cs144_2024_winter.NetworkInterface.{NetworkInterface, send_datagram}
use cs144_2024_winter.Ethernet.{EthernetFrame}

-- An entry of the table. A next hop is an address's 32-bit number.
pub record Route : Type 0 where
  pub route_prefix : ℕ
  pub prefix_length : ℕ
  pub next_hop : Option ℕ
  pub interface_num : ℕ

pub record Router : Type 0 where
  pub interfaces : List NetworkInterface
  pub rtable : List Route

-- The index of the new interface, and the router with it.
pub add_interface : NetworkInterface → Router → ℕ × Router
add_interface i r = (length r.interfaces, record r { interfaces = r.interfaces ++ i ∷ [] })

-- The loop of `add_route`: the first route for the same prefix is overwritten.
pub put_route : Route → List Route → List Route
put_route new [] = new ∷ []
put_route new (e ∷ es) =
    let later = put_route new es in
    if (e.route_prefix == new.route_prefix) && (e.prefix_length == new.prefix_length)
    then record e { next_hop = new.next_hop; interface_num = new.interface_num } ∷ es
    else e ∷ later

pub add_route : Route → Router → Router
add_route new r = record r { rtable = put_route new r.rtable }

unfoldable pub if_match : ℕ → ℕ → ℕ → Bool
if_match ip route_prefix prefix_length =
    if prefix_length == 0 then true else bit_and ip mask == bit_and route_prefix mask
  where
    mask : ℕ
    mask = 0xffffffff * 2 ^ (32 - prefix_length) % u32_mod

-- `get<1>( entry ) > match_length`, where `match_length` is -1 before the first match.
pub longer : ℕ → Option Route → Bool
longer prefix_length none = true
longer prefix_length (some e) = ltb e.prefix_length prefix_length

-- The loop over the table.
pub best_route : ℕ → Option Route → List Route → Option Route
best_route dst best [] = best
best_route dst best (e ∷ es) =
    best_route dst
      (if if_match dst e.route_prefix e.prefix_length && longer e.prefix_length best
        then some e
        else best)
      es

-- `interface( N )`, with what `at` does out of range left to `none`.
pub interface_at : ℕ → List NetworkInterface → Option NetworkInterface
interface_at n [] = none
interface_at zero (i ∷ is) = some i
interface_at (suc n) (i ∷ is) = interface_at n is

pub set_interface : ℕ → NetworkInterface → List NetworkInterface → List NetworkInterface
set_interface n new [] = []
set_interface zero new (i ∷ is) = new ∷ is
set_interface (suc n) new (i ∷ is) = i ∷ set_interface n new is

-- The routers' interfaces after a step, with the frames sent on each interface's number; `none` is an
-- exception.
abbrev pub Outcome : Type 0
Outcome = Option (List NetworkInterface × List (ℕ × EthernetFrame))

pub on_port : ℕ → List EthernetFrame → List (ℕ × EthernetFrame)
on_port n [] = []
on_port n (f ∷ fs) = (n, f) ∷ on_port n fs

pub decrement_ttl : Ipv4Datagram → Ipv4Datagram
decrement_ttl d = record d { header = record (d.header) { ttl = d.header.ttl - 1 } }

-- A datagram handed to the interface of a route.
pub forward : Ipv4Datagram → Route → List NetworkInterface → Outcome
forward d e is = elim (interface_at e.interface_num is) [
  | none ↦ none
  | some out ↦ elim (send_datagram d (hop e.next_hop) out) [
    | none ↦ none
    | some (sent, frames) ↦
        some (set_interface e.interface_num sent is, on_port e.interface_num frames)
  ]
]
  where
    hop : Option ℕ → ℕ
    hop none = d.header.dst
    hop (some address) = address

-- One datagram: dropped when its time is up or when nothing matches.
pub route_datagram : List Route → Ipv4Datagram → List NetworkInterface → Outcome
route_datagram rtable d is =
    if leb d.header.ttl 1 then some (is, []) else elim (best_route d.header.dst none rtable) [
      | none ↦ some (is, [])
      | some e ↦ forward (decrement_ttl d) e is
    ]

-- The `while` loop over one interface's datagrams.
pub route_all : List Route → List Ipv4Datagram → List NetworkInterface → Outcome
route_all rtable [] is = some (is, [])
route_all rtable (d ∷ ds) is = elim (route_datagram rtable d is) [
  | none ↦ none
  | some (next, frames) ↦ elim (route_all rtable ds next) [
    | none ↦ none
    | some (last, more) ↦ some (last, frames ++ more)
  ]
]

pub take_received : ℕ → List NetworkInterface → List Ipv4Datagram × List NetworkInterface
take_received n is = elim (interface_at n is) [
  | none ↦ ([], is)
  | some i ↦ (i.datagrams_received, set_interface n (record i { datagrams_received = [] }) is)
]

-- The loop over the interfaces, from number `n` on, `count` of them.
pub route_from : List Route → ℕ → ℕ → List NetworkInterface → Outcome
route_from rtable n zero is = some (is, [])
route_from rtable n (suc count) is =
    let (received, emptied) = take_received n is in
    elim (route_all rtable received emptied) [
      | none ↦ none
      | some (next, frames) ↦ elim (route_from rtable (n + 1) count next) [
        | none ↦ none
        | some (last, more) ↦ some (last, frames ++ more)
      ]
    ]

pub route : Router → Option (Router × List (ℕ × EthernetFrame))
route r = elim (route_from r.rtable 0 (length r.interfaces) r.interfaces) [
  | none ↦ none
  | some (is, frames) ↦ some (record r { interfaces = is }, frames)
]
