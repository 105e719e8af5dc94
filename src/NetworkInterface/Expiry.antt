-- ===== src/NetworkInterface/Expiry.antt =====
-- src/network_interface.cc: `tick` over the table and the pending requests.
use cs144_2024_winter.Base.{
  ℕ, ◌-◌, ◌≤◌, ◌<◌, ◌≡◌, ◌↔◌, arith, List, [], ◌∷◌, Bytes, ◌⊎◌, add64_small,
}
use cs144_2024_winter.ByteStream.Invariant.{max_size}
use cs144_2024_winter.NetworkInterface.{
  NetworkInterface, age_rtable, age_pending, tick, rtable_entry_expire_time,
  pending_arp_req_expire_time,
}

-- The entry stands in the table.
abbrev pub Known : ℕ → Bytes → ℕ → List (ℕ × Bytes × ℕ) → Type 0
Known ip eth age [] = ⊥
Known ip eth age ((i, e, a) ∷ rest) = ((ip ≡ i) × (eth ≡ e) × (age ≡ a)) ⊎ Known ip eth age rest

abbrev pub Asked : ℕ → ℕ → List (ℕ × ℕ) → Type 0
Asked ip age [] = ⊥
Asked ip age ((i, a) ∷ rest) = ((ip ≡ i) × (age ≡ a)) ⊎ Asked ip age rest

-- All entries are younger than 2 ^ 63 milliseconds.
abbrev pub AllYoung : List (ℕ × Bytes × ℕ) → Type 0
AllYoung [] = Unit {0}
AllYoung ((i, e, a) ∷ rest) = (a < max_size) × AllYoung rest

abbrev pub AllRecent : List (ℕ × ℕ) → Type 0
AllRecent [] = Unit {0}
AllRecent ((i, a) ∷ rest) = (a < max_size) × AllRecent rest

age_rtable_iff :
    (ms ip age : ℕ) (eth : Bytes) (table : List (ℕ × Bytes × ℕ))
    → ms < max_size
    → AllYoung table
    → Known ip eth age (age_rtable ms table)
      ↔ ((age < rtable_entry_expire_time) × (ms ≤ age) × Known ip eth (age - ms) table)
unfolding age_rtable
age_rtable_iff ms ip age eth [] h y = ground arith
age_rtable_iff ms ip age eth ((i, e, a) ∷ rest) h y =
    ground (arith, add64_small a ms (omega arith), age_rtable_iff ms ip age eth rest h y.1)

age_pending_iff :
    (ms ip age : ℕ) (reqs : List (ℕ × ℕ))
    → ms < max_size
    → AllRecent reqs
    → Asked ip age (age_pending ms reqs)
      ↔ ((age ≤ pending_arp_req_expire_time) × (ms ≤ age) × Asked ip (age - ms) reqs)
unfolding age_pending
age_pending_iff ms ip age [] h y = ground arith
age_pending_iff ms ip age ((i, a) ∷ rest) h y =
    ground (arith, add64_small a ms (omega arith), age_pending_iff ms ip age rest h y.1)

-- After `tick` the table holds exactly the mappings that are younger than 30 seconds by then, and the
-- requests exactly those that are at most 5 seconds old by then.
pub tick_expires :
    (ms ip age : ℕ) (eth : Bytes) (i : NetworkInterface)
    → ms < max_size
    → AllYoung i.rtable
    → AllRecent i.pending_arp_reqs
    → (Known ip eth age (tick ms i).rtable
        ↔ ((age < 30000) × (ms ≤ age) × Known ip eth (age - ms) i.rtable))
      × (Asked ip age (tick ms i).pending_arp_reqs
          ↔ ((age ≤ 5000) × (ms ≤ age) × Asked ip (age - ms) i.pending_arp_reqs))
unfolding tick
tick_expires ms ip age eth i h y z =
    (age_rtable_iff ms ip age eth i.rtable h y, age_pending_iff ms ip age i.pending_arp_reqs h z)
