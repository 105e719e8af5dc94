-- ===== src/Router/Tests.antt =====
-- Runs of src/router.cc on a small table, and instances of the theorems on it.
use cs144_2024_winter.Base.{
  ◌-◌, ◌/◌, ◌^◌, ◌≤◌, ◌≡◌, refl, arith, true, ◌==◌, List, [], ◌∷◌, none, some, inl,
}
use cs144_2024_winter.Router.{Route, Router, if_match, best_route}
use cs144_2024_winter.Router.Match.{if_match_lem}
use cs144_2024_winter.Router.Best.{In, applies, best_route_lem}

-- 10.0.0.0/8 on interface 0, and 10.1.0.0/16 on interface 1.
abbrev wide : Route
wide = record { route_prefix = 0x0a000000; prefix_length = 8; next_hop = none; interface_num = 0 }

abbrev narrow : Route
narrow = record {
  route_prefix = 0x0a010000;
  prefix_length = 16;
  next_hop = none;
  interface_num = 1;
}

abbrev table : List Route
table = wide ∷ narrow ∷ []

picks_narrow : best_route 0x0a010203 none table ≡ some narrow
unfolding best_route if_match cs144_2024_winter.Router.longer
picks_narrow = refl

applies-wide : applies 0x0a010203 wide ≡ true
unfolding if_match
applies-wide = refl

if_match_lem_example :
    if_match 0x0a010203 0x0a000000 8 ≡ (0x0a010203 / 2 ^ (32 - 8) == 0x0a000000 / 2 ^ (32 - 8))
if_match_lem_example =
    if_match_lem 0x0a010203 0x0a000000 8 (omega arith) (omega arith) (omega arith)

best_route_lem_example :
    (e : Route) × (best_route 0x0a010203 none table ≡ some e)
    × In e table
    × (applies 0x0a010203 e ≡ true)
    × (8 ≤ e.prefix_length)
best_route_lem_example = best_route_lem 0x0a010203 table wide (inl refl) applies-wide
