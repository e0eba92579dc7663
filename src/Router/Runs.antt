-- ===== src/Router/Runs.antt =====
-- A table of three routes.
use computer_network.Base.{
  ℕ, ◌==◌, ◌&&◌, if◌then◌else◌, ◌-◌, ◌≡◌, ◌^◌, ◌/◌, ◌%◌, ◌↔◌, refl, true, some, none, [], ◌∷◌,
  arith,
}
use computer_network.Router.{Route, Router, add_route, matches, find_route, mod_cmp}
use computer_network.Router.LongestPrefix.{
  IsOrdered, Longest, find_key, or_new, add_route-find_key, find_route-Longest, matches_iff,
}

-- 10.0.0.0/8, 10.1.0.0/16 and the default route.
abbrev far : Route
far = record { prefix_length = 8; route_prefix = 0x0a00_0000; interface_num = 0; next_hop = none }

abbrev near : Route
near = record { prefix_length = 16; route_prefix = 0x0a01_0000; interface_num = 1; next_hop = none }

abbrev wide : Route
wide = record {
  prefix_length = 0;
  route_prefix = 0;
  interface_num = 2;
  next_hop = some 0x0a00_0001;
}

abbrev routed : Router
routed = record { interfaces = []; forwarding_table = near ∷ far ∷ wide ∷ [] }

routed-IsOrdered : IsOrdered routed.forwarding_table
unfolding mod_cmp
routed-IsOrdered = ((refl, (refl, tt)), ((refl, tt), (tt, tt)))

abbrev added : Route
added = record {
  prefix_length = 24;
  route_prefix = 0x0a01_0100;
  interface_num = 3;
  next_hop = none;
}

add_route-find_key_example :
    IsOrdered (add_route 0x0a01_0100 24 none 3 routed).forwarding_table
    × ((l p : ℕ)
        → find_key l p (add_route 0x0a01_0100 24 none 3 routed).forwarding_table ≡ (
            if (24 == l) && (0x0a01_0100 == p)
            then some (or_new added (find_key l p routed.forwarding_table))
            else find_key l p routed.forwarding_table))
add_route-find_key_example = add_route-find_key 0x0a01_0100 24 none 3 routed routed-IsOrdered

find_route-Longest_example :
    (matches 0x0a01_0203 near ≡ true) × Longest 0x0a01_0203 near routed.forwarding_table
unfolding find_route matches
find_route-Longest_example =
    find_route-Longest 0x0a01_0203 routed.forwarding_table near routed-IsOrdered refl

matches_iff_example :
    (matches 0x0a01_0203 near ≡ true)
    ↔ (near.route_prefix / 2 ^ (32 - 16) % 2 ^ 16 ≡ 0x0a01_0203 / 2 ^ (32 - 16) % 2 ^ 16)
matches_iff_example = matches_iff 0x0a01_0203 near (omega arith) (omega arith) (omega arith)
