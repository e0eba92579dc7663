-- ===== src/Router.antt =====
-- libsponge/router.hh and router.cc: longest-prefix routing between network interfaces.
pub mod Runs
pub mod LongestPrefix
use computer_network.Base.{
  ℕ, zero, suc, ◌+◌, ◌-◌, ◌*◌, ◌%◌, ◌^◌, Bool, true, false, not, ◌&&◌, ◌||◌, Option, none, some,
  List, [], ◌∷◌, ◌++◌, length, get_elem?, ltb, leb, ◌==◌, if◌then◌else◌, bit_and, Outcome, returned,
  threw, state_after,
}
use computer_network.Ipv4Datagram.{Ipv4Datagram}
use computer_network.EthernetHeader.{EthernetFrame}
use computer_network.NetworkInterface.{NetworkInterface}
use computer_network.NetworkInterface

pub record AsyncNetworkInterface : Type 0 where
  pub base : NetworkInterface
  pub datagrams_out : List Ipv4Datagram

received : Option Ipv4Datagram → List Ipv4Datagram
received none = []
received (some d) = d ∷ []

in_base : AsyncNetworkInterface → Outcome NetworkInterface → Outcome AsyncNetworkInterface
in_base a (returned n) = returned (record a { base = n })
in_base a (threw n) = threw (record a { base = n })

unfoldable pub recv_frame : EthernetFrame → AsyncNetworkInterface → Outcome AsyncNetworkInterface
unfolding received in_base
recv_frame frame a =
    let (dgram, n) = NetworkInterface.recv_frame frame a.base in
    in_base (record a { datagrams_out = a.datagrams_out ++ received dgram }) n

-- The key is the prefix length and the prefix; the value is the interface and the next hop.
pub record Route : Type 0 where
  pub prefix_length : ℕ
  pub route_prefix : ℕ
  pub interface_num : ℕ
  pub next_hop : Option ℕ

pub record Router : Type 0 where
  pub interfaces : List AsyncNetworkInterface
  pub forwarding_table : List Route

unfoldable pub init : Router
init = record { interfaces = []; forwarding_table = [] }

unfoldable pub add_interface : AsyncNetworkInterface → Router → ℕ × Router
add_interface a r = (length r.interfaces, record r { interfaces = r.interfaces ++ a ∷ [] })

-- `ModCmp`: the longer prefix first, then the greater one.
unfoldable pub mod_cmp : Route → Route → Bool
mod_cmp a c =
    if not (a.prefix_length == c.prefix_length)
    then ltb c.prefix_length a.prefix_length
    else ltb c.route_prefix a.route_prefix

-- `std::map::emplace` in the order of `ModCmp`: a key that is there keeps its value.
unfoldable pub emplace : Route → List Route → List Route
unfolding mod_cmp
emplace a [] = a ∷ []
emplace a (c ∷ table) =
    if mod_cmp a c then a ∷ c ∷ table else if mod_cmp c a then c ∷ emplace a table else c ∷ table

unfoldable pub add_route : ℕ → ℕ → Option ℕ → ℕ → Router → Router
unfolding emplace
add_route route_prefix prefix_length next_hop interface_num r =
    let route : Route = record {
      prefix_length = prefix_length;
      route_prefix = route_prefix;
      interface_num = interface_num;
      next_hop = next_hop;
    } in
    record r { forwarding_table = emplace route r.forwarding_table }

-- `match_function`, for prefix lengths up to 32.
unfoldable pub matches : ℕ → Route → Bool
matches ip route =
    let postfix_length = 32 - route.prefix_length in
    let mask = 0xffffffff * 2 ^ postfix_length % 2 ^ 32 in
    if postfix_length == 32
    then true
    else if postfix_length == 0
    then route.route_prefix == ip
    else bit_and route.route_prefix mask == bit_and ip mask

-- `find_if` over the table.
unfoldable pub find_route : ℕ → List Route → Option Route
unfolding matches
find_route ip [] = none
find_route ip (route ∷ table) = if matches ip route then some route else find_route ip table

-- `interface(n).send_datagram(…)`: out of range `at` throws, and nothing changes.
send_at : ℕ → Ipv4Datagram → ℕ → List AsyncNetworkInterface → Outcome (List AsyncNetworkInterface)
unfolding in_base
send_at n dgram hop [] = threw []
send_at zero dgram hop (a ∷ rest) = elim (NetworkInterface.send_datagram dgram hop a.base) [
  | returned b ↦ returned (record a { base = b } ∷ rest)
  | threw b ↦ threw (record a { base = b } ∷ rest)
]
send_at (suc n) dgram hop (a ∷ rest) = elim (send_at n dgram hop rest) [
  | returned rest' ↦ returned (a ∷ rest')
  | threw rest' ↦ threw (a ∷ rest')
]

in_router : Router → Outcome (List AsyncNetworkInterface) → Outcome Router
in_router r (returned is) = returned (record r { interfaces = is })
in_router r (threw is) = threw (record r { interfaces = is })

hop_of : Option ℕ → ℕ → ℕ
hop_of none dst = dst
hop_of (some hop) dst = hop

forward : Option Route → Ipv4Datagram → Router → Outcome Router
unfolding in_router hop_of send_at
forward none dgram r = returned r
forward (some route) dgram r =
    in_router r
      (send_at route.interface_num dgram (hop_of route.next_hop dgram.header.dst) r.interfaces)

-- The datagram with its time to live counted down.
abbrev pub hopped : Ipv4Datagram → Ipv4Datagram
hopped dgram = record dgram { header = record dgram.header { ttl = dgram.header.ttl - 1 } }

unfoldable pub route_one_datagram : Ipv4Datagram → Router → Outcome Router
unfolding forward
route_one_datagram dgram r =
    if leb dgram.header.ttl 1
    then returned r
    else forward (find_route dgram.header.dst r.forwarding_table) (hopped dgram) r

set_queue : ℕ → List Ipv4Datagram → List AsyncNetworkInterface → List AsyncNetworkInterface
set_queue n queue [] = []
set_queue zero queue (a ∷ rest) = record a { datagrams_out = queue } ∷ rest
set_queue (suc n) queue (a ∷ rest) = a ∷ set_queue n queue rest

-- The loop over the queue of interface `n`; an exception comes after the count down and
-- leaves its datagram on the queue.
route_queue : ℕ → List Ipv4Datagram → Router → Outcome Router
unfolding route_one_datagram set_queue
route_queue n [] r = returned (record r { interfaces = set_queue n [] r.interfaces })
route_queue n (dgram ∷ queue) r =
    let r' = record r { interfaces = set_queue n (dgram ∷ queue) r.interfaces } in
    elim (route_one_datagram dgram r') [
      | threw r'' ↦
          threw (record r'' { interfaces = set_queue n (hopped dgram ∷ queue) r''.interfaces })
      | returned r'' ↦ route_queue n queue r''
    ]

queue_of : Option AsyncNetworkInterface → List Ipv4Datagram
queue_of none = []
queue_of (some a) = a.datagrams_out

-- The loop over the interfaces from number `n` on; sending puts nothing on a queue of datagrams.
route_from : ℕ → ℕ → Router → Outcome Router
unfolding route_queue queue_of
route_from zero n r = returned r
route_from (suc left) n r = elim (route_queue n (queue_of (get_elem? r.interfaces n)) r) [
  | threw r' ↦ threw r'
  | returned r' ↦ route_from left (n + 1) r'
]

unfoldable pub route : Router → Outcome Router
unfolding route_from
route r = route_from (length r.interfaces) 0 r
