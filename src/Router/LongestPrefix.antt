-- ===== src/Router/LongestPrefix.antt =====
-- The order of the forwarding table, and the match of a prefix.
use computer_network.Base.{
  ℕ, ◌+◌, ◌-◌, ◌*◌, ◌/◌, ◌%◌, ◌^◌, ◌≤◌, ◌<◌, ◌≡◌, ◌↔◌, inl, inr, refl, sym, ap, ◌∙◌, true, false,
  Option, none, some, List, [], ◌∷◌, All, ◌==◌, ◌&&◌, if◌then◌else◌, bit_and, Bool-cases, arith,
}
use native.Mathlib.Nat.{le_refl, mul_comm, mul-sub, mul-div_cancel, pow-le-pow_right}
use mathlib.Core.Path.{subst}
use computer_network.Base.Bits.{bit_and-high, pow_pos, pow-add}
use computer_network.Router.{Route, Router, mod_cmp, emplace, add_route, matches, find_route}

-- Every later route comes after `a` in the order of the table.
abbrev pub Below : Route → List Route → Type 0
Below a table = All (λ c. mod_cmp a c ≡ true) table

abbrev pub IsOrdered : List Route → Type 0
IsOrdered [] = Unit {0}
IsOrdered (a ∷ table) = Below a table × IsOrdered table

mod_cmp_trans : (a b c : Route) → mod_cmp a b ≡ true → mod_cmp b c ≡ true → mod_cmp a c ≡ true
unfolding mod_cmp
mod_cmp_trans a b c h k = ground arith

Below-trans :
    (a b : Route) (table : List Route) → mod_cmp a b ≡ true → Below b table → Below a table
Below-trans a b [] h k = tt
Below-trans a b (c ∷ table) h k = (mod_cmp_trans a b c h k.0, Below-trans a b table h k.1)

Below-emplace :
    (a b : Route) (table : List Route)
    → mod_cmp a b ≡ true
    → Below a table
    → Below a (emplace b table)
unfolding emplace
Below-emplace a b [] h k = (h, tt)
Below-emplace a b (c ∷ table) h k = ground (arith, Below-emplace a b table h k.1)

emplace-IsOrdered : (a : Route) (table : List Route) → IsOrdered table → IsOrdered (emplace a table)
unfolding emplace
emplace-IsOrdered a [] o = (tt, tt)
emplace-IsOrdered a (c ∷ table) o = elim (Bool-cases (mod_cmp a c)) [
  | inl e ↦ rw e ((e, Below-trans a c table e o.0), o)
  | inr e ↦ elim (Bool-cases (mod_cmp c a)) [
    | inl e' ↦ rw (e, e') (Below-emplace c a table e' o.0, emplace-IsOrdered a table o.1)
    | inr e' ↦ rw (e, e') o
  ]
]

-- The route that a table has for a prefix length and a prefix.
unfoldable pub find_key : ℕ → ℕ → List Route → Option Route
find_key prefix_length route_prefix [] = none
find_key prefix_length route_prefix (c ∷ table) =
    if (c.prefix_length == prefix_length) && (c.route_prefix == route_prefix)
    then some c
    else find_key prefix_length route_prefix table

-- What is kept where a route is added: the one that is there, or else the new one.
abbrev pub or_new : Route → Option Route → Route
or_new new none = new
or_new new (some old) = old

find_key-Below :
    (a : Route) (table : List Route)
    → Below a table
    → find_key a.prefix_length a.route_prefix table ≡ none
unfolding find_key mod_cmp
find_key-Below a [] h = refl
find_key-Below a (c ∷ table) h = ground (arith, find_key-Below a table h.1)

same_key :
    (a : Route) (l p : ℕ) (table : List Route)
    → ((a.prefix_length == l) && (a.route_prefix == p)) ≡ true
    → find_key a.prefix_length a.route_prefix table ≡ none
    → find_key l p table ≡ none
same_key a l p table here h =
    let length_same : a.prefix_length ≡ l = ground arith in
    let prefix_same : a.route_prefix ≡ p = ground arith in rw (sym length_same, sym prefix_same) h

find_key-emplace :
    (a : Route) (l p : ℕ) (table : List Route)
    → IsOrdered table
    → find_key l p (emplace a table) ≡ (
        if (a.prefix_length == l) && (a.route_prefix == p)
        then some (or_new a (find_key l p table))
        else find_key l p table)
unfolding find_key emplace mod_cmp
find_key-emplace a l p [] o = ground arith
find_key-emplace a l p (c ∷ table) o =
    let again = find_key-emplace a l p table o.1 in
    elim (Bool-cases (mod_cmp a c)) [
      | inl e ↦
          let absent = find_key-Below a (c ∷ table) (e, Below-trans a c table e o.0) in
          elim (Bool-cases ((a.prefix_length == l) && (a.route_prefix == p))) [
            | inl here ↦
                let gone : find_key l p (c ∷ table) ≡ none =
                  same_key a l p (c ∷ table) here absent in
                rw (e, here, gone) refl
            | inr other ↦ rw (e, other) refl
          ]
      | inr e ↦ elim (Bool-cases (mod_cmp c a)) [
        | inl e' ↦ rw (e, e') (ground (arith, again, e, e'))
        | inr e' ↦ rw (e, e') (ground (arith, e, e'))
      ]
    ]

-- Adding a route to a table in its order keeps the order, and the table has what it had for every
-- other prefix; for this one it has the route that was there, and the new one where none was.
pub add_route-find_key :
    (route_prefix prefix_length : ℕ) (next_hop : Option ℕ) (interface_num : ℕ) (r : Router)
    → IsOrdered r.forwarding_table
    → (let route : Route = record {
      prefix_length = prefix_length;
      route_prefix = route_prefix;
      interface_num = interface_num;
      next_hop = next_hop;
    } in
        let table =
          (add_route route_prefix prefix_length next_hop interface_num r).forwarding_table in
        IsOrdered table
        × ((l p : ℕ)
            → find_key l p table ≡ (
                if (prefix_length == l) && (route_prefix == p)
                then some (or_new route (find_key l p r.forwarding_table))
                else find_key l p r.forwarding_table)))
unfolding add_route
add_route-find_key route_prefix prefix_length next_hop interface_num r o =
    (emplace-IsOrdered _ r.forwarding_table o, λ l p. find_key-emplace _ l p r.forwarding_table o)

shorter : (a c : Route) → mod_cmp a c ≡ true → c.prefix_length ≤ a.prefix_length
unfolding mod_cmp
shorter a c h = ground arith

-- No route of the table that matches has a longer prefix than `best`.
abbrev pub Longest : ℕ → Route → List Route → Type 0
Longest ip best table = All (λ c. matches ip c ≡ true → c.prefix_length ≤ best.prefix_length) table

Below-Longest : (ip : ℕ) (a : Route) (table : List Route) → Below a table → Longest ip a table
Below-Longest ip a [] h = tt
Below-Longest ip a (c ∷ table) h = (λ _. shorter a c h.0, Below-Longest ip a table h.1)

Longest-here :
    (ip : ℕ) (a best : Route) (table : List Route)
    → a ≡ best
    → matches ip a ≡ true
    → Below a table
    → (matches ip best ≡ true) × Longest ip best (a ∷ table)
Longest-here ip a best table here m h =
    subst (λ b. (matches ip b ≡ true) × Longest ip b (a ∷ table)) here
      (m, ((λ _. le_refl a.prefix_length), Below-Longest ip a table h))

-- A route found in a table in order matches, and no route that matches has a longer prefix.
pub find_route-Longest :
    (ip : ℕ) (table : List Route) (best : Route)
    → IsOrdered table
    → find_route ip table ≡ some best
    → (matches ip best ≡ true) × Longest ip best table
unfolding find_route
find_route-Longest ip [] best o e = cc
find_route-Longest ip (a ∷ table) best o e = elim (Bool-cases (matches ip a)) [
  | inl m ↦ let here : a ≡ best = ground arith in Longest-here ip a best table here m o.0
  | inr m ↦
      let (found, longest) = find_route-Longest ip table best o.1 (ground arith) in
      (found, ((λ h. absurd (ground arith)), longest))
]

-- Where nothing is found no route matches.
pub find_route-none :
    (ip : ℕ) (table : List Route)
    → find_route ip table ≡ none
    → All (λ c. matches ip c ≡ false) table
unfolding find_route
find_route-none ip [] e = tt
find_route-none ip (a ∷ table) e = ground (arith, find_route-none ip table)

mask_lem : (w q : ℕ) → 0 < q → w * q ≡ 2 ^ 32 → q ≤ 2 ^ 32 → 0xffffffff * q % 2 ^ 32 ≡ (w - 1) * q
mask_lem w q h e l =
    let cut : (w - 1) * q ≡ w * q - q =
      mul_comm (w - 1) q ∙ mul-sub q w 1 ∙ ap (λ n. n - q * 1) (mul_comm q w) ∙ omega arith in
    omega (arith, e, cut)

-- The mask of `match_function` has its ones at the digits from `32 - prefix_length` on.
mask-high : (p : ℕ) → p ≤ 32 → 0xffffffff * 2 ^ p % 2 ^ 32 ≡ (2 ^ (32 - p) - 1) * 2 ^ p
mask-high p h =
    let back : 32 - p + p ≡ 32 = omega arith in
    let whole : 2 ^ (32 - p) * 2 ^ p ≡ 2 ^ 32 = sym (pow-add (32 - p) p) ∙ ap (λ n. 2 ^ n) back in
    mask_lem (2 ^ (32 - p)) (2 ^ p) (pow_pos p) whole (pow-le-pow_right {n = 2} (omega arith) h)

scale_inj : (u v q : ℕ) → 0 < q → u * q ≡ v * q → u ≡ v
scale_inj u v q h e = sym (mul-div_cancel u h) ∙ ap (λ n. n / q) e ∙ mul-div_cancel v h

same_high : (x y w q : ℕ) → 0 < q → (x / q % w * q == y / q % w * q) ≡ true ↔ x / q % w ≡ y / q % w
same_high x y w q h =
    ((λ e. scale_inj (x / q % w) (y / q % w) q h (grind arith)), (λ e. grind arith))

-- For a prefix and an address of 32 bits, a route matches exactly when their first `prefix_length`
-- bits agree.
pub matches_iff :
    (ip : ℕ) (route : Route)
    → ip < 2 ^ 32
    → route.route_prefix < 2 ^ 32
    → route.prefix_length ≤ 32
    → (matches ip route ≡ true) ↔ (
        route.route_prefix / 2 ^ (32 - route.prefix_length) % 2 ^ route.prefix_length
        ≡ ip / 2 ^ (32 - route.prefix_length) % 2 ^ route.prefix_length)
unfolding matches
matches_iff ip route h k l =
    let p = 32 - route.prefix_length in
    let cut : 32 - p ≡ route.prefix_length = omega arith in
    let masked : (x : ℕ)
        → bit_and x (0xffffffff * 2 ^ p % 2 ^ 32) ≡ x / 2 ^ p % 2 ^ route.prefix_length * 2 ^ p =
      λ x. rw (mask-high p (omega arith), bit_and-high p (32 - p) x, cut) refl in
    elim (Bool-cases (p == 32)) [
      | inl e ↦
          let short : route.prefix_length ≡ 0 = grind arith in
          rw (e, short) ((λ _. omega arith), (λ _. refl))
      | inr e ↦ elim (Bool-cases (p == 0)) [
        | inl e' ↦
            let long : route.prefix_length ≡ 32 = grind arith in
            rw (e, e', long) ((λ m. grind arith), (λ m. grind arith))
        | inr e' ↦
            rw (e, e', masked route.route_prefix, masked ip)
              (same_high route.route_prefix ip (2 ^ route.prefix_length) (2 ^ p) (pow_pos p))
      ]
    ]
