-- ===== src/NetworkInterface/Cache.antt =====
-- What the cache of addresses and the pending requests make of a datagram.
use computer_network.Base.{
  ℕ, ◌+◌, ◌≤◌, ◌<◌, ◌≡◌, refl, ap, ◌∙◌, subst, true, Option, none, some, List, [], ◌∷◌, ◌^◌, ◌%◌,
  Bool-cases, inl, inr, ltb, ◌==◌, if◌then◌else◌, returned, threw, Outcome, arith, false, sym, ◌++◌,
  if_holds,
}
use computer_network.Base.Dictionary.{find, erase, find-assign, find-erase}
use computer_network.Words.{add64}
use computer_network.Ipv4Datagram.{Ipv4Datagram}
use computer_network.EthernetHeader.{EthernetAddress}
use computer_network.NetworkInterface.{
  NetworkInterface, update_ip_ethernet_cache, cached, requested, send_datagram, tick, unexpired,
  expire, block, then_block, push_frame, send_arp_message, arp_message,
}
use computer_network.EthernetHeader.{EthernetFrame, type_arp, ethernet_broadcast}
use computer_network.ArpMessage.{opcode_request}
use computer_network.ArpMessage

-- What a message says about an address is what is found for it from then on; for any other address
-- the same is found as before.
cached-update_ip_ethernet_cache :
    (ip j : ℕ) (ethernet : EthernetAddress) (n : NetworkInterface)
    → n.ms_since_running + 30000 < 2 ^ 64
    → cached j (update_ip_ethernet_cache ip ethernet n)
      ≡ (if ip == j then some ethernet else cached j n)
unfolding cached update_ip_ethernet_cache unexpired add64
cached-update_ip_ethernet_cache ip j ethernet n h =
    rw
      (
        find-assign ip j ethernet n.ip_ethernet_cache,
        find-assign ip j ((n.ms_since_running + 30000) % 2 ^ 64) n.ip_expire_time,
      )
      (ground arith)

-- Every key has one entry.
abbrev pub IsMap : {V : Type 0} → List (ℕ × V) → Type 0
IsMap [] = Unit {0}
IsMap ((k, v) ∷ m) = (find k m ≡ none) × IsMap m

-- What is left of an expiry time.
kept : ℕ → Option ℕ → Option ℕ
kept now none = none
kept now (some time) = if ltb time now then none else some time

find-expire-none :
    (now j : ℕ) (m : List (ℕ × ℕ)) (cache : List (ℕ × EthernetAddress))
    → find j m ≡ none
    → find j (expire now m cache).0 ≡ none
unfolding find expire
find-expire-none now j [] cache h = refl
find-expire-none now j ((ip, time) ∷ m) cache h =
    ground (arith, find-expire-none now j m cache, find-expire-none now j m (erase ip cache))

find-expire :
    (now j : ℕ) (m : List (ℕ × ℕ)) (cache : List (ℕ × EthernetAddress))
    → IsMap m
    → find j (expire now m cache).0 ≡ kept now (find j m)
unfolding find expire kept
find-expire now j [] cache h = refl
find-expire now j ((ip, time) ∷ m) cache h =
    let same : ip ≡ j → find j m ≡ none = λ e. subst (λ k. find k m ≡ none) e h.0 in
    ground (arith, find-expire now j m cache h.1, find-expire now j m (erase ip cache) h.1, same)

-- An address whose expiry time stays keeps its entry.
find-expire_cache :
    (now j : ℕ) (m : List (ℕ × ℕ)) (cache : List (ℕ × EthernetAddress))
    → IsMap m
    → kept now (find j m) ≡ find j m
    → find j (expire now m cache).1 ≡ find j cache
unfolding find expire kept
find-expire_cache now j [] cache h u = refl
find-expire_cache now j ((ip, time) ∷ m) cache h u = elim (Bool-cases (ltb time now)) [
  | inl gone ↦ elim (Bool-cases (ip == j)) [
    | inl same ↦ absurd (ground arith)
    | inr other ↦
        let stays : kept now (find j m) ≡ find j m = ground arith in
        rw gone (
          find-expire_cache now j m (erase ip cache) h.1 stays
          ∙ find-erase ip j cache
          ∙ ap (λ b. if b then none else find j cache) other)
  ]
  | inr stays ↦ elim (Bool-cases (ip == j)) [
    | inl same ↦
        let nothing : find j m ≡ none = subst (λ k. find k m ≡ none) (grind arith) h.0 in
        rw stays (find-expire_cache now j m cache h.1 (ground (arith, nothing)))
    | inr other ↦ rw stays (find-expire_cache now j m cache h.1 (ground arith))
  ]
]

kept-unexpired : (now : ℕ) (time : Option ℕ) → unexpired now time ≡ true → kept now time ≡ time
unfolding kept unexpired
kept-unexpired now none u = refl
kept-unexpired now (some time) u = ground arith

unexpired-kept : (now : ℕ) (time : Option ℕ) → unexpired now (kept now time) ≡ unexpired now time
unfolding kept unexpired
unexpired-kept now none = refl
unexpired-kept now (some time) = ground arith

unexpired_earlier :
    (early now : ℕ) (time : Option ℕ)
    → early ≤ now
    → unexpired now time ≡ true
    → unexpired early time ≡ true
unfolding unexpired
unexpired_earlier early now none l u = u
unexpired_earlier early now (some time) l u = ground arith

-- As time passes an address is found until its expiry time, as before, and not after it, while the
-- expiry times have one entry each.
cached-tick :
    (ms_since_last_tick ip : ℕ) (n : NetworkInterface)
    → n.ms_since_running + ms_since_last_tick < 2 ^ 64
    → IsMap n.ip_expire_time
    → cached ip (tick ms_since_last_tick n) ≡ (
        if unexpired (n.ms_since_running + ms_since_last_tick) (find ip n.ip_expire_time)
        then cached ip n
        else none)
unfolding cached tick unexpired add64
cached-tick ms_since_last_tick ip n h m =
    let now = n.ms_since_running + ms_since_last_tick in
    let small : now % 2 ^ 64 ≡ now = omega arith in
    let times = n.ip_expire_time in
    rw (small, find-expire now ip times n.ip_ethernet_cache m, unexpired-kept now (find ip times))
      (elim (Bool-cases (unexpired now (find ip times))) [
        | inl e ↦
            rw (e, unexpired_earlier n.ms_since_running now (find ip times) (omega arith) e)
              (find-expire_cache now ip times n.ip_ethernet_cache m
                (kept-unexpired now (find ip times) e))
        | inr e ↦ rw e refl
      ])

sent_to : Outcome NetworkInterface → NetworkInterface
sent_to (returned n) = n
sent_to (threw n) = n

-- The interface once a datagram has begun to wait, whatever frame the request went out in.
waits :
    (written : Option (List ℕ)) (ip : ℕ) (dgram : Ipv4Datagram) (n n' : NetworkInterface)
    → then_block ip dgram (push_frame written type_arp ethernet_broadcast n) ≡ returned n'
    → (frames : List EthernetFrame) × (n' ≡ block ip dgram (record n { frames_out = frames }))
unfolding then_block push_frame sent_to
waits none ip dgram n n' e = absurd (ground arith)
waits (some payload) ip dgram n n' e = (_, sym (ap sent_to e))

send_datagram-waits :
    (ip : ℕ) (dgram : Ipv4Datagram) (n n' : NetworkInterface)
    → cached ip n ≡ none
    → requested ip n ≡ false
    → send_datagram dgram ip n ≡ returned n'
    → (frames : List EthernetFrame) × (n' ≡ block ip dgram (record n { frames_out = frames }))
unfolding send_datagram send_arp_message
send_datagram-waits ip dgram n n' unknown quiet e =
    waits (ArpMessage.serialize (arp_message ip ethernet_broadcast opcode_request n)) ip dgram n n'
      (rw (unknown, quiet, send_datagram) at e)

send_datagram-requested :
    (dgram : Ipv4Datagram) (ip : ℕ) (n : NetworkInterface)
    → cached ip n ≡ none
    → requested ip n ≡ true
    → send_datagram dgram ip n ≡ returned n
unfolding send_datagram
send_datagram-requested dgram ip n h k = ground arith

still_unknown :
    (ip : ℕ) (dgram : Ipv4Datagram) (frames : List EthernetFrame) (ms : ℕ) (n : NetworkInterface)
    → n.ms_since_running + ms < 2 ^ 64
    → IsMap n.ip_expire_time
    → cached ip n ≡ none
    → cached ip (tick ms (block ip dgram (record n { frames_out = frames }))) ≡ none
unfolding block cached
still_unknown ip dgram frames ms n h m unknown =
    let n1 = block ip dgram (record n { frames_out = frames }) in
    let same : cached ip n1 ≡ none = unknown in
    cached-tick ms ip n1 h m
    ∙ if_holds (λ o. o ≡ none) (unexpired (n.ms_since_running + ms) (find ip n.ip_expire_time))
        (λ _. same) (λ _. refl)

still_requested :
    (ip : ℕ) (dgram : Ipv4Datagram) (frames : List EthernetFrame) (ms : ℕ) (n : NetworkInterface)
    → n.ms_since_running + 5000 < 2 ^ 64
    → ms ≤ 5000
    → requested ip (tick ms (block ip dgram (record n { frames_out = frames }))) ≡ true
unfolding requested tick block unexpired add64
still_requested ip dgram frames ms n h l =
    rw (find-assign ip ip ((n.ms_since_running + 5000) % 2 ^ 64) n.arp_expire_time) (ground arith)

-- Where neither the address nor a request for it is known, and sending a datagram does not throw, that
-- datagram waits at the end of the queue; and each datagram for the same address that is sent when a
-- tick of up to five seconds has passed is lost: the interface stays as it was. The expiry times have
-- one entry each, and the clock stays below 2^64.
pub send_datagram-lost :
    (ip : ℕ) (dgram : Ipv4Datagram) (n n' : NetworkInterface)
    → n.ms_since_running + 5000 < 2 ^ 64
    → IsMap n.ip_expire_time
    → cached ip n ≡ none
    → requested ip n ≡ false
    → send_datagram dgram ip n ≡ returned n'
    → (n'.blocked_ip_datagram ≡ n.blocked_ip_datagram ++ (ip, dgram) ∷ [])
      × ((later : Ipv4Datagram) (ms : ℕ)
          → ms ≤ 5000
          → send_datagram later ip (tick ms n') ≡ returned (tick ms n'))
unfolding block
send_datagram-lost ip dgram n n' h m unknown quiet e =
    let (frames, same) = send_datagram-waits ip dgram n n' unknown quiet e in
    let n1 = block ip dgram (record n { frames_out = frames }) in
    (
      ap (λ k. k.blocked_ip_datagram) same,
      λ later ms l. rw same (
          send_datagram-requested later ip (tick ms n1)
            (still_unknown ip dgram frames ms n (omega arith) m unknown)
            (still_requested ip dgram frames ms n h l)),
    )
