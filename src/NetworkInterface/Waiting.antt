-- ===== src/NetworkInterface/Waiting.antt =====
-- The datagrams that wait for an address, when a reply comes.
use computer_network.Base.{
  ℕ, ◌≡◌, refl, sym, ap, ap₂, ◌∙◌, true, Option, none, some, List, [], ◌∷◌, ◌++◌, append_assoc,
  append-nil, All, Outcome, returned, arith,
}
use computer_network.NetParser.{no_error}
use computer_network.Ipv4Datagram.{Ipv4Datagram}
use computer_network.Ipv4Datagram
use computer_network.EthernetHeader.{
  EthernetAddress, EthernetFrame, same_address, type_ipv4, type_arp,
}
use computer_network.ArpMessage.{ArpMessage, opcode_reply}
use computer_network.ArpMessage
use computer_network.NetworkInterface.{
  NetworkInterface, push_frame, send_ip_dgram, cached, send_blocked, update_ip_ethernet_cache,
  receive_arp, parsed_arp, recv_frame,
}

bytes_or_none : Option (List ℕ) → List ℕ
bytes_or_none none = []
bytes_or_none (some bytes) = bytes

-- The frame that carries a datagram to an address.
unfoldable pub frame_to : EthernetAddress → Ipv4Datagram → NetworkInterface → EthernetFrame
unfolding bytes_or_none
frame_to target dgram n = record {
  header = record { dst = target; src = n.ethernet_address; frame_type = type_ipv4 };
  payload = bytes_or_none (Ipv4Datagram.serialize dgram);
}

-- The frames for the datagrams before the first whose address is not known, and what waits from it on.
unfoldable pub frames_for : List (ℕ × Ipv4Datagram) → NetworkInterface → List EthernetFrame
unfolding frame_to
frames_for [] n = []
frames_for ((ip, dgram) ∷ queue) n =
    let rest = frames_for queue n in
    elim (cached ip n) [ none ↦ [] | some target ↦ frame_to target dgram n ∷ rest ]

unfoldable pub still_waiting : List (ℕ × Ipv4Datagram) → NetworkInterface → List (ℕ × Ipv4Datagram)
still_waiting [] n = []
still_waiting ((ip, dgram) ∷ queue) n =
    let rest = still_waiting queue n in
    elim (cached ip n) [ none ↦ (ip, dgram) ∷ queue | some target ↦ rest ]

-- A datagram that can be written.
abbrev pub CanBeSent : ℕ × Ipv4Datagram → Type 0
CanBeSent (ip, dgram) = (bytes : List ℕ) × (Ipv4Datagram.serialize dgram ≡ some bytes)

-- The frames and the queue are not what an address is looked up in.
abbrev with_queues :
    List EthernetFrame → List (ℕ × Ipv4Datagram) → NetworkInterface → NetworkInterface
with_queues frames queue n = record n { frames_out = frames; blocked_ip_datagram = queue }

same-frames_for :
    (frames : List EthernetFrame) (blocked queue : List (ℕ × Ipv4Datagram)) (n : NetworkInterface)
    → (frames_for queue (with_queues frames blocked n) ≡ frames_for queue n)
      × (still_waiting queue (with_queues frames blocked n) ≡ still_waiting queue n)
unfolding frames_for still_waiting cached frame_to
same-frames_for frames blocked [] n = (refl, refl)
same-frames_for frames blocked ((ip, dgram) ∷ queue) n =
    let (a, b) = same-frames_for frames blocked queue n in (ground (arith, a), ground (arith, b))

send_ip_dgram_lem :
    (dgram : Ipv4Datagram) (bytes : List ℕ) (target : EthernetAddress) (n : NetworkInterface)
    → Ipv4Datagram.serialize dgram ≡ some bytes
    → send_ip_dgram dgram target n
      ≡ returned (record n { frames_out = n.frames_out ++ frame_to target dgram n ∷ [] })
unfolding send_ip_dgram push_frame frame_to
send_ip_dgram_lem dgram bytes target n e = rw e refl

nothing_blocked :
    (n : NetworkInterface)
    → send_blocked [] n
      ≡ returned (with_queues (n.frames_out ++ frames_for [] n) (still_waiting [] n) n)
unfolding send_blocked frames_for still_waiting
nothing_blocked n = ap (λ l. returned (with_queues l [] n)) (sym (append-nil n.frames_out))

-- The front of the queue, by what is found for its address.
front_lem :
    (found : Option EthernetAddress) (ip : ℕ) (dgram : Ipv4Datagram)
    (queue : List (ℕ × Ipv4Datagram)) (bytes : List ℕ) (n : NetworkInterface)
    → cached ip n ≡ found
    → Ipv4Datagram.serialize dgram ≡ some bytes
    → ((m : NetworkInterface)
        → send_blocked queue m
          ≡ returned (with_queues (m.frames_out ++ frames_for queue m) (still_waiting queue m) m))
    → send_blocked ((ip, dgram) ∷ queue) n
      ≡ returned (
          with_queues
            (n.frames_out ++ frames_for ((ip, dgram) ∷ queue) n)
            (still_waiting ((ip, dgram) ∷ queue) n)
            n)
unfolding send_blocked frames_for still_waiting
front_lem none ip dgram queue bytes n e written rest =
    rw (e, send_blocked, frames_for, still_waiting)
      (ap (λ l. returned (with_queues l ((ip, dgram) ∷ queue) n)) (sym (append-nil n.frames_out)))
front_lem (some target) ip dgram queue bytes n e written rest =
    let blocked = (ip, dgram) ∷ queue in
    let sent = n.frames_out ++ frame_to target dgram n ∷ [] in
    let (a, b) = same-frames_for sent blocked queue n in
    let one = send_ip_dgram_lem dgram bytes target (with_queues n.frames_out blocked n) written in
    let after = rest (with_queues sent blocked n) in
    rw (e, send_blocked, frames_for, still_waiting, one)
      (after
        ∙ ap₂ (λ l q. returned (with_queues l q n))
            (ap (λ l. sent ++ l) a
              ∙ append_assoc n.frames_out (frame_to target dgram n ∷ []) (frames_for queue n))
            b)

send_blocked_lem :
    (queue : List (ℕ × Ipv4Datagram)) (n : NetworkInterface)
    → All CanBeSent queue
    → send_blocked queue n
      ≡ returned (with_queues (n.frames_out ++ frames_for queue n) (still_waiting queue n) n)
send_blocked_lem [] n h = nothing_blocked n
send_blocked_lem ((ip, dgram) ∷ queue) n h =
    front_lem (cached ip n) ip dgram queue h.0.0 n refl h.0.1 (λ m. send_blocked_lem queue m h.1)

abbrev nothing_with : Outcome NetworkInterface → Option Ipv4Datagram × Outcome NetworkInterface
nothing_with o = (none, o)

-- Once an ARP reply with an address has come in a frame for this interface, each waiting datagram is
-- sent in a frame to the address that is known for its next hop, in order, up to the first datagram
-- whose address is not known; that one and those behind it go on waiting, and nothing is thrown, when
-- every waiting datagram can be written.
pub recv_frame-reply :
    (frame : EthernetFrame) (m : ArpMessage) (n : NetworkInterface)
    → same_address frame.header.dst n.ethernet_address ≡ true
    → frame.header.frame_type ≡ type_arp
    → ArpMessage.parse ArpMessage.init frame.payload ≡ (m, no_error)
    → m.opcode ≡ opcode_reply
    → All CanBeSent n.blocked_ip_datagram
    → (let learned = update_ip_ethernet_cache m.sender_ip_address m.sender_ethernet_address n in
        let queue = n.blocked_ip_datagram in
        recv_frame frame n ≡ (
          none,
          returned (record learned {
            frames_out = n.frames_out ++ frames_for queue learned;
            blocked_ip_datagram = still_waiting queue learned;
          }),
        ))
unfolding recv_frame parsed_arp receive_arp update_ip_ethernet_cache
recv_frame-reply frame m n us arp parsed reply h =
    let learned = update_ip_ethernet_cache m.sender_ip_address m.sender_ethernet_address n in
    let all = send_blocked_lem n.blocked_ip_datagram learned h in
    rw (us, arp, parsed, reply) (ap (λ o. nothing_with o) all)
