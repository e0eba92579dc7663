-- ===== src/NetworkInterface.antt =====
-- libsponge/network_interface.hh and network_interface.cc: Internet datagrams in Ethernet frames, with
-- the Address Resolution Protocol. Of an `Address` (util/address.hh) the code uses `ipv4_numeric()`
-- alone, and the model takes that number. A payload is one string, so that the exception of
-- `BufferList::operator Buffer` on several pieces does not show.
pub mod Runs
pub mod Cache
pub mod Waiting
use computer_network.Base.{
  ℕ, ◌+◌, Bool, true, false, not, ◌&&◌, ◌||◌, Option, none, some, List, [], ◌∷◌, ◌++◌, ltb, leb,
  ◌==◌, if◌then◌else◌, Outcome, returned, threw,
}
use computer_network.Base.Dictionary.{find, assign, erase}
use computer_network.Words.{add64}
use computer_network.NetParser.{ParseResult, is_error}
use computer_network.Ipv4Datagram.{Ipv4Datagram}
use computer_network.Ipv4Datagram
use computer_network.EthernetHeader.{
  EthernetAddress, EthernetFrame, ethernet_broadcast, same_address, type_ipv4, type_arp,
}
use computer_network.ArpMessage.{ArpMessage, opcode_request, opcode_reply}
use computer_network.ArpMessage

pub record NetworkInterface : Type 0 where
  pub ethernet_address : EthernetAddress
  pub ip_address : ℕ
  pub frames_out : List EthernetFrame
  pub ip_ethernet_cache : List (ℕ × EthernetAddress)
  pub ip_expire_time : List (ℕ × ℕ)
  pub arp_expire_time : List (ℕ × ℕ)
  pub blocked_ip_datagram : List (ℕ × Ipv4Datagram)
  pub ms_since_running : ℕ

unfoldable pub init : EthernetAddress → ℕ → NetworkInterface
init ethernet_address ip_address = record {
  ethernet_address = ethernet_address;
  ip_address = ip_address;
  frames_out = [];
  ip_ethernet_cache = [];
  ip_expire_time = [];
  arp_expire_time = [];
  blocked_ip_datagram = [];
  ms_since_running = 0;
}

-- A frame from this interface, put on the queue; `none` is the exception of `serialize`.
unfoldable pub push_frame :
    Option (List ℕ) → ℕ → EthernetAddress → NetworkInterface → Outcome NetworkInterface
push_frame none frame_type dst n = threw n
push_frame (some payload) frame_type dst n = returned (record n {
  frames_out =
      n.frames_out
      ++ record {
        header = record { dst = dst; src = n.ethernet_address; frame_type = frame_type };
        payload = payload;
      }
        ∷ [];
})

unfoldable pub arp_message : ℕ → EthernetAddress → ℕ → NetworkInterface → ArpMessage
arp_message target_ip target opcode n = record ArpMessage.init {
  sender_ethernet_address = n.ethernet_address;
  sender_ip_address = n.ip_address;
  target_ip_address = target_ip;
  target_ethernet_address =
      if opcode == opcode_reply then target else ArpMessage.init.target_ethernet_address;
  opcode = opcode;
}

unfoldable pub send_arp_message :
    ℕ → EthernetAddress → ℕ → NetworkInterface → Outcome NetworkInterface
unfolding push_frame arp_message
send_arp_message target_ip target opcode n =
    push_frame (ArpMessage.serialize (arp_message target_ip target opcode n)) type_arp target n

unfoldable pub send_ip_dgram :
    Ipv4Datagram → EthernetAddress → NetworkInterface → Outcome NetworkInterface
unfolding push_frame
send_ip_dgram dgram target n = push_frame (Ipv4Datagram.serialize dgram) type_ipv4 target n

unfoldable pub update_ip_ethernet_cache : ℕ → EthernetAddress → NetworkInterface → NetworkInterface
update_ip_ethernet_cache ip ethernet n = record n {
  ip_ethernet_cache = assign ip ethernet n.ip_ethernet_cache;
  ip_expire_time = assign ip (add64 n.ms_since_running 30000) n.ip_expire_time;
  arp_expire_time = erase ip n.arp_expire_time;
}

unfoldable pub unexpired : ℕ → Option ℕ → Bool
unexpired now none = false
unexpired now (some time) = leb now time

-- The cached address, if it is there and has not expired.
unfoldable pub cached : ℕ → NetworkInterface → Option EthernetAddress
unfolding unexpired
cached ip n =
    if unexpired n.ms_since_running (find ip n.ip_expire_time)
    then find ip n.ip_ethernet_cache
    else none

-- Whether a request for this address was sent less than five seconds ago. (The code compares the
-- iterator with the end of another map; the two ends are taken to be equal.)
unfoldable pub requested : ℕ → NetworkInterface → Bool
unfolding unexpired
requested ip n = unexpired n.ms_since_running (find ip n.arp_expire_time)

-- After the request is sent: the datagram waits, and the request is noted.
block : ℕ → Ipv4Datagram → NetworkInterface → NetworkInterface
block ip dgram n = record n {
  blocked_ip_datagram = n.blocked_ip_datagram ++ (ip, dgram) ∷ [];
  arp_expire_time = assign ip (add64 n.ms_since_running 5000) n.arp_expire_time;
}

then_block : ℕ → Ipv4Datagram → Outcome NetworkInterface → Outcome NetworkInterface
unfolding block
then_block ip dgram (returned n) = returned (block ip dgram n)
then_block ip dgram (threw n) = threw n

unfoldable pub send_datagram : Ipv4Datagram → ℕ → NetworkInterface → Outcome NetworkInterface
unfolding cached requested then_block send_ip_dgram send_arp_message
send_datagram dgram next_hop_ip n = elim (cached next_hop_ip n) [
  | some target ↦ send_ip_dgram dgram target n
  | none ↦
      if requested next_hop_ip n
      then returned n
      else then_block next_hop_ip dgram
          (send_arp_message next_hop_ip ethernet_broadcast opcode_request n)
]

-- The loop over the blocked datagrams: it stops at the first whose address is not known. Where
-- `send_ip_dgram` throws, the datagram stays on the queue.
send_blocked : List (ℕ × Ipv4Datagram) → NetworkInterface → Outcome NetworkInterface
unfolding send_ip_dgram cached
send_blocked [] n = returned (record n { blocked_ip_datagram = [] })
send_blocked ((ip, dgram) ∷ queue) n =
    let n' = record n { blocked_ip_datagram = (ip, dgram) ∷ queue } in
    elim (cached ip n) [
      | none ↦ returned n'
      | some target ↦ elim (send_ip_dgram dgram target n') [
        | threw m ↦ threw m
        | returned m ↦ send_blocked queue m
      ]
    ]

unfoldable pub receive_arp : ArpMessage → NetworkInterface → Outcome NetworkInterface
unfolding update_ip_ethernet_cache send_blocked send_arp_message
receive_arp m n =
    let learned = update_ip_ethernet_cache m.sender_ip_address m.sender_ethernet_address n in
    if m.opcode == opcode_reply
    then send_blocked learned.blocked_ip_datagram learned
    else if not (m.opcode == opcode_request)
    then returned n
    else if m.target_ip_address == n.ip_address
    then send_arp_message m.sender_ip_address m.sender_ethernet_address opcode_reply learned
    else returned learned

parsed_arp : ArpMessage × ParseResult → NetworkInterface → Outcome NetworkInterface
unfolding receive_arp
parsed_arp (m, r) n = if is_error r then returned n else receive_arp m n

parsed_datagram : Ipv4Datagram × ParseResult → Option Ipv4Datagram
parsed_datagram (d, r) = if is_error r then none else some d

-- The datagram that the frame carries, if it is one for this interface, and the interface afterwards.
unfoldable pub recv_frame :
    EthernetFrame → NetworkInterface → Option Ipv4Datagram × Outcome NetworkInterface
unfolding parsed_arp parsed_datagram
recv_frame frame n =
    if not (same_address frame.header.dst n.ethernet_address)
      && not (same_address frame.header.dst ethernet_broadcast)
    then (none, returned n)
    else if frame.header.frame_type == type_arp
    then (none, parsed_arp (ArpMessage.parse ArpMessage.init frame.payload) n)
    else if not (frame.header.frame_type == type_ipv4)
    then (none, returned n)
    else (parsed_datagram (Ipv4Datagram.parse Ipv4Datagram.init frame.payload), returned n)

-- The loop of `tick` over the expiry times.
expire : ℕ → List (ℕ × ℕ) → List (ℕ × EthernetAddress) → List (ℕ × ℕ) × List (ℕ × EthernetAddress)
expire now [] cache = ([], cache)
expire now ((ip, time) ∷ times) cache =
    let gone = ltb time now in
    let (times', cache') = expire now times (if gone then erase ip cache else cache) in
    (if gone then times' else (ip, time) ∷ times', cache')

unfoldable pub tick : ℕ → NetworkInterface → NetworkInterface
unfolding expire
tick ms_since_last_tick n =
    let now = add64 n.ms_since_running ms_since_last_tick in
    let (times, cache) = expire now n.ip_expire_time n.ip_ethernet_cache in
    record n { ms_since_running = now; ip_expire_time = times; ip_ethernet_cache = cache }
