-- ===== src/NetworkInterface/Runs.antt =====
-- An interface that knows one address and waits for another.
use computer_network.Base.{
  ℕ, ◌≡◌, refl, some, none, List, [], ◌∷◌, ◌++◌, returned, arith, state_after, ◌≤◌,
}
use computer_network.Base.Dictionary.{find}
use computer_network.InternetChecksum
use computer_network.NetParser.{no_error, put_u32, put_u16, put_u8}
use computer_network.EthernetHeader.{EthernetAddress, EthernetFrame, same_address, type_arp}
use computer_network.Ipv4Header
use computer_network.Ipv4Datagram.{Ipv4Datagram}
use computer_network.Ipv4Datagram
use computer_network.ArpMessage.{ArpMessage, opcode_reply, supported}
use computer_network.ArpMessage
use computer_network.ArpMessage.RoundTrip.{wire, serialize-wire, parse-serialize_supported}
use computer_network.NetworkInterface.{
  NetworkInterface, init, cached, requested, unexpired, update_ip_ethernet_cache, send_datagram,
  recv_frame, tick,
}
use computer_network.NetworkInterface.Cache.{send_datagram-lost}
use computer_network.NetworkInterface.Waiting.{
  frames_for, still_waiting, CanBeSent, recv_frame-reply,
}

abbrev station : EthernetAddress
station = record { b0 = 2; b1 = 0; b2 = 0x5e; b3 = 0x10; b4 = 0xff; b5 = 7 }

abbrev interface : NetworkInterface
interface = record (init station 0x0a00_0001) {
  ip_ethernet_cache = (0x0a00_0002, station) ∷ [];
  ip_expire_time = (0x0a00_0002, 30_000) ∷ [];
  arp_expire_time = (0x0a00_0003, 5_000) ∷ [];
}

-- A datagram without a payload, which waits for the answer of 10.0.0.3.
abbrev short : Ipv4Datagram
short = record {
  header = record Ipv4Header.init { len = 20; src = 0x0a00_0001; dst = 0x0a00_0003 };
  payload = [];
}

abbrev short_bytes : List ℕ
short_bytes =
    69 ∷ 0 ∷ 0 ∷ 20 ∷ 0 ∷ 0 ∷ 64 ∷ 0 ∷ 128 ∷ 6 ∷ 230 ∷ 224 ∷ 10 ∷ 0 ∷ 0 ∷ 1 ∷ 10 ∷ 0 ∷ 0 ∷ 3 ∷ []

short_serialized : Ipv4Datagram.serialize short ≡ some short_bytes
unfolding Ipv4Datagram.serialize Ipv4Header.init Ipv4Header.serialize Ipv4Header.payload_length
    InternetChecksum.init InternetChecksum.add InternetChecksum.value put_u32 put_u16 put_u8
short_serialized = refl

-- The interface before and after the datagram begins to wait.
abbrev fresh : NetworkInterface
fresh = init station 0x0a00_0001

abbrev asking : NetworkInterface
asking = state_after (send_datagram short 0x0a00_0003 fresh)

asked : send_datagram short 0x0a00_0003 fresh ≡ returned asking
unfolding init send_datagram cached requested find unexpired ArpMessage.serialize supported put_u32
    put_u16 put_u8 ArpMessage.init
asked = refl

send_datagram-lost_example :
    (asking.blocked_ip_datagram ≡ fresh.blocked_ip_datagram ++ (0x0a00_0003, short) ∷ [])
    × ((later : Ipv4Datagram) (ms : ℕ)
        → ms ≤ 5000
        → send_datagram later 0x0a00_0003 (tick ms asking) ≡ returned (tick ms asking))
unfolding init cached requested find unexpired
send_datagram-lost_example =
    send_datagram-lost 0x0a00_0003 short fresh asking (omega arith) tt refl refl asked

abbrev waiting : NetworkInterface
waiting = record interface { blocked_ip_datagram = (0x0a00_0003, short) ∷ [] }

abbrev neighbour : EthernetAddress
neighbour = record { b0 = 2; b1 = 0; b2 = 0; b3 = 0; b4 = 0; b5 = 3 }

abbrev reply : ArpMessage
reply = record {
  hardware_type = 1;
  protocol_type = 0x800;
  hardware_address_size = 6;
  protocol_address_size = 4;
  opcode = opcode_reply;
  sender_ethernet_address = neighbour;
  sender_ip_address = 0x0a00_0003;
  target_ethernet_address = station;
  target_ip_address = 0x0a00_0001;
}

abbrev reply_frame : EthernetFrame
reply_frame = record {
  header = record { dst = station; src = neighbour; frame_type = type_arp };
  payload = wire reply;
}

reply_parsed : ArpMessage.parse ArpMessage.init reply_frame.payload ≡ (reply, no_error)
unfolding supported
reply_parsed =
    parse-serialize_supported reply ArpMessage.init (wire reply) (omega arith) (omega arith)
      (omega arith) (omega arith) (omega arith)
      (omega arith, omega arith, omega arith, omega arith, omega arith, omega arith) (omega arith)
      (omega arith, omega arith, omega arith, omega arith, omega arith, omega arith) (omega arith)
      (serialize-wire reply refl)

short-CanBeSent : CanBeSent (0x0a00_0003, short)
short-CanBeSent = (short_bytes, short_serialized)

abbrev learned : NetworkInterface
learned = update_ip_ethernet_cache 0x0a00_0003 neighbour waiting

recv_frame-reply_example : recv_frame reply_frame waiting ≡ (
  none,
  returned (record learned {
    frames_out = waiting.frames_out ++ frames_for ((0x0a00_0003, short) ∷ []) learned;
    blocked_ip_datagram = still_waiting ((0x0a00_0003, short) ∷ []) learned;
  }),
)
unfolding init same_address
recv_frame-reply_example =
    recv_frame-reply reply_frame reply waiting refl refl reply_parsed refl (short-CanBeSent, tt)
