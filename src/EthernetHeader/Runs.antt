-- ===== src/EthernetHeader/Runs.antt =====
-- An Ethernet frame written and read.
use computer_network.Base.{◌≡◌, [], ◌∷◌, arith}
use computer_network.NetParser.{no_error}
use computer_network.EthernetHeader.{
  EthernetAddress, EthernetFrame, ethernet_broadcast, zero_address, type_arp, parse_frame,
  serialize_frame,
}
use computer_network.EthernetHeader.RoundTrip.{parse_frame-serialize_frame}

abbrev station : EthernetAddress
station = record { b0 = 2; b1 = 0; b2 = 0x5e; b3 = 0x10; b4 = 0xff; b5 = 7 }

abbrev frame : EthernetFrame
frame = record {
  header = record { dst = ethernet_broadcast; src = station; frame_type = type_arp };
  payload = 1 ∷ 2 ∷ 3 ∷ [];
}

abbrev blank : EthernetFrame
blank = record {
  header = record { dst = zero_address; src = zero_address; frame_type = 0 };
  payload = [];
}

parse_frame-serialize_frame_example : parse_frame blank (serialize_frame frame) ≡ (frame, no_error)
parse_frame-serialize_frame_example =
    parse_frame-serialize_frame frame blank
      (omega arith, omega arith, omega arith, omega arith, omega arith, omega arith)
      (omega arith, omega arith, omega arith, omega arith, omega arith, omega arith) (omega arith)
