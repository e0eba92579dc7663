-- ===== src/ArpMessage/Runs.antt =====
-- An ARP request written and read.
use computer_network.Base.{◌≡◌, refl, arith}
use computer_network.NetParser.{no_error}
use computer_network.EthernetHeader.{EthernetAddress, zero_address}
use computer_network.ArpMessage.{ArpMessage, init, supported, parse, opcode_request}
use computer_network.ArpMessage.RoundTrip.{wire, serialize-wire, parse-serialize_supported}

abbrev station : EthernetAddress
station = record { b0 = 2; b1 = 0; b2 = 0x5e; b3 = 0x10; b4 = 0xff; b5 = 7 }

abbrev request : ArpMessage
request = record {
  hardware_type = 1;
  protocol_type = 0x800;
  hardware_address_size = 6;
  protocol_address_size = 4;
  opcode = opcode_request;
  sender_ethernet_address = station;
  sender_ip_address = 0x0a00_0001;
  target_ethernet_address = zero_address;
  target_ip_address = 0x0a00_0002;
}

parse-serialize_supported_example : parse init (wire request) ≡ (request, no_error)
unfolding supported
parse-serialize_supported_example =
    parse-serialize_supported request init (wire request) (omega arith) (omega arith) (omega arith)
      (omega arith) (omega arith)
      (omega arith, omega arith, omega arith, omega arith, omega arith, omega arith) (omega arith)
      (omega arith, omega arith, omega arith, omega arith, omega arith, omega arith) (omega arith)
      (serialize-wire request refl)
