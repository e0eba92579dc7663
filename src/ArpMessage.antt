-- ===== src/ArpMessage.antt =====
-- libsponge/tcp_helpers/arp_message.hh and arp_message.cc.
pub mod RoundTrip
pub mod Runs
use computer_network.Base.{
  ℕ, Bool, not, ◌&&◌, ◌||◌, Option, none, some, List, [], length, ltb, ◌==◌, if◌then◌else◌,
}
use computer_network.NetParser.{
  ParseResult, packet_too_short, unsupported, Parser, ◌>>=◌, start, u32, u16, u8, put_u32, put_u16,
  put_u8,
}
use computer_network.EthernetHeader.{
  EthernetAddress, zero_address, type_ipv4, read_address, put_address,
}

-- `ARPMessage::LENGTH`, `TYPE_ETHERNET`, `OPCODE_REQUEST` and `OPCODE_REPLY`.
abbrev pub message_length : ℕ
message_length = 28

abbrev pub type_ethernet : ℕ
type_ethernet = 1

abbrev pub opcode_request : ℕ
opcode_request = 1

abbrev pub opcode_reply : ℕ
opcode_reply = 2

pub record ArpMessage : Type 0 where
  pub hardware_type : ℕ
  pub protocol_type : ℕ
  pub hardware_address_size : ℕ
  pub protocol_address_size : ℕ
  pub opcode : ℕ
  pub sender_ethernet_address : EthernetAddress
  pub sender_ip_address : ℕ
  pub target_ethernet_address : EthernetAddress
  pub target_ip_address : ℕ

-- The default member initialisers.
unfoldable pub init : ArpMessage
init = record {
  hardware_type = type_ethernet;
  protocol_type = type_ipv4;
  hardware_address_size = 6;
  protocol_address_size = 4;
  opcode = 0;
  sender_ethernet_address = zero_address;
  sender_ip_address = 0;
  target_ethernet_address = zero_address;
  target_ip_address = 0;
}

unfoldable pub supported : ArpMessage → Bool
supported m =
    (m.hardware_type == type_ethernet)
    && (m.protocol_type == type_ipv4)
    && (m.hardware_address_size == 6)
    && (m.protocol_address_size == 4)
    && ((m.opcode == opcode_request) || (m.opcode == opcode_reply))

read_addresses : ArpMessage → Parser (ArpMessage × ParseResult)
read_addresses m = do
  sender_ethernet_address ← read_address
  sender_ip_address ← u32
  target_ethernet_address ← read_address
  target_ip_address ← u32
  λ p. (
    (
      record m {
        sender_ethernet_address = sender_ethernet_address;
        sender_ip_address = sender_ip_address;
        target_ethernet_address = target_ethernet_address;
        target_ip_address = target_ip_address;
      },
      p.result,
    ),
    p,
  )

-- Behind the sizes: unsupported messages are left before their addresses are read.
if_supported : ArpMessage → Parser (ArpMessage × ParseResult)
unfolding read_addresses
if_supported m p = if not (supported m) then ((m, unsupported), p) else read_addresses m p

read_message : ArpMessage → Parser (ArpMessage × ParseResult)
unfolding if_supported
read_message m = do
  hardware_type ← u16
  protocol_type ← u16
  hardware_address_size ← u8
  protocol_address_size ← u8
  opcode ← u16
  if_supported (record m {
    hardware_type = hardware_type;
    protocol_type = protocol_type;
    hardware_address_size = hardware_address_size;
    protocol_address_size = protocol_address_size;
    opcode = opcode;
  })

unfoldable pub parse : ArpMessage → List ℕ → ArpMessage × ParseResult
unfolding read_message
parse m buffer =
    if ltb (length buffer) message_length
    then (m, packet_too_short)
    else (read_message m (start buffer)).0

-- `none` is the exception on a combination of fields that is not supported.
unfoldable pub serialize : ArpMessage → Option (List ℕ)
serialize m =
    let s1 = put_u16 [] m.hardware_type in
    let s2 = put_u16 s1 m.protocol_type in
    let s3 = put_u8 s2 m.hardware_address_size in
    let s4 = put_u8 s3 m.protocol_address_size in
    let s5 = put_u16 s4 m.opcode in
    let s6 = put_address s5 m.sender_ethernet_address in
    let s7 = put_u32 s6 m.sender_ip_address in
    let s8 = put_address s7 m.target_ethernet_address in
    if not (supported m) then none else some (put_u32 s8 m.target_ip_address)
