-- ===== src/EthernetHeader.antt =====
-- libsponge/tcp_helpers/ethernet_header.hh, ethernet_header.cc, ethernet_frame.hh and
-- ethernet_frame.cc: Ethernet addresses, frame headers and frames.
pub mod Runs
pub mod RoundTrip
use computer_network.Base.{
  ℕ, ◌^◌, Bool, ◌&&◌, List, [], ◌∷◌, ◌++◌, length, ltb, ◌==◌, if◌then◌else◌,
}
use computer_network.NetParser.{
  NetParser, ParseResult, packet_too_short, Parser, ◌>>=◌, ◌>>◌, pure, start, u16, u8, put_u16,
  put_u8,
}

-- `std::array<uint8_t, 6>`.
pub record EthernetAddress : Type 0 where
  pub b0 : ℕ
  pub b1 : ℕ
  pub b2 : ℕ
  pub b3 : ℕ
  pub b4 : ℕ
  pub b5 : ℕ

abbrev pub ethernet_broadcast : EthernetAddress
ethernet_broadcast = record { b0 = 0xff; b1 = 0xff; b2 = 0xff; b3 = 0xff; b4 = 0xff; b5 = 0xff }

-- The value that `{}` initialises an address to.
abbrev pub zero_address : EthernetAddress
zero_address = record { b0 = 0; b1 = 0; b2 = 0; b3 = 0; b4 = 0; b5 = 0 }

unfoldable pub same_address : EthernetAddress → EthernetAddress → Bool
same_address a c =
    (a.b0 == c.b0)
    && (a.b1 == c.b1)
    && (a.b2 == c.b2)
    && (a.b3 == c.b3)
    && (a.b4 == c.b4)
    && (a.b5 == c.b5)

-- The loops over the bytes of an address.
unfoldable pub read_address : Parser EthernetAddress
read_address = do
  b0 ← u8
  b1 ← u8
  b2 ← u8
  b3 ← u8
  b4 ← u8
  b5 ← u8
  pure (record { b0 = b0; b1 = b1; b2 = b2; b3 = b3; b4 = b4; b5 = b5 })

unfoldable pub put_address : List ℕ → EthernetAddress → List ℕ
put_address s a =
    put_u8 (put_u8 (put_u8 (put_u8 (put_u8 (put_u8 s a.b0) a.b1) a.b2) a.b3) a.b4) a.b5

-- `EthernetHeader::LENGTH`, `TYPE_IPv4` and `TYPE_ARP`.
abbrev pub header_length : ℕ
header_length = 14

abbrev pub type_ipv4 : ℕ
type_ipv4 = 0x800

abbrev pub type_arp : ℕ
type_arp = 0x806

pub record EthernetHeader : Type 0 where
  pub dst : EthernetAddress
  pub src : EthernetAddress
  pub frame_type : ℕ

read_header : Parser (EthernetHeader × ParseResult)
unfolding read_address
read_header = do
  dst ← read_address
  src ← read_address
  frame_type ← u16
  λ p. ((record { dst = dst; src = src; frame_type = frame_type }, p.result), p)

unfoldable pub parse_header : EthernetHeader → Parser (EthernetHeader × ParseResult)
unfolding read_header
parse_header h p =
    if ltb (length p.buffer) header_length then ((h, packet_too_short), p) else read_header p

unfoldable pub serialize_header : EthernetHeader → List ℕ
unfolding put_address
serialize_header h = put_u16 (put_address (put_address [] h.dst) h.src) h.frame_type

pub record EthernetFrame : Type 0 where
  pub header : EthernetHeader
  pub payload : List ℕ

parsed : (EthernetHeader × ParseResult) × NetParser → EthernetFrame × ParseResult
parsed ((h, r), p) = (record { header = h; payload = p.buffer }, p.result)

unfoldable pub parse_frame : EthernetFrame → List ℕ → EthernetFrame × ParseResult
unfolding parsed
parse_frame f buffer = parsed (parse_header f.header (start buffer))

-- The two pieces are given as one string.
unfoldable pub serialize_frame : EthernetFrame → List ℕ
serialize_frame f = serialize_header f.header ++ f.payload
