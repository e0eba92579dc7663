-- ===== src/TcpHeader.antt =====
-- libsponge/tcp_helpers/tcp_header.hh and tcp_header.cc: the header of a TCP segment, its parser and
-- its serialisation. Every field is a number below the bound of its C++ type.
pub mod Runs
pub mod RoundTrip
use computer_network.Base.{
  ℕ, ◌+◌, ◌-◌, ◌*◌, ◌/◌, ◌%◌, ◌^◌, Bool, true, false, not, Option, none, some, List, [], ◌∷◌, ◌++◌,
  length, take, replicate, ltb, ◌==◌, ◌&&◌, if◌then◌else◌, bit_and, bit_or,
}
use computer_network.WrappingIntegers.{WrappingInt32, equal}
use computer_network.NetParser.{
  NetParser, ParseResult, no_error, header_too_short, is_error, Parser, ◌>>=◌, ◌>>◌, pure, u32, u16,
  u8, remove_prefix, put_u32, put_u16, put_u8,
}

-- `TCPHeader::LENGTH`.
abbrev pub header_length : ℕ
header_length = 20

pub record TcpHeader : Type 0 where
  pub sport : ℕ
  pub dport : ℕ
  pub seqno : WrappingInt32
  pub ackno : WrappingInt32
  pub doff : ℕ
  pub urg : Bool
  pub ack : Bool
  pub psh : Bool
  pub rst : Bool
  pub syn : Bool
  pub fin : Bool
  pub win : ℕ
  pub cksum : ℕ
  pub uptr : ℕ

-- The default member initialisers.
unfoldable pub init : TcpHeader
init = record {
  sport = 0;
  dport = 0;
  seqno = record { raw_value = 0 };
  ackno = record { raw_value = 0 };
  doff = header_length / 4;
  urg = false;
  ack = false;
  psh = false;
  rst = false;
  syn = false;
  fin = false;
  win = 0;
  cksum = 0;
  uptr = 0;
}

-- `static_cast<bool>(fl_b & mask)`.
abbrev pub flag : ℕ → ℕ → Bool
flag fl_b mask = not (bit_and fl_b mask == 0)

-- After the fields: the checks, and the options skipped. The header keeps what was read.
unfoldable pub skip_options : TcpHeader → Parser (TcpHeader × ParseResult)
skip_options h p =
    if ltb h.doff 5
    then ((h, header_too_short), p)
    else (let p' = remove_prefix (h.doff * 4 - header_length) p in ((h, p'.result), p'))

unfoldable pub parse : Parser (TcpHeader × ParseResult)
unfolding skip_options
parse = do
  sport ← u16
  dport ← u16
  seqno ← u32
  ackno ← u32
  offset ← u8
  fl_b ← u8
  win ← u16
  cksum ← u16
  uptr ← u16
  skip_options (record {
    sport = sport;
    dport = dport;
    seqno = record { raw_value = seqno };
    ackno = record { raw_value = ackno };
    doff = offset / 2 ^ 4;
    urg = flag fl_b 0b0010_0000;
    ack = flag fl_b 0b0001_0000;
    psh = flag fl_b 0b0000_1000;
    rst = flag fl_b 0b0000_0100;
    syn = flag fl_b 0b0000_0010;
    fin = flag fl_b 0b0000_0001;
    win = win;
    cksum = cksum;
    uptr = uptr;
  })

unfoldable pub flags_byte : Bool → Bool → Bool → Bool → Bool → Bool → ℕ
flags_byte urg ack psh rst syn fin = bit_or (if urg then 0b0010_0000 else 0) (
    bit_or (if ack then 0b0001_0000 else 0) (
      bit_or (if psh then 0b0000_1000 else 0) (
        bit_or (if rst then 0b0000_0100 else 0)
          (bit_or (if syn then 0b0000_0010 else 0) (if fin then 0b0000_0001 else 0)))))

-- `std::string::resize`: cut, or filled up with zero bytes.
abbrev pub resize : ℕ → List ℕ → List ℕ
resize n s = take n s ++ replicate (n - length s) 0

unfoldable pub fields : TcpHeader → List ℕ
unfolding flags_byte
fields h =
    let s1 = put_u16 [] h.sport in
    let s2 = put_u16 s1 h.dport in
    let s3 = put_u32 s2 h.seqno.raw_value in
    let s4 = put_u32 s3 h.ackno.raw_value in
    let s5 = put_u8 s4 (h.doff * 2 ^ 4 % 2 ^ 8) in
    let s6 = put_u8 s5 (flags_byte h.urg h.ack h.psh h.rst h.syn h.fin) in
    let s7 = put_u16 s6 h.win in let s8 = put_u16 s7 h.cksum in put_u16 s8 h.uptr

-- `none` is the exception on a header that is too short.
unfoldable pub serialize : TcpHeader → Option (List ℕ)
unfolding fields
serialize h = if ltb h.doff 5 then none else some (resize (4 * h.doff) (fields h))

abbrev same_flag : Bool → Bool → Bool
same_flag true b = b
same_flag false b = not b

-- `operator==`, which leaves out the ports and the checksum.
unfoldable pub same : TcpHeader → TcpHeader → Bool
unfolding equal
same h g =
    equal h.seqno g.seqno
    && equal h.ackno g.ackno
    && (h.doff == g.doff)
    && same_flag h.urg g.urg
    && same_flag h.ack g.ack
    && same_flag h.psh g.psh
    && same_flag h.rst g.rst
    && same_flag h.syn g.syn
    && same_flag h.fin g.fin
    && (h.win == g.win)
    && (h.uptr == g.uptr)
