-- ===== src/Ipv4Header.antt =====
-- libsponge/tcp_helpers/ipv4_header.hh and ipv4_header.cc: the header of an Internet datagram. Every
-- field is a number below the bound of its C++ type.
pub mod Wire
pub mod Checks
use computer_network.Base.{
  ℕ, ◌+◌, ◌-◌, ◌*◌, ◌/◌, ◌%◌, ◌^◌, Bool, true, false, not, Option, none, some, List, [], length,
  take, ltb, ◌==◌, if◌then◌else◌, bit_and, bit_or,
}
use computer_network.InternetChecksum
use computer_network.NetParser.{
  NetParser, ParseResult, no_error, bad_checksum, packet_too_short, wrong_ip_version,
  header_too_short, truncated_packet, is_error, Parser, ◌>>=◌, u32, u16, u8, remove_prefix, put_u32,
  put_u16, put_u8,
}
use computer_network.TcpHeader.{flag, resize}

-- `IPv4Header::LENGTH`, `DEFAULT_TTL` and `PROTO_TCP`.
abbrev pub header_length : ℕ
header_length = 20

abbrev pub default_ttl : ℕ
default_ttl = 128

abbrev pub proto_tcp : ℕ
proto_tcp = 6

pub record Ipv4Header : Type 0 where
  pub ver : ℕ
  pub hlen : ℕ
  pub tos : ℕ
  pub len : ℕ
  pub id : ℕ
  pub df : Bool
  pub mf : Bool
  pub offset : ℕ
  pub ttl : ℕ
  pub proto : ℕ
  pub cksum : ℕ
  pub src : ℕ
  pub dst : ℕ

-- The default member initialisers.
unfoldable pub init : Ipv4Header
init = record {
  ver = 4;
  hlen = header_length / 4;
  tos = 0;
  len = 0;
  id = 0;
  df = true;
  mf = false;
  offset = 0;
  ttl = default_ttl;
  proto = proto_tcp;
  cksum = 0;
  src = 0;
  dst = 0;
}

-- The checksum over the header, once the options are skipped.
unfoldable pub check_header : List ℕ → Ipv4Header → NetParser → ParseResult
check_header original h p =
    if is_error p.result
    then p.result
    else if not (
        InternetChecksum.value
          (InternetChecksum.add (take (4 * h.hlen) original) (InternetChecksum.init 0))
        == 0)
    then bad_checksum
    else no_error

-- After the fields: the checks in their order. The header keeps what was read.
unfoldable pub checks : List ℕ → Ipv4Header → Parser (Ipv4Header × ParseResult)
unfolding check_header
checks original h p =
    let p' = remove_prefix (h.hlen * 4 - header_length) p in
    if ltb (length original) (4 * h.hlen)
    then ((h, packet_too_short), p)
    else if not (h.ver == 4)
    then ((h, wrong_ip_version), p)
    else if ltb h.hlen 5
    then ((h, header_too_short), p)
    else if not (length original == h.len)
    then ((h, truncated_packet), p)
    else ((h, check_header original h p'), p')

unfoldable pub read_fields : List ℕ → Parser (Ipv4Header × ParseResult)
unfolding checks
read_fields original = do
  first_byte ← u8
  tos ← u8
  len ← u16
  id ← u16
  fo_val ← u16
  ttl ← u8
  proto ← u8
  cksum ← u16
  src ← u32
  dst ← u32
  checks original (record {
    ver = first_byte / 2 ^ 4;
    hlen = bit_and first_byte 0x0f;
    tos = tos;
    len = len;
    id = id;
    df = flag fo_val 0x4000;
    mf = flag fo_val 0x2000;
    offset = bit_and fo_val 0x1fff;
    ttl = ttl;
    proto = proto;
    cksum = cksum;
    src = src;
    dst = dst;
  })

-- Where the buffer is shorter than a header, `h` stays as it was.
unfoldable pub parse : Ipv4Header → Parser (Ipv4Header × ParseResult)
unfolding read_fields
parse h p =
    if ltb (length p.buffer) header_length
    then ((h, packet_too_short), p)
    else read_fields p.buffer p

-- The fields of `serialize`, after its two sanity checks.
unfoldable pub fields : Ipv4Header → List ℕ
fields h =
    let s1 = put_u8 [] (bit_or (h.ver * 2 ^ 4 % 2 ^ 8) (bit_and h.hlen 0xf)) in
    let s2 = put_u8 s1 h.tos in
    let s3 = put_u16 s2 h.len in
    let s4 = put_u16 s3 h.id in
    let fo_val =
      bit_or (if h.df then 0x4000 else 0)
        (bit_or (if h.mf then 0x2000 else 0) (bit_and h.offset 0x1fff)) in
    let s5 = put_u16 s4 fo_val in
    let s6 = put_u8 s5 h.ttl in
    let s7 = put_u8 s6 h.proto in
    let s8 = put_u16 s7 h.cksum in let s9 = put_u32 s8 h.src in put_u32 s9 h.dst

-- `none` stands for the two exceptions.
unfoldable pub serialize : Ipv4Header → Option (List ℕ)
unfolding fields
serialize h =
    if not (h.ver == 4)
    then none
    else if ltb (4 * h.hlen) header_length
    then none
    else some (resize (4 * h.hlen) (fields h))

unfoldable pub payload_length : Ipv4Header → ℕ
payload_length h = (h.len + (2 ^ 16 - 4 * h.hlen % 2 ^ 16)) % 2 ^ 16

unfoldable pub pseudo_cksum : Ipv4Header → ℕ
unfolding payload_length
pseudo_cksum h =
    (h.src / 2 ^ 16
      + bit_and h.src 0xffff
      + (h.dst / 2 ^ 16 + bit_and h.dst 0xffff)
      + h.proto
      + payload_length h)
    % 2 ^ 32
