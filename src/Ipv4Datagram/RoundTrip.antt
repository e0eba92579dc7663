-- ===== src/Ipv4Datagram/RoundTrip.antt =====
-- Reading back the datagrams that the serialiser writes, with the checksum over their headers.
use computer_network.Base.{
  ℕ, ◌+◌, ◌-◌, ◌*◌, ◌^◌, ◌≤◌, ◌<◌, ◌≡◌, refl, sym, ap, ◌∙◌, not, false, some, List, [], ◌++◌,
  length, take, take_all, length-append, append-nil, subst, length-replicate, take-append_le, ltb,
  ◌==◌, arith,
}
use computer_network.InternetChecksum.{value, add}
use computer_network.InternetChecksum
use mathlib.Core.Option.{some-injective}
use computer_network.InternetChecksum.Complement.{value-lt, value-checksummed}
use computer_network.InternetChecksum.Weight.{weight, weight-replicate}
use computer_network.NetParser.{no_error, start}
use computer_network.Ipv4Header.{Ipv4Header, payload_length, header_length}
use computer_network.Ipv4Header
use computer_network.Ipv4Header.Wire.{IsSized, wire, padding, serialize-wire, read_fields-wire}
use computer_network.Ipv4Header.Checks.{checks-padding}
use computer_network.Ipv4Datagram.{Ipv4Datagram, parse, serialize}

abbrev pub with_cksum : ℕ → Ipv4Header → Ipv4Header
with_cksum cksum h = record h { cksum = cksum }

with_cksum-IsSized :
    (h : Ipv4Header) (cksum : ℕ) → cksum < 2 ^ 16 → IsSized h → IsSized (with_cksum cksum h)
with_cksum-IsSized h cksum l v = record {
  ver_4 = v.ver_4;
  hlen_5 = v.hlen_5;
  hlen_small = v.hlen_small;
  tos_small = v.tos_small;
  len_small = v.len_small;
  id_small = v.id_small;
  offset_small = v.offset_small;
  ttl_small = v.ttl_small;
  proto_small = v.proto_small;
  cksum_small = l;
  src_small = v.src_small;
  dst_small = v.dst_small;
}

-- The checksum adds itself to the sum.
weight-wire :
    (h : Ipv4Header) (cksum : ℕ) (rest : List ℕ)
    → cksum < 2 ^ 16
    → (weight false (wire (with_cksum cksum h) rest)
        ≡ weight false (wire (with_cksum 0 h) rest) + cksum)
      × (weight false (wire (with_cksum 0 h) rest) ≤ 20 * 2 ^ 16 + weight false rest)
unfolding weight
weight-wire h cksum rest l = (omega arith, omega arith)

unfoldable pub cksum_of : Ipv4Header → ℕ
cksum_of h = value (add (wire (with_cksum 0 h) (padding h)) (InternetChecksum.init 0))

written-value :
    (h : Ipv4Header)
    → h.hlen < 2 ^ 4
    → value (add (wire (with_cksum (cksum_of h) h) (padding h)) (InternetChecksum.init 0)) ≡ 0
unfolding cksum_of
written-value h small =
    let zeroed = wire (with_cksum 0 h) (padding h) in
    let (more, bound) =
      weight-wire h (cksum_of h) (padding h) (value-lt (add zeroed (InternetChecksum.init 0))) in
    let filling = weight-replicate (h.hlen * 4 - 20) false [] tt in
    let none_after : padding h ++ [] ≡ padding h = append-nil (padding h) in
    let filled : weight false (padding h) ≤ 2 ^ 16 * 0 =
      subst (λ z. weight false z ≤ 2 ^ 16 * 0) none_after filling in
    value-checksummed zeroed (wire (with_cksum (cksum_of h) h) (padding h)) 0 more
      (omega (arith, bound, filled))

-- The bytes of a datagram with the checksum of its header.
abbrev pub wire_bytes : Ipv4Datagram → List ℕ
wire_bytes d = wire (with_cksum (cksum_of d.header) d.header) (padding d.header ++ d.payload)

cksum_of-lt : (h : Ipv4Header) → cksum_of h < 2 ^ 16
unfolding cksum_of
cksum_of-lt h = value-lt (add (wire (with_cksum 0 h) (padding h)) (InternetChecksum.init 0))

serialize-payload_length :
    (d : Ipv4Datagram) (bytes : List ℕ)
    → serialize d ≡ some bytes
    → length d.payload ≡ payload_length d.header
unfolding serialize
serialize-payload_length d bytes e = ground arith

-- The length does not depend on the checksum.
payload_length-with_cksum :
    (cksum : ℕ) (h : Ipv4Header) → payload_length (with_cksum cksum h) ≡ payload_length h
unfolding payload_length
payload_length-with_cksum cksum h = refl

-- A header that counts itself, and the payload behind it.
pub payload_length_lem :
    (h : Ipv4Header) → IsSized h → 4 * h.hlen ≤ h.len → payload_length h ≡ h.len - 4 * h.hlen
unfolding payload_length
payload_length_lem h v l = omega (arith, v.len_small, v.hlen_small)

pub serialize_lem :
    (d : Ipv4Datagram)
    → IsSized d.header
    → length d.payload ≡ payload_length d.header
    → serialize d ≡ some (wire_bytes d)
unfolding serialize cksum_of
serialize_lem d v e =
    let h = d.header in
    let whole : not (length d.payload == payload_length h) ≡ false = grind (arith, e) in
    rw
      (
        serialize,
        whole,
        serialize-wire (with_cksum 0 h) (with_cksum-IsSized h 0 (omega arith) v),
        serialize-wire (with_cksum (cksum_of h) h)
            (with_cksum-IsSized h (cksum_of h) (cksum_of-lt h) v),
      )
      refl

pub length-wire : (h : Ipv4Header) (rest : List ℕ) → length (wire h rest) ≡ 20 + length rest
length-wire h rest = omega arith

pub length-padding : (h : Ipv4Header) → length (padding h) ≡ h.hlen * 4 - 20
length-padding h = length-replicate (h.hlen * 4 - 20) 0

header_bytes :
    (h : Ipv4Header) (payload : List ℕ)
    → 5 ≤ h.hlen
    → take (4 * h.hlen) (wire h (padding h ++ payload)) ≡ wire h (padding h)
header_bytes h payload l =
    let len : length (wire h (padding h)) ≡ 4 * h.hlen =
      omega (arith, length-wire h (padding h), length-padding h) in
    take-append_le (4 * h.hlen) (wire h (padding h)) payload (omega (arith, len))
    ∙ take_all (4 * h.hlen) (wire h (padding h)) (omega (arith, len))

-- The header's own parser on these bytes.
parse_header-wire :
    (d : Ipv4Datagram) (before : Ipv4Header)
    → IsSized d.header
    → 4 * d.header.hlen ≤ d.header.len
    → length d.payload ≡ payload_length d.header
    → Ipv4Header.parse before (start (wire_bytes d))
      ≡ ((with_cksum (cksum_of d.header) d.header, no_error), start d.payload)
unfolding Ipv4Header.parse start
parse_header-wire d before v long e =
    let h = with_cksum (cksum_of d.header) d.header in
    let sized = with_cksum-IsSized d.header (cksum_of d.header) (cksum_of-lt d.header) v in
    let rest = padding h ++ d.payload in
    let len : length (wire h rest) ≡ h.len = omega (
      arith,
      length-wire h rest,
      length-append (padding h) d.payload,
      length-padding h,
      e,
      payload_length_lem d.header v long,
      v.hlen_5,
      long,
    ) in
    let enough : ltb (length (wire h rest)) header_length ≡ false =
      grind (arith, length-wire h rest) in
    let sum =
      ap (λ z. value (add z (InternetChecksum.init 0))) (header_bytes h d.payload v.hlen_5)
      ∙ written-value d.header v.hlen_small in
    rw enough (
      read_fields-wire (wire h rest) h rest sized
      ∙ checks-padding (wire h rest) h d.payload sized len long sum)

-- A datagram whose header fields have their widths, is of version 4, is long enough and counts at
-- least the header in its length, is read back from what is written for it: with some checksum in
-- its header, and without an error.
pub parse-serialize_datagram :
    (d before : Ipv4Datagram) (bytes : List ℕ)
    → IsSized d.header
    → 4 * d.header.hlen ≤ d.header.len
    → serialize d ≡ some bytes
    → (cksum : ℕ) × (parse before bytes
        ≡ (record d { header = with_cksum cksum d.header }, no_error))
unfolding parse start
parse-serialize_datagram d before bytes v long written =
    let e = serialize-payload_length d bytes written in
    let there : bytes ≡ wire_bytes d =
      some-injective bytes (wire_bytes d) (sym written ∙ serialize_lem d v e) in
    let whole : not (length d.payload == payload_length (with_cksum (cksum_of d.header) d.header))
        ≡ false =
      grind (arith, e, payload_length-with_cksum (cksum_of d.header) d.header) in
    (cksum_of d.header, rw (there, parse_header-wire d before.header v long e, whole) refl)
