-- ===== src/Ipv4Datagram/Unchecked.antt =====
-- The parser of datagrams and the checksum of the header.
use computer_network.Base.{
  ℕ, ◌*◌, ◌≤◌, ◌≡◌, refl, sym, ◌∙◌, not, false, some, List, ◌++◌, length, length-append, ltb, ◌==◌,
  arith,
}
use mathlib.Core.Option.{some-injective}
use computer_network.NetParser.{no_error, start}
use computer_network.Ipv4Header.{Ipv4Header, header_length, payload_length, check_header}
use computer_network.Ipv4Header
use computer_network.Ipv4Header.Wire.{IsSized, wire, padding, serialize-wire, read_fields-wire}
use computer_network.Ipv4Header.Checks.{checks-skip}
use computer_network.Ipv4Datagram.{Ipv4Datagram, parse}
use computer_network.Ipv4Datagram.RoundTrip.{payload_length_lem, length-wire, length-padding}

-- The header's own parser reads the header back, with some result.
parse_header-any :
    (d : Ipv4Datagram) (before : Ipv4Header)
    → IsSized d.header
    → 4 * d.header.hlen ≤ d.header.len
    → length d.payload ≡ payload_length d.header
    → (let original = wire d.header (padding d.header ++ d.payload) in
        Ipv4Header.parse before (start original)
        ≡ ((d.header, check_header original d.header (start d.payload)), start d.payload))
unfolding Ipv4Header.parse start
parse_header-any d before v long e =
    let h = d.header in
    let rest = padding h ++ d.payload in
    let len : length (wire h rest) ≡ h.len = omega (
      arith,
      length-wire h rest,
      length-append (padding h) d.payload,
      length-padding h,
      e,
      payload_length_lem h v long,
      v.hlen_5,
      long,
    ) in
    let enough : ltb (length (wire h rest)) header_length ≡ false =
      grind (arith, length-wire h rest) in
    rw enough
      (read_fields-wire (wire h rest) h rest v ∙ checks-skip (wire h rest) h d.payload v len long)

-- Whatever 16-bit number stands in the checksum of a header, right or wrong: the header as it is written,
-- with the payload behind it, is read back as that datagram, without an error. The header's fields have
-- their widths, it is of version 4, is long enough and counts itself and the payload in its length.
pub parse-serialize_unchecked :
    (d before : Ipv4Datagram) (bytes : List ℕ)
    → IsSized d.header
    → 4 * d.header.hlen ≤ d.header.len
    → length d.payload ≡ payload_length d.header
    → Ipv4Header.serialize d.header ≡ some bytes
    → parse before (bytes ++ d.payload) ≡ (d, no_error)
unfolding parse start
parse-serialize_unchecked d before bytes v long e written =
    let h = d.header in
    let there : bytes ≡ wire h (padding h) =
      some-injective bytes (wire h (padding h)) (sym written ∙ serialize-wire h v) in
    let whole : not (length d.payload == payload_length h) ≡ false = grind (arith, e) in
    rw (there, parse_header-any d before.header v long e, whole) refl
