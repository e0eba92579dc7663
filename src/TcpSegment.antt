-- ===== src/TcpSegment.antt =====
-- libsponge/tcp_helpers/tcp_segment.hh and tcp_segment.cc: a TCP header with its payload.
pub mod RoundTrip
pub mod Runs
use computer_network.Base.{
  ℕ, ◌+◌, not, Option, none, some, List, [], ◌++◌, length, ◌==◌, if◌then◌else◌,
}
use computer_network.InternetChecksum
use computer_network.NetParser.{NetParser, ParseResult, bad_checksum}
use computer_network.NetParser
use computer_network.TcpHeader.{TcpHeader}
use computer_network.TcpHeader

pub record TcpSegment : Type 0 where
  pub header : TcpHeader
  pub payload : List ℕ

unfoldable pub init : TcpSegment
init = record { header = TcpHeader.init; payload = [] }

unfoldable pub length_in_sequence_space : TcpSegment → ℕ
length_in_sequence_space s =
    length s.payload + (if s.header.syn then 1 else 0) + (if s.header.fin then 1 else 0)

-- The segment that a parsed header and the rest of the buffer make. The result of the header's own
-- parser is dropped; the error of the parser object is returned.
unfoldable pub parsed : (TcpHeader × ParseResult) × NetParser → TcpSegment × ParseResult
parsed ((h, r), p) = (record { header = h; payload = p.buffer }, p.result)

-- Where the checksum is bad the segment stays as it was.
unfoldable pub parse : TcpSegment → List ℕ → ℕ → TcpSegment × ParseResult
unfolding parsed
parse s buffer datagram_layer_checksum =
    if not (
      InternetChecksum.value
        (InternetChecksum.add buffer (InternetChecksum.init datagram_layer_checksum))
      == 0)
    then (s, bad_checksum)
    else parsed (TcpHeader.parse (NetParser.start buffer))

unfoldable pub checksum_of : ℕ → List ℕ → List ℕ → ℕ
checksum_of initial header payload =
    InternetChecksum.value
      (InternetChecksum.add payload (InternetChecksum.add header (InternetChecksum.init initial)))

-- `none` is the exception of the header's `serialize`. The two pieces are given as one string.
unfoldable pub serialize : TcpSegment → ℕ → Option (List ℕ)
unfolding checksum_of
serialize s datagram_layer_checksum = elim (TcpHeader.serialize (record s.header { cksum = 0 })) [
  | none ↦ none
  | some zeroed ↦
      elim (TcpHeader.serialize
        (record s.header { cksum = checksum_of datagram_layer_checksum zeroed s.payload })) [
          | none ↦ none
          | some bytes ↦ some (bytes ++ s.payload)
        ]
]
