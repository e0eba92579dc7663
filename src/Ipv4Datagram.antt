-- ===== src/Ipv4Datagram.antt =====
-- libsponge/tcp_helpers/ipv4_datagram.hh and ipv4_datagram.cc: an IPv4 header with its payload.
pub mod Runs
pub mod RoundTrip
pub mod Unchecked
use computer_network.Base.{
  ℕ, Bool, not, Option, none, some, List, [], ◌++◌, length, ◌==◌, if◌then◌else◌,
}
use computer_network.InternetChecksum
use computer_network.NetParser.{NetParser, ParseResult, packet_too_short}
use computer_network.NetParser
use computer_network.Ipv4Header.{Ipv4Header}
use computer_network.Ipv4Header

pub record Ipv4Datagram : Type 0 where
  pub header : Ipv4Header
  pub payload : List ℕ

unfoldable pub init : Ipv4Datagram
init = record { header = Ipv4Header.init; payload = [] }

-- The result of the header's own parser is dropped.
unfoldable pub parsed : (Ipv4Header × ParseResult) × NetParser → Ipv4Datagram × ParseResult
parsed ((h, r), p) = (
  record { header = h; payload = p.buffer },
  if not (length p.buffer == Ipv4Header.payload_length h) then packet_too_short else p.result,
)

unfoldable pub parse : Ipv4Datagram → List ℕ → Ipv4Datagram × ParseResult
unfolding parsed
parse d buffer = parsed (Ipv4Header.parse d.header (NetParser.start buffer))

-- `none` stands for the exceptions. The two pieces are given as one string.
unfoldable pub serialize : Ipv4Datagram → Option (List ℕ)
serialize d =
    if not (length d.payload == Ipv4Header.payload_length d.header)
    then none
    else elim (Ipv4Header.serialize (record d.header { cksum = 0 })) [
      | none ↦ none
      | some zeroed ↦
          let cksum =
            InternetChecksum.value (InternetChecksum.add zeroed (InternetChecksum.init 0)) in
          elim (Ipv4Header.serialize (record d.header { cksum = cksum })) [
            | none ↦ none
            | some bytes ↦ some (bytes ++ d.payload)
          ]
    ]
