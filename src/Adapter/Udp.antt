-- ===== src/Adapter/Udp.antt =====
-- libsponge/tcp_helpers/fd_adapter.hh and fd_adapter.cc: TCP segments as the payloads of UDP datagrams.
use computer_network.Base.{
  ℕ, false, not, ◌&&◌, Option, none, some, List, [], ◌∷◌, ◌++◌, if◌then◌else◌, Outcome, returned,
  threw,
}
use computer_network.NetParser.{is_error, ParseResult}
use computer_network.TcpSegment.{TcpSegment}
use computer_network.TcpSegment
use computer_network.Adapter.{
  Address, equal, FdAdapterConfig, FdAdapterBase, IsAdapter, set_listening, set_ports,
}
use computer_network.Adapter

-- What `UDPSocket::recv` gives.
pub record ReceivedDatagram : Type 0 where
  pub source_address : Address
  pub payload : List ℕ

-- `sent` is what `sendto` was called with, oldest first.
pub record TcpOverUdpSocketAdapter : Type 0 where
  pub base : FdAdapterBase
  pub sent : List (Address × List ℕ)

unfoldable pub init : TcpOverUdpSocketAdapter
init = record { base = Adapter.init; sent = [] }

-- After the segment is parsed.
unfoldable pub accept :
    Address → TcpSegment × ParseResult → FdAdapterBase → Option TcpSegment × FdAdapterBase
unfolding set_listening
accept source_address (seg, result) b =
    if is_error result
    then (none, b)
    else if b.listening
    then if seg.header.syn && not seg.header.rst
      then (
        some seg,
        set_listening false (record b { cfg = record b.cfg { destination = source_address } }),
      )
      else (none, b)
    else (some seg, b)

unfoldable pub read_datagram : ReceivedDatagram → FdAdapterBase → Option TcpSegment × FdAdapterBase
unfolding accept
read_datagram datagram b =
    if not b.listening && not (equal datagram.source_address b.cfg.destination)
    then (none, b)
    else accept datagram.source_address (TcpSegment.parse TcpSegment.init datagram.payload 0) b

unfoldable pub read :
    ReceivedDatagram → TcpOverUdpSocketAdapter → Option TcpSegment × Outcome TcpOverUdpSocketAdapter
unfolding read_datagram
read datagram a =
    let (seg, b) = read_datagram datagram a.base in (seg, returned (record a { base = b }))

-- The caller's segment with its ports set, and the adapter.
unfoldable pub write :
    TcpSegment → TcpOverUdpSocketAdapter → TcpSegment × Outcome TcpOverUdpSocketAdapter
unfolding set_ports
write seg a =
    let seg' = set_ports a.base.cfg seg in
    elim (TcpSegment.serialize seg' 0) [
      | none ↦ (seg', threw a)
      | some bytes ↦
          (seg', returned (record a { sent = a.sent ++ (a.base.cfg.destination, bytes) ∷ [] }))
    ]

unfoldable pub adapter : IsAdapter TcpOverUdpSocketAdapter ReceivedDatagram
unfolding read write
adapter = record {
  config = λ a. a.base.cfg;
  read = read;
  write = write;
  set_config = λ cfg a. record a { base = record a.base { cfg = cfg } };
  set_listening = λ l a. record a { base = Adapter.set_listening l a.base };
  tick = λ ms a. returned a;
}
