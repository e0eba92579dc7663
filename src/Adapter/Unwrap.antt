-- ===== src/Adapter/Unwrap.antt =====
-- Which segments the adapters let through.
use computer_network.Base.{◌≡◌, refl, ◌==◌, true, false, none, some, arith}
use computer_network.NetParser.{no_error}
use computer_network.Ipv4Header.{pseudo_cksum, proto_tcp}
use computer_network.Ipv4Datagram.{Ipv4Datagram}
use computer_network.TcpSegment.{TcpSegment}
use computer_network.TcpSegment
use computer_network.Adapter.{Address, equal, FdAdapterBase}
use computer_network.Adapter.Datagram.{unwrap_tcp_in_ip}
use computer_network.Adapter.Udp.{ReceivedDatagram, read_datagram}

-- What the adapter lets through is TCP from its peer and for itself, and it is connected to that peer.
pub record IsFromPeer (d : Ipv4Datagram) (seg : TcpSegment) (b : FdAdapterBase) : Type 0 where
  pub is_tcp : d.header.proto ≡ proto_tcp
  pub checked : TcpSegment.parse TcpSegment.init d.payload (pseudo_cksum d.header) ≡ (seg, no_error)
  pub to_source : d.header.dst ≡ b.cfg.source.ipv4_numeric
  pub from_destination : d.header.src ≡ b.cfg.destination.ipv4_numeric
  pub to_port : seg.header.dport ≡ b.cfg.source.port
  pub from_port : seg.header.sport ≡ b.cfg.destination.port
  pub connected : b.listening ≡ false

-- The same for an adapter over UDP, whose peer is an address of a socket.
record IsUdpFromPeer (d : ReceivedDatagram) (seg : TcpSegment) (b : FdAdapterBase) : Type 0 where
  pub checked : TcpSegment.parse TcpSegment.init d.payload 0 ≡ (seg, no_error)
  pub from_destination : equal d.source_address b.cfg.destination ≡ true
  pub connected : b.listening ≡ false

equal_refl : (a : Address) → equal a a ≡ true
equal_refl a = ground arith

-- A segment that the adapter over datagrams gives was parsed without an error from TCP of its peer's
-- address and port to its own, by the addresses that it has afterwards, and it no longer listens; its
-- own port is kept, and where it did not listen before it is unchanged.
pub unwrap_tcp_in_ip-IsFromPeer :
    (d : Ipv4Datagram) (b : FdAdapterBase) (seg : TcpSegment)
    → (unwrap_tcp_in_ip d b).0 ≡ some seg
    → IsFromPeer d seg (unwrap_tcp_in_ip d b).1
      × ((unwrap_tcp_in_ip d b).1.cfg.source.port ≡ b.cfg.source.port)
      × (b.listening ≡ false → (unwrap_tcp_in_ip d b).1 ≡ b)
unfolding unwrap_tcp_in_ip
unwrap_tcp_in_ip-IsFromPeer d b seg e = (
  record {
    is_tcp = ground arith;
    checked = ground arith;
    to_source = ground arith;
    from_destination = ground arith;
    to_port = ground arith;
    from_port = ground arith;
    connected = ground arith;
  },
  ground arith,
  λ l. ground arith,
)

-- A segment that the adapter over UDP gives was parsed without an error from a datagram of the address
-- that is its peer's afterwards, and it no longer listens; where it did not listen before it is
-- unchanged.
read_datagram-IsUdpFromPeer :
    (d : ReceivedDatagram) (b : FdAdapterBase) (seg : TcpSegment)
    → (read_datagram d b).0 ≡ some seg
    → IsUdpFromPeer d seg (read_datagram d b).1 × (b.listening ≡ false → (read_datagram d b).1 ≡ b)
unfolding read_datagram
read_datagram-IsUdpFromPeer d b seg e = (
  record {
    checked = ground arith;
    from_destination = ground (arith, equal_refl d.source_address);
    connected = ground arith;
  },
  λ l. ground arith,
)

-- An adapter that gives no segment is as it was, over datagrams and over UDP: only with the segment
-- that it gives does it take a peer.
unwrap_tcp_in_ip-none :
    (d : Ipv4Datagram) (u : ReceivedDatagram) (b : FdAdapterBase)
    → ((unwrap_tcp_in_ip d b).0 ≡ none → (unwrap_tcp_in_ip d b).1 ≡ b)
      × ((read_datagram u b).0 ≡ none → (read_datagram u b).1 ≡ b)
unfolding unwrap_tcp_in_ip read_datagram
unwrap_tcp_in_ip-none d u b = (λ e. ground arith, λ e. ground arith)

-- The converse for an adapter that is connected.
pub unwrap-connected :
    (d : Ipv4Datagram) (seg : TcpSegment) (b : FdAdapterBase)
    → IsFromPeer d seg b
    → unwrap_tcp_in_ip d b ≡ (some seg, b)
unfolding unwrap_tcp_in_ip
unwrap-connected d seg b v =
    let to : d.header.dst == b.cfg.source.ipv4_numeric ≡ true = grind (arith, v.to_source) in
    let from : d.header.src == b.cfg.destination.ipv4_numeric ≡ true =
      grind (arith, v.from_destination) in
    let tcp : d.header.proto == proto_tcp ≡ true = grind (arith, v.is_tcp) in
    let port : seg.header.dport == b.cfg.source.port ≡ true = grind (arith, v.to_port) in
    let peer : seg.header.sport == b.cfg.destination.port ≡ true = grind (arith, v.from_port) in
    rw (v.connected, to, from, tcp, v.checked, port, peer) refl
