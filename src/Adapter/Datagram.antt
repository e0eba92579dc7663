-- ===== src/Adapter/Datagram.antt =====
-- libsponge/tcp_helpers/tcp_over_ip.hh and tcp_over_ip.cc: TCP segments in Internet datagrams.
use computer_network.Base.{
  ◌+◌, ◌*◌, ◌%◌, ◌^◌, false, not, ◌&&◌, Option, none, some, length, ◌==◌, if◌then◌else◌,
}
use computer_network.NetParser.{is_error, ParseResult}
use computer_network.Ipv4Header.{pseudo_cksum, proto_tcp}
use computer_network.Ipv4Datagram.{Ipv4Datagram}
use computer_network.Ipv4Datagram
use computer_network.TcpSegment.{TcpSegment}
use computer_network.TcpSegment
use computer_network.Adapter.{FdAdapterConfig, FdAdapterBase, set_listening, set_ports}

-- The whole if (listening()) branch: `none` where it returns.
unfoldable pub listen : Ipv4Datagram → TcpSegment → FdAdapterBase → Option FdAdapterBase
unfolding set_listening
listen ip_dgram tcp_seg b =
    if b.listening
    then if tcp_seg.header.syn && not tcp_seg.header.rst
      then some (
          set_listening false (record b {
            cfg = record b.cfg {
              source = record { ipv4_numeric = ip_dgram.header.dst; port = b.cfg.source.port };
              destination = record {
                ipv4_numeric = ip_dgram.header.src;
                port = tcp_seg.header.sport;
              };
            };
          }))
      else none
    else some b

-- After the segment is parsed.
unfoldable pub accept :
    Ipv4Datagram → TcpSegment × ParseResult → FdAdapterBase → Option TcpSegment × FdAdapterBase
unfolding listen
accept ip_dgram (tcp_seg, result) b =
    if is_error result
    then (none, b)
    else if not (tcp_seg.header.dport == b.cfg.source.port)
    then (none, b)
    else elim (listen ip_dgram tcp_seg b) [
      | none ↦ (none, b)
      | some b' ↦
          if not (tcp_seg.header.sport == b'.cfg.destination.port)
          then (none, b')
          else (some tcp_seg, b')
    ]

unfoldable pub unwrap_tcp_in_ip : Ipv4Datagram → FdAdapterBase → Option TcpSegment × FdAdapterBase
unfolding accept
unwrap_tcp_in_ip ip_dgram b =
    if not b.listening && not (ip_dgram.header.dst == b.cfg.source.ipv4_numeric)
    then (none, b)
    else if not b.listening && not (ip_dgram.header.src == b.cfg.destination.ipv4_numeric)
    then (none, b)
    else if not (ip_dgram.header.proto == proto_tcp)
    then (none, b)
    else accept ip_dgram
        (TcpSegment.parse TcpSegment.init ip_dgram.payload (pseudo_cksum ip_dgram.header)) b

-- The datagram before its payload is set. The length is a `uint16_t`.
unfoldable pub addressed : FdAdapterConfig → TcpSegment → Ipv4Datagram
addressed cfg seg =
    let d = Ipv4Datagram.init in
    record d {
      header = record d.header {
        src = cfg.source.ipv4_numeric;
        dst = cfg.destination.ipv4_numeric;
        len = (d.header.hlen * 4 + seg.header.doff * 4 + length seg.payload) % 2 ^ 16;
      };
    }

-- The caller's segment with its ports set, and the datagram; `none` is the exception of `serialize`.
unfoldable pub wrap_tcp_in_ip : TcpSegment → FdAdapterConfig → TcpSegment × Option Ipv4Datagram
unfolding addressed set_ports
wrap_tcp_in_ip seg cfg =
    let seg' = set_ports cfg seg in
    let d = addressed cfg seg' in
    elim (TcpSegment.serialize seg' (pseudo_cksum d.header)) [
      | none ↦ (seg', none)
      | some bytes ↦ (seg', some (record d { payload = bytes }))
    ]
