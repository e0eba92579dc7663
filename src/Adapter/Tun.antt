-- ===== src/Adapter/Tun.antt =====
-- libsponge/tcp_helpers/tuntap_adapter.hh: TCP segments in Internet datagrams over a TUN device.
use computer_network.Base.{
  ℕ, Option, none, some, List, [], ◌∷◌, ◌++◌, if◌then◌else◌, Outcome, returned, threw,
}
use computer_network.NetParser.{is_error, ParseResult}
use computer_network.Ipv4Datagram.{Ipv4Datagram}
use computer_network.Ipv4Datagram
use computer_network.TcpSegment.{TcpSegment}
use computer_network.Adapter.{FdAdapterBase, IsAdapter}
use computer_network.Adapter
use computer_network.Adapter.Datagram.{unwrap_tcp_in_ip, wrap_tcp_in_ip}

-- `written` is what was written to the device, oldest first.
pub record TcpOverIpv4OverTunFdAdapter : Type 0 where
  pub base : FdAdapterBase
  pub written : List (List ℕ)

unfoldable pub init : TcpOverIpv4OverTunFdAdapter
init = record { base = Adapter.init; written = [] }

-- After the datagram is parsed.
unfoldable pub unwrap :
    Ipv4Datagram × ParseResult → FdAdapterBase → Option TcpSegment × FdAdapterBase
unwrap (ip_dgram, result) b = if is_error result then (none, b) else unwrap_tcp_in_ip ip_dgram b

unfoldable pub read :
    List ℕ → TcpOverIpv4OverTunFdAdapter → Option TcpSegment × Outcome TcpOverIpv4OverTunFdAdapter
unfolding unwrap
read bytes a =
    let (seg, b) = unwrap (Ipv4Datagram.parse Ipv4Datagram.init bytes) a.base in
    (seg, returned (record a { base = b }))

-- `none` is the exception of one `serialize` or the other.
unfoldable pub bytes_of : Option Ipv4Datagram → Option (List ℕ)
bytes_of none = none
bytes_of (some d) = Ipv4Datagram.serialize d

unfoldable pub write :
    TcpSegment → TcpOverIpv4OverTunFdAdapter → TcpSegment × Outcome TcpOverIpv4OverTunFdAdapter
unfolding bytes_of
write seg a =
    let (seg', ip_dgram) = wrap_tcp_in_ip seg a.base.cfg in
    elim (bytes_of ip_dgram) [
      | none ↦ (seg', threw a)
      | some bytes ↦ (seg', returned (record a { written = a.written ++ bytes ∷ [] }))
    ]

unfoldable pub adapter : IsAdapter TcpOverIpv4OverTunFdAdapter (List ℕ)
unfolding read write
adapter = record {
  config = λ a. a.base.cfg;
  read = read;
  write = write;
  set_config = λ cfg a. record a { base = record a.base { cfg = cfg } };
  set_listening = λ l a. record a { base = Adapter.set_listening l a.base };
  tick = λ ms a. returned a;
}
