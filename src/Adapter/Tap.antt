-- ===== src/Adapter/Tap.antt =====
-- libsponge/tcp_helpers/tuntap_adapter.hh and tuntap_adapter.cc: TCP segments in Internet datagrams in
-- Ethernet frames over a TAP device.
use computer_network.Base.{
  ℕ, Option, none, some, List, [], ◌∷◌, ◌++◌, if◌then◌else◌, Outcome, returned, threw,
}
use computer_network.NetParser.{is_error, ParseResult}
use computer_network.Ipv4Datagram.{Ipv4Datagram}
use computer_network.EthernetHeader.{
  EthernetAddress, EthernetFrame, zero_address, parse_frame, serialize_frame,
}
use computer_network.NetworkInterface.{NetworkInterface}
use computer_network.NetworkInterface
use computer_network.TcpSegment.{TcpSegment}
use computer_network.Adapter.{FdAdapterBase, IsAdapter}
use computer_network.Adapter
use computer_network.Adapter.Datagram.{unwrap_tcp_in_ip, wrap_tcp_in_ip}

-- `written` is what was written to the device, oldest first; `next_hop` is the number that
-- `send_datagram` takes of the address.
pub record TcpOverIpv4OverEthernetAdapter : Type 0 where
  pub base : FdAdapterBase
  pub written : List (List ℕ)
  pub network_interface : NetworkInterface
  pub next_hop : ℕ

-- `EthernetFrame dummy_frame;`: the addresses and the type are initialised to zeros.
unfoldable pub dummy_frame : EthernetFrame
dummy_frame = record {
  header = record { dst = zero_address; src = zero_address; frame_type = 0 };
  payload = [];
}

unfoldable pub init : EthernetAddress → ℕ → ℕ → TcpOverIpv4OverEthernetAdapter
unfolding dummy_frame
init eth_address ip_address next_hop = record {
  base = Adapter.init;
  written = serialize_frame dummy_frame ∷ [];
  network_interface = NetworkInterface.init eth_address ip_address;
  next_hop = next_hop;
}

-- The loop over the queue.
unfoldable pub write_frames : List EthernetFrame → List (List ℕ) → List (List ℕ)
write_frames [] written = written
write_frames (frame ∷ frames) written = write_frames frames (written ++ serialize_frame frame ∷ [])

unfoldable pub send_pending : TcpOverIpv4OverEthernetAdapter → TcpOverIpv4OverEthernetAdapter
unfolding write_frames
send_pending a = record a {
  written = write_frames a.network_interface.frames_out a.written;
  network_interface = record a.network_interface { frames_out = [] };
}

-- After a method of the interface that may throw.
unfoldable pub then_send :
    Outcome NetworkInterface
    → TcpOverIpv4OverEthernetAdapter
    → Outcome TcpOverIpv4OverEthernetAdapter
unfolding send_pending
then_send (returned n) a = returned (send_pending (record a { network_interface = n }))
then_send (threw n) a = threw (record a { network_interface = n })

-- The last step of `read`.
unfoldable pub unwrap :
    Option Ipv4Datagram
    → Outcome TcpOverIpv4OverEthernetAdapter
    → Option TcpSegment × Outcome TcpOverIpv4OverEthernetAdapter
unwrap ip_dgram (threw a) = (none, threw a)
unwrap none (returned a) = (none, returned a)
unwrap (some ip_dgram) (returned a) =
    let (seg, b) = unwrap_tcp_in_ip ip_dgram a.base in (seg, returned (record a { base = b }))

-- After the frame is parsed.
unfoldable pub receive :
    EthernetFrame × ParseResult
    → TcpOverIpv4OverEthernetAdapter
    → Option TcpSegment × Outcome TcpOverIpv4OverEthernetAdapter
unfolding unwrap then_send
receive (frame, result) a =
    if is_error result
    then (none, returned a)
    else (let (ip_dgram, n) = NetworkInterface.recv_frame frame a.network_interface in
        unwrap ip_dgram (then_send n a))

unfoldable pub read :
    List ℕ
    → TcpOverIpv4OverEthernetAdapter
    → Option TcpSegment × Outcome TcpOverIpv4OverEthernetAdapter
unfolding receive dummy_frame
read bytes a = receive (parse_frame dummy_frame bytes) a

unfoldable pub tick : ℕ → TcpOverIpv4OverEthernetAdapter → Outcome TcpOverIpv4OverEthernetAdapter
unfolding then_send
tick ms_since_last_tick a =
    then_send (returned (NetworkInterface.tick ms_since_last_tick a.network_interface)) a

unfoldable pub write :
    TcpSegment
    → TcpOverIpv4OverEthernetAdapter
    → TcpSegment × Outcome TcpOverIpv4OverEthernetAdapter
unfolding then_send
write seg a =
    let (seg', ip_dgram) = wrap_tcp_in_ip seg a.base.cfg in
    elim ip_dgram [
      | none ↦ (seg', threw a)
      | some d ↦
          (seg', then_send (NetworkInterface.send_datagram d a.next_hop a.network_interface) a)
    ]

unfoldable pub adapter : IsAdapter TcpOverIpv4OverEthernetAdapter (List ℕ)
unfolding read write tick
adapter = record {
  config = λ a. a.base.cfg;
  read = read;
  write = write;
  set_config = λ cfg a. record a { base = record a.base { cfg = cfg } };
  set_listening = λ l a. record a { base = Adapter.set_listening l a.base };
  tick = tick;
}
