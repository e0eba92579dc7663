-- ===== src/Adapter/Runs.antt =====
-- The adapters at concrete inputs: a listener on port 80, and two ends of a TUN device.
use computer_network.Base.{
  ℕ, ◌+◌, ◌*◌, ◌≡◌, refl, true, false, some, List, [], ◌∷◌, ◌++◌, returned, arith,
}
use computer_network.InternetChecksum
use computer_network.NetParser.{start, u32, u16, u8, remove_prefix}
use computer_network.Ipv4Header
use computer_network.Ipv4Datagram.{Ipv4Datagram}
use computer_network.TcpHeader.{TcpHeader}
use computer_network.TcpHeader
use computer_network.TcpSegment.{TcpSegment}
use computer_network.TcpSegment
use computer_network.TcpSegment.RoundTrip.{with_cksum}
use computer_network.Adapter.{Address, FdAdapterBase, init, set_ports}
use computer_network.Adapter.Datagram.{unwrap_tcp_in_ip}
use computer_network.Adapter.Udp.{ReceivedDatagram, read_datagram}
use computer_network.Adapter.Udp
use computer_network.Adapter.Tun.{TcpOverIpv4OverTunFdAdapter, read, write}
use computer_network.Adapter.Lossy.{LossyFdAdapter, adapter}
use computer_network.Adapter.Loss.{write_all, on_outcome, survivors, KeepsRate, write_all-survivors}
use computer_network.Adapter.Unwrap.{IsFromPeer, unwrap_tcp_in_ip-IsFromPeer}
use computer_network.Adapter.RoundTrip.{IsWritable, IsEnds, IsOtherEnd, read-write}

abbrev client : Address
client = record { ipv4_numeric = 0x0a00_0001; port = 0x1234 }

abbrev server : Address
server = record { ipv4_numeric = 0x0a00_0002; port = 80 }

-- A SYN from the client to the server, as the adapters over datagrams and over UDP get it.
abbrev syn_bytes : List ℕ
syn_bytes =
    18 ∷ 52 ∷ 0 ∷ 80 ∷ 0 ∷ 0 ∷ 0 ∷ 1 ∷ 0 ∷ 0 ∷ 0 ∷ 0 ∷ 80 ∷ 2 ∷ 3 ∷ 232 ∷ 133 ∷ 115 ∷ 0 ∷ 0 ∷ []

abbrev syn_udp_bytes : List ℕ
syn_udp_bytes =
    18 ∷ 52 ∷ 0 ∷ 80 ∷ 0 ∷ 0 ∷ 0 ∷ 1 ∷ 0 ∷ 0 ∷ 0 ∷ 0 ∷ 80 ∷ 2 ∷ 3 ∷ 232 ∷ 153 ∷ 144 ∷ 0 ∷ 0 ∷ []

abbrev syn_segment : ℕ → TcpSegment
syn_segment cksum = record {
  header = record TcpHeader.init {
    sport = 0x1234;
    dport = 80;
    seqno = record { raw_value = 1 };
    syn = true;
    win = 1000;
    cksum = cksum;
  };
  payload = [];
}

abbrev syn_datagram : Ipv4Datagram
syn_datagram = record {
  header = record Ipv4Header.init { len = 40; src = 0x0a00_0001; dst = 0x0a00_0002 };
  payload = syn_bytes;
}

abbrev syn_received : ReceivedDatagram
syn_received = record { source_address = client; payload = syn_udp_bytes }

abbrev listener : FdAdapterBase
listener = record init {
  cfg = record init.cfg { source = record { ipv4_numeric = 0; port = 80 } };
  listening = true;
}

syn_unwrapped : (unwrap_tcp_in_ip syn_datagram listener).0 ≡ some (syn_segment 34163)
unfolding unwrap_tcp_in_ip TcpSegment.init TcpHeader.init Ipv4Header.init Ipv4Header.pseudo_cksum
    init TcpSegment.parse start u32 u16 u8 remove_prefix InternetChecksum.init InternetChecksum.add
    InternetChecksum.value TcpHeader.parse
syn_unwrapped = refl

syn_read : (read_datagram syn_received listener).0 ≡ some (syn_segment 39312)
unfolding read_datagram TcpSegment.init TcpHeader.init init TcpSegment.parse start u32 u16 u8
    remove_prefix InternetChecksum.init InternetChecksum.add InternetChecksum.value TcpHeader.parse
syn_read = refl

unwrap_tcp_in_ip-IsFromPeer_example :
    IsFromPeer syn_datagram (syn_segment 34163) (unwrap_tcp_in_ip syn_datagram listener).1
    × ((unwrap_tcp_in_ip syn_datagram listener).1.cfg.source.port ≡ listener.cfg.source.port)
    × (listener.listening ≡ false → (unwrap_tcp_in_ip syn_datagram listener).1 ≡ listener)
unwrap_tcp_in_ip-IsFromPeer_example =
    unwrap_tcp_in_ip-IsFromPeer syn_datagram listener (syn_segment 34163) syn_unwrapped

-- The client's end of the device and the server's.
abbrev end_between : Address → Address → TcpOverIpv4OverTunFdAdapter
end_between source destination = record {
  base = record init { cfg = record init.cfg { source = source; destination = destination } };
  written = [];
}

abbrev greeting : TcpSegment
greeting = record { header = record TcpHeader.init { ack = true }; payload = 104 ∷ 105 ∷ [] }

greeting-IsWritable : IsWritable greeting
unfolding TcpHeader.init
greeting-IsWritable = record {
  seqno_small = omega arith;
  ackno_small = omega arith;
  doff_5 = omega arith;
  doff_small = omega arith;
  win_small = omega arith;
  uptr_small = omega arith;
  payload_bytes = (omega arith, (omega arith, tt));
  fits = omega arith;
}

client-IsEnds : IsEnds (end_between client server).base.cfg
unfolding init
client-IsEnds = record {
  source = record { ip_small = omega arith; port_small = omega arith };
  destination = record { ip_small = omega arith; port_small = omega arith };
}

server-IsOtherEnd : IsOtherEnd (end_between client server).base.cfg (end_between server client).base
unfolding init
server-IsOtherEnd = record {
  connected = refl;
  source_is_destination = refl;
  destination_is_source = refl;
}

read-write_example :
    (bytes : List ℕ) × (write greeting (end_between client server) ≡ (
      set_ports (end_between client server).base.cfg greeting,
      returned (record (end_between client server) { written = [] ++ bytes ∷ [] }),
    ))
    × ((cksum : ℕ) × (read bytes (end_between server client) ≡ (
      some (record greeting {
        header = with_cksum cksum (set_ports (end_between client server).base.cfg greeting).header;
      }),
      returned (end_between server client),
    )))
read-write_example =
    read-write (end_between client server) (end_between server client) greeting greeting-IsWritable
      client-IsEnds server-IsOtherEnd

-- Three segments through an adapter that drops about half of them, with a generator that counts.
abbrev count : ℕ → ℕ × ℕ
count n = (n * 30000, n + 1)

abbrev lossy : LossyFdAdapter Udp.adapter count
lossy = record {
  generator = 1;
  adapter = record Udp.init {
    base = record init { cfg = record init.cfg { loss_rate_up = 32768 } };
  };
}

keeps_rate : KeepsRate Udp.adapter count
unfolding Udp.adapter Udp.write
keeps_rate seg a = ground arith

write_all-survivors_example :
    on_outcome
      (λ l. l.adapter)
      (write_all (adapter Udp.adapter count) (greeting ∷ greeting ∷ greeting ∷ []) lossy)
    ≡ write_all Udp.adapter
        (survivors Udp.adapter count 32768 (greeting ∷ greeting ∷ greeting ∷ []) 1)
        lossy.adapter
unfolding Udp.adapter
write_all-survivors_example =
    write_all-survivors Udp.adapter count keeps_rate (greeting ∷ greeting ∷ greeting ∷ []) lossy
