-- ===== src/Adapter/RoundTrip.antt =====
-- A segment that is written through one adapter and read through the one at the other end.
use computer_network.Base.{
  ℕ, zero, ◌+◌, ◌*◌, ◌-◌, ◌^◌, ◌≤◌, ◌<◌, ◌≡◌, refl, sym, ap, false, some, List, [], ◌∷◌, ◌++◌, All,
  length, replicate, length-append, length-replicate, returned, arith,
}
use computer_network.Base.Bits.{bit_and-low}
use computer_network.NetParser.{no_error}
use computer_network.Ipv4Header.{Ipv4Header, pseudo_cksum, payload_length, proto_tcp}
use computer_network.Ipv4Header
use computer_network.Ipv4Header.Wire.{IsSized}
use computer_network.Ipv4Datagram.{Ipv4Datagram}
use computer_network.Ipv4Datagram
use computer_network.Ipv4Datagram.RoundTrip
use computer_network.TcpSegment.{TcpSegment}
use computer_network.TcpSegment
use computer_network.TcpSegment.RoundTrip.{
  with_cksum, wire_bytes, serialize_lem, parse-serialize_checked,
}
use computer_network.Adapter.{Address, FdAdapterConfig, FdAdapterBase, set_ports}
use computer_network.Adapter.Datagram.{addressed, wrap_tcp_in_ip, unwrap_tcp_in_ip}
use computer_network.Adapter.Unwrap.{IsFromPeer, unwrap-connected}
use computer_network.Adapter.Tun.{TcpOverIpv4OverTunFdAdapter, read, write}

-- A segment whose fields have their widths, with a header long enough and a payload of bytes, that
-- fits in one datagram.
pub record IsWritable (seg : TcpSegment) : Type 0 where
  pub seqno_small : seg.header.seqno.raw_value < 2 ^ 32
  pub ackno_small : seg.header.ackno.raw_value < 2 ^ 32
  pub doff_5 : 5 ≤ seg.header.doff
  pub doff_small : seg.header.doff < 2 ^ 4
  pub win_small : seg.header.win < 2 ^ 16
  pub uptr_small : seg.header.uptr < 2 ^ 16
  pub payload_bytes : All (λ b. b < 2 ^ 8) seg.payload
  pub fits : 20 + 4 * seg.header.doff + length seg.payload < 2 ^ 16

pub record IsAddress (a : Address) : Type 0 where
  pub ip_small : a.ipv4_numeric < 2 ^ 32
  pub port_small : a.port < 2 ^ 16

pub record IsEnds (cfg : FdAdapterConfig) : Type 0 where
  pub source : IsAddress cfg.source
  pub destination : IsAddress cfg.destination

pseudo_cksum-small :
    (h : Ipv4Header)
    → h.src < 2 ^ 32
    → h.dst < 2 ^ 32
    → h.proto < 2 ^ 8
    → pseudo_cksum h < 6 * 2 ^ 16
unfolding pseudo_cksum
pseudo_cksum-small h s d p = omega (arith, bit_and-low 16 h.src, bit_and-low 16 h.dst)

addressed-IsSized :
    (cfg : FdAdapterConfig) (seg : TcpSegment) → IsEnds cfg → IsSized (addressed cfg seg).header
unfolding addressed Ipv4Datagram.init Ipv4Header.init
addressed-IsSized cfg seg ends = record {
  ver_4 = refl;
  hlen_5 = omega arith;
  hlen_small = omega arith;
  tos_small = omega arith;
  len_small = omega arith;
  id_small = omega arith;
  offset_small = omega arith;
  ttl_small = omega arith;
  proto_small = omega arith;
  cksum_small = omega arith;
  src_small = ends.source.ip_small;
  dst_small = ends.destination.ip_small;
}

-- The datagram for a segment.
abbrev carried : FdAdapterConfig → TcpSegment → Ipv4Datagram
carried cfg seg =
    let d = addressed cfg seg in record d { payload = wire_bytes seg (pseudo_cksum d.header) }

wrap_tcp_in_ip_lem :
    (seg : TcpSegment) (cfg : FdAdapterConfig)
    → IsWritable seg
    → wrap_tcp_in_ip seg cfg ≡ (set_ports cfg seg, some (carried cfg (set_ports cfg seg)))
unfolding wrap_tcp_in_ip
wrap_tcp_in_ip_lem seg cfg v =
    let seg' = set_ports cfg seg in
    rw (wrap_tcp_in_ip, serialize_lem seg' (pseudo_cksum (addressed cfg seg').header) v.doff_5) refl

length-wire_bytes :
    (seg : TcpSegment) (initial : ℕ)
    → 5 ≤ seg.header.doff
    → length (wire_bytes seg initial) ≡ 4 * seg.header.doff + length seg.payload
length-wire_bytes seg initial l =
    let n = seg.header.doff * 4 - 20 in
    omega (arith, length-append (replicate n zero) seg.payload, length-replicate n zero)

-- The length in the header is the one of the payload.
length-carried :
    (cfg : FdAdapterConfig) (seg : TcpSegment)
    → 5 ≤ seg.header.doff
    → 20 + 4 * seg.header.doff + length seg.payload < 2 ^ 16
    → (length (carried cfg seg).payload ≡ payload_length (carried cfg seg).header)
      × (4 * (carried cfg seg).header.hlen ≤ (carried cfg seg).header.len)
unfolding addressed Ipv4Datagram.init Ipv4Header.init payload_length
length-carried cfg seg doff_5 fits =
    let len = length-wire_bytes seg (pseudo_cksum (addressed cfg seg).header) doff_5 in
    (omega (arith, len), omega arith)

-- The pair of addresses the other way around, at an adapter that is connected.
pub record IsOtherEnd (cfg : FdAdapterConfig) (b : FdAdapterBase) : Type 0 where
  pub connected : b.listening ≡ false
  pub source_is_destination : b.cfg.source ≡ cfg.destination
  pub destination_is_source : b.cfg.destination ≡ cfg.source

-- The checksum of the header does not count in the sum over the addresses.
pseudo_cksum-with_cksum :
    (cksum : ℕ) (h : Ipv4Header)
    → pseudo_cksum (Ipv4Datagram.RoundTrip.with_cksum cksum h) ≡ pseudo_cksum h
unfolding pseudo_cksum
pseudo_cksum-with_cksum cksum h = refl

-- What the segment is read back as, with its own checksum.
parse-carried :
    (cfg : FdAdapterConfig) (seg : TcpSegment)
    → IsWritable seg
    → IsEnds cfg
    → (cksum : ℕ) × (TcpSegment.parse TcpSegment.init
          (carried cfg (set_ports cfg seg)).payload
          (pseudo_cksum (addressed cfg (set_ports cfg seg)).header)
        ≡ (
          record (set_ports cfg seg) { header = with_cksum cksum (set_ports cfg seg).header },
          no_error,
        ))
unfolding set_ports
parse-carried cfg seg v ends =
    let seg' = set_ports cfg seg in
    let initial = pseudo_cksum (addressed cfg seg').header in
    let sized = addressed-IsSized cfg seg' ends in
    let small =
      pseudo_cksum-small (addressed cfg seg').header sized.src_small sized.dst_small
        sized.proto_small in
    parse-serialize_checked seg' TcpSegment.init initial (wire_bytes seg' initial)
      ends.source.port_small ends.destination.port_small v.seqno_small v.ackno_small v.doff_small
      v.win_small v.uptr_small v.payload_bytes (omega (arith, small, v.fits, v.doff_5)) v.doff_5
      (serialize_lem seg' initial v.doff_5)

-- The other end takes the segment out, whatever the checksum of the datagram's header is.
unwrap-carried :
    (cfg : FdAdapterConfig) (seg : TcpSegment) (b : FdAdapterBase) (datagram_cksum cksum : ℕ)
    → IsOtherEnd cfg b
    → TcpSegment.parse TcpSegment.init
        (carried cfg (set_ports cfg seg)).payload
        (pseudo_cksum (addressed cfg (set_ports cfg seg)).header)
      ≡ (
        record (set_ports cfg seg) { header = with_cksum cksum (set_ports cfg seg).header },
        no_error,
      )
    → IsFromPeer
        (record (carried cfg (set_ports cfg seg)) {
          header =
              Ipv4Datagram.RoundTrip.with_cksum datagram_cksum
                (addressed cfg (set_ports cfg seg)).header;
        })
        (record (set_ports cfg seg) { header = with_cksum cksum (set_ports cfg seg).header })
        b
unfolding addressed Ipv4Datagram.init Ipv4Header.init set_ports pseudo_cksum payload_length
unwrap-carried cfg seg b datagram_cksum cksum other e = record {
  is_tcp = refl;
  checked = e;
  to_source = sym (ap (λ a. a.ipv4_numeric) other.source_is_destination);
  from_destination = sym (ap (λ a. a.ipv4_numeric) other.destination_is_source);
  to_port = sym (ap (λ a. a.port) other.source_is_destination);
  from_port = sym (ap (λ a. a.port) other.destination_is_source);
  connected = other.connected;
}

write_lem :
    (a : TcpOverIpv4OverTunFdAdapter) (seg seg' : TcpSegment) (d : Ipv4Datagram) (bytes : List ℕ)
    → wrap_tcp_in_ip seg a.base.cfg ≡ (seg', some d)
    → Ipv4Datagram.serialize d ≡ some bytes
    → write seg a ≡ (seg', returned (record a { written = a.written ++ bytes ∷ [] }))
unfolding write
write_lem a seg seg' d bytes w s = rw (write, w, s, w) refl

read_lem :
    (r : TcpOverIpv4OverTunFdAdapter) (seg : TcpSegment) (d : Ipv4Datagram) (bytes : List ℕ)
    → Ipv4Datagram.parse Ipv4Datagram.init bytes ≡ (d, no_error)
    → unwrap_tcp_in_ip d r.base ≡ (some seg, r.base)
    → read bytes r ≡ (some seg, returned r)
unfolding read
read_lem r seg d bytes p u = rw (read, p, u) refl

-- A segment with fields of their widths that fits in a datagram, written through an adapter over a TUN
-- device, is written as one string; an adapter that is connected with the same two addresses the other
-- way around reads from it that segment, with the ports set and some checksum, and is unchanged.
pub read-write :
    (a r : TcpOverIpv4OverTunFdAdapter) (seg : TcpSegment)
    → IsWritable seg
    → IsEnds a.base.cfg
    → IsOtherEnd a.base.cfg r.base
    → (bytes : List ℕ) × (write seg a
        ≡ (set_ports a.base.cfg seg, returned (record a { written = a.written ++ bytes ∷ [] })))
      × ((cksum : ℕ) × (read bytes r ≡ (
        some (record seg { header = with_cksum cksum (set_ports a.base.cfg seg).header }),
        returned r,
      )))
unfolding set_ports
read-write a r seg v ends other =
    let cfg = a.base.cfg in
    let seg' = set_ports cfg seg in
    let d = carried cfg seg' in
    let sized = addressed-IsSized cfg seg' ends in
    let (len, long) = length-carried cfg seg' v.doff_5 v.fits in
    let written = Ipv4Datagram.RoundTrip.serialize_lem d sized len in
    let (datagram_cksum, e) =
      Ipv4Datagram.RoundTrip.parse-serialize_datagram d Ipv4Datagram.init
        (Ipv4Datagram.RoundTrip.wire_bytes d) sized long written in
    let (cksum, p) = parse-carried cfg seg v ends in
    let u =
      unwrap-connected _ _ r.base (unwrap-carried cfg seg r.base datagram_cksum cksum other p) in
    (
      Ipv4Datagram.RoundTrip.wire_bytes d,
      write_lem a seg seg' d _ (wrap_tcp_in_ip_lem seg cfg v) written,
      (cksum, read_lem r _ _ _ e u),
    )
