-- ===== src/EthernetHeader/RoundTrip.antt =====
-- Reading back the frames that the serialiser writes.
use computer_network.Base.{
  ℕ, ◌^◌, ◌<◌, ◌≡◌, refl, false, List, [], ◌++◌, length, append_assoc, ltb, arith,
}
use computer_network.NetParser.{start, no_error}
use computer_network.NetParser.RoundTrip.{be16, be8, put_u16_lem, put_u8_lem, u16-start, u8-start}
use computer_network.EthernetHeader.{
  EthernetAddress, EthernetHeader, EthernetFrame, put_address, read_header, parse_header,
  serialize_header, parse_frame, serialize_frame, header_length,
}

-- Every byte of an address is one.
abbrev pub IsSized : EthernetAddress → Type 0
IsSized a =
    (a.b0 < 2 ^ 8)
    × (a.b1 < 2 ^ 8)
    × (a.b2 < 2 ^ 8)
    × (a.b3 < 2 ^ 8)
    × (a.b4 < 2 ^ 8)
    × (a.b5 < 2 ^ 8)

abbrev pub address : EthernetAddress → List ℕ → List ℕ
address a rest =
    be8 a.b0 ++ (be8 a.b1 ++ (be8 a.b2 ++ (be8 a.b3 ++ (be8 a.b4 ++ (be8 a.b5 ++ rest)))))

pub put_address_lem : (s : List ℕ) (a : EthernetAddress) → put_address s a ≡ s ++ address a []
unfolding put_address
put_address_lem s a =
    rw
      (
        put_u8_lem s a.b0,
        put_u8_lem (s ++ be8 a.b0) a.b1,
        put_u8_lem _ a.b2,
        put_u8_lem _ a.b3,
        put_u8_lem _ a.b4,
        put_u8_lem _ a.b5,
      )
      (simp (append_assoc) refl)

read_header-start :
    (h : EthernetHeader) (rest : List ℕ)
    → IsSized h.dst
    → IsSized h.src
    → h.frame_type < 2 ^ 16
    → read_header (start (address h.dst (address h.src (be16 h.frame_type ++ rest))))
      ≡ ((h, no_error), start rest)
unfolding read_header start
read_header-start h rest (d0, d1, d2, d3, d4, d5) (s0, s1, s2, s3, s4, s5) t =
    rw
      (
        u8-start h.dst.b0 _ d0,
        u8-start h.dst.b1 _ d1,
        u8-start h.dst.b2 _ d2,
        u8-start h.dst.b3 _ d3,
        u8-start h.dst.b4 _ d4,
        u8-start h.dst.b5 _ d5,
        u8-start h.src.b0 _ s0,
        u8-start h.src.b1 _ s1,
        u8-start h.src.b2 _ s2,
        u8-start h.src.b3 _ s3,
        u8-start h.src.b4 _ s4,
        u8-start h.src.b5 _ s5,
        u16-start h.frame_type rest t,
      )
      refl

serialize_frame_lem :
    (f : EthernetFrame)
    → serialize_frame f
      ≡ address f.header.dst (address f.header.src (be16 f.header.frame_type ++ f.payload))
unfolding serialize_frame serialize_header
serialize_frame_lem f =
    rw
      (
        put_address_lem [] f.header.dst,
        put_address_lem (address f.header.dst []) f.header.src,
        put_u16_lem (address f.header.dst (address f.header.src [])) f.header.frame_type,
      )
      refl

parse_header-start :
    (h : EthernetHeader) (f : EthernetFrame)
    → IsSized f.header.dst
    → IsSized f.header.src
    → f.header.frame_type < 2 ^ 16
    → parse_header h (
        start (address f.header.dst (address f.header.src (be16 f.header.frame_type ++ f.payload))))
      ≡ ((f.header, no_error), start f.payload)
unfolding parse_header start
parse_header-start h f d s t =
    let bytes =
      address f.header.dst (address f.header.src (be16 f.header.frame_type ++ f.payload)) in
    let long : ltb (length bytes) header_length ≡ false = grind arith in
    rw long (read_header-start f.header f.payload d s t)

-- A frame whose addresses and type have their widths is read back as it was.
pub parse_frame-serialize_frame :
    (f g : EthernetFrame)
    → IsSized f.header.dst
    → IsSized f.header.src
    → f.header.frame_type < 2 ^ 16
    → parse_frame g (serialize_frame f) ≡ (f, no_error)
unfolding parse_frame start
parse_frame-serialize_frame f g d s t =
    rw (serialize_frame_lem f, parse_header-start g.header f d s t) refl
