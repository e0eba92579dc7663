-- ===== src/TcpHeader/RoundTrip.antt =====
-- Reading back the headers that the serialiser writes.
use computer_network.Base.{
  ℕ, ◌-◌, ◌*◌, ◌/◌, ◌%◌, ◌^◌, ◌≤◌, ◌<◌, ◌≡◌, refl, ◌∙◌, Bool, false, some, List, [], ◌++◌, take_all,
  replicate, ltb, arith,
}
use computer_network.NetParser.{start, no_error}
use computer_network.NetParser.RoundTrip.{
  be32, be16, be8, put_u32_lem, put_u16_lem, put_u8_lem, u32-start, u16-start, u8-start,
  remove_prefix-replicate,
}
use computer_network.TcpHeader.{
  TcpHeader, parse, serialize, fields, flag, flags_byte, resize, skip_options,
}

-- The flags as the parser takes them out of a byte.
flags_read :
    (urg ack psh rst syn fin : Bool)
    → (flag (flags_byte urg ack psh rst syn fin) 0b0010_0000 ≡ urg)
      × (flag (flags_byte urg ack psh rst syn fin) 0b0001_0000 ≡ ack)
      × (flag (flags_byte urg ack psh rst syn fin) 0b0000_1000 ≡ psh)
      × (flag (flags_byte urg ack psh rst syn fin) 0b0000_0100 ≡ rst)
      × (flag (flags_byte urg ack psh rst syn fin) 0b0000_0010 ≡ syn)
      × (flag (flags_byte urg ack psh rst syn fin) 0b0000_0001 ≡ fin)
      × (flags_byte urg ack psh rst syn fin < 2 ^ 8)
unfolding flags_byte
flags_read urg ack psh rst syn fin = ground arith

-- The bytes of the fields, in their order, with what follows them.
abbrev pub wire : TcpHeader → List ℕ → List ℕ
wire h rest =
    be16 h.sport
    ++ (be16 h.dport
        ++ (be32 h.seqno.raw_value
            ++ (be32 h.ackno.raw_value
                ++ (be8 (h.doff * 2 ^ 4 % 2 ^ 8)
                    ++ (be8 (flags_byte h.urg h.ack h.psh h.rst h.syn h.fin)
                        ++ (be16 h.win ++ (be16 h.cksum ++ (be16 h.uptr ++ rest))))))))

fields_lem : (h : TcpHeader) → fields h ≡ wire h []
unfolding fields
fields_lem h =
    rw
      (
        put_u16_lem _ h.sport,
        put_u16_lem _ h.dport,
        put_u32_lem _ h.seqno.raw_value,
        put_u32_lem _ h.ackno.raw_value,
        put_u8_lem _ (h.doff * 2 ^ 4 % 2 ^ 8),
        put_u8_lem _ (flags_byte h.urg h.ack h.psh h.rst h.syn h.fin),
        put_u16_lem _ h.win,
        put_u16_lem _ h.cksum,
        put_u16_lem _ h.uptr,
      )
      refl

pub parse-wire :
    (h : TcpHeader) (rest : List ℕ)
    → h.sport < 2 ^ 16
    → h.dport < 2 ^ 16
    → h.seqno.raw_value < 2 ^ 32
    → h.ackno.raw_value < 2 ^ 32
    → h.doff < 2 ^ 4
    → h.win < 2 ^ 16
    → h.cksum < 2 ^ 16
    → h.uptr < 2 ^ 16
    → parse (start (wire h rest)) ≡ skip_options h (start rest)
unfolding parse
parse-wire h rest a b c d e f g i =
    let flags = flags_byte h.urg h.ack h.psh h.rst h.syn h.fin in
    let (q1, q2, q3, q4, q5, q6, small) = flags_read h.urg h.ack h.psh h.rst h.syn h.fin in
    let doff_read : h.doff * 2 ^ 4 % 2 ^ 8 / 2 ^ 4 ≡ h.doff = omega arith in
    rw
      (
        u16-start h.sport _ a,
        u16-start h.dport _ b,
        u32-start h.seqno.raw_value _ c,
        u32-start h.ackno.raw_value _ d,
        u8-start (h.doff * 2 ^ 4 % 2 ^ 8) _ (omega arith),
        u8-start flags _ small,
        u16-start h.win _ f,
        u16-start h.cksum _ g,
        u16-start h.uptr _ i,
        doff_read,
        q1,
        q2,
        q3,
        q4,
        q5,
        q6,
      )
      refl

-- The options are as many zero bytes as the length of the header leaves room for.
pub padded :
    (h : TcpHeader)
    → 5 ≤ h.doff
    → resize (4 * h.doff) (fields h) ≡ wire h (replicate (h.doff * 4 - 20) 0)
padded h l =
    let room : 4 * h.doff - 20 ≡ h.doff * 4 - 20 = omega arith in
    rw (fields_lem h, take_all (4 * h.doff) (wire h []) (omega arith), room) refl

pub serialize-wire :
    (h : TcpHeader) → 5 ≤ h.doff → serialize h ≡ some (wire h (replicate (h.doff * 4 - 20) 0))
unfolding serialize
serialize-wire h l = let long : ltb h.doff 5 ≡ false = grind arith in rw (long, padded h l) refl

pub skip_options-replicate :
    (h : TcpHeader) (rest : List ℕ)
    → 5 ≤ h.doff
    → skip_options h (start (replicate (h.doff * 4 - 20) 0 ++ rest)) ≡ ((h, no_error), start rest)
unfolding skip_options start
skip_options-replicate h rest l =
    let long : ltb h.doff 5 ≡ false = grind arith in
    rw (long, remove_prefix-replicate (h.doff * 4 - 20) rest) refl

-- A header of at most 15 words whose fields have the widths of their C++ types, and which is long
-- enough, is read back as it was, and what follows it is left.
pub parse-serialize :
    (h : TcpHeader) (bytes rest : List ℕ)
    → h.sport < 2 ^ 16
    → h.dport < 2 ^ 16
    → h.seqno.raw_value < 2 ^ 32
    → h.ackno.raw_value < 2 ^ 32
    → h.doff < 2 ^ 4
    → h.win < 2 ^ 16
    → h.cksum < 2 ^ 16
    → h.uptr < 2 ^ 16
    → serialize h ≡ some bytes
    → parse (start (bytes ++ rest)) ≡ ((h, no_error), start rest)
unfolding serialize
parse-serialize h bytes rest a b c d e f g i s =
    let long : 5 ≤ h.doff = ground arith in
    let written : bytes ≡ wire h (replicate (h.doff * 4 - 20) 0) = ground (arith, padded h long) in
    rw written (
      parse-wire h (replicate (h.doff * 4 - 20) 0 ++ rest) a b c d e f g i
      ∙ skip_options-replicate h rest long)
