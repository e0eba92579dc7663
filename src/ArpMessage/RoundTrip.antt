-- ===== src/ArpMessage/RoundTrip.antt =====
-- Reading back the ARP messages that the serialiser writes.
use computer_network.Base.{
  ℕ, ◌^◌, ◌<◌, ◌≡◌, refl, sym, ◌∙◌, true, false, some, List, [], ◌++◌, length, ltb, arith,
}
use mathlib.Core.Option.{some-injective}
use computer_network.NetParser.{start, no_error}
use computer_network.NetParser.RoundTrip.{
  be32, be16, be8, put_u32_lem, put_u16_lem, put_u8_lem, u32-start, u16-start, u8-start,
}
use computer_network.EthernetHeader.{read_address}
use computer_network.EthernetHeader.RoundTrip.{IsSized, address, put_address_lem}
use computer_network.ArpMessage.{
  ArpMessage, supported, parse, read_message, serialize, message_length,
}

abbrev pub wire : ArpMessage → List ℕ
wire m =
    be16 m.hardware_type
    ++ (be16 m.protocol_type
        ++ (be8 m.hardware_address_size
            ++ (be8 m.protocol_address_size
                ++ (be16 m.opcode
                    ++ address m.sender_ethernet_address (
                        be32 m.sender_ip_address
                        ++ address m.target_ethernet_address (be32 m.target_ip_address))))))

pub serialize-wire : (m : ArpMessage) → supported m ≡ true → serialize m ≡ some (wire m)
unfolding serialize
serialize-wire m ok =
    rw
      (
        ok,
        put_u16_lem _ m.hardware_type,
        put_u16_lem _ m.protocol_type,
        put_u8_lem _ m.hardware_address_size,
        put_u8_lem _ m.protocol_address_size,
        put_u16_lem _ m.opcode,
        put_address_lem _ m.sender_ethernet_address,
        put_u32_lem _ m.sender_ip_address,
        put_address_lem _ m.target_ethernet_address,
        put_u32_lem _ m.target_ip_address,
      )
      refl

serialize-supported :
    (m : ArpMessage) (bytes : List ℕ) → serialize m ≡ some bytes → supported m ≡ true
unfolding serialize
serialize-supported m bytes h = ground arith

-- The check reads the first five fields alone.
same_fields :
    (m before : ArpMessage)
    → supported m ≡ true
    → supported (record before {
      hardware_type = m.hardware_type;
      protocol_type = m.protocol_type;
      hardware_address_size = m.hardware_address_size;
      protocol_address_size = m.protocol_address_size;
      opcode = m.opcode;
    })
      ≡ true
unfolding supported
same_fields m before ok = ok

read_message-start :
    (m before : ArpMessage)
    → supported m ≡ true
    → m.hardware_type < 2 ^ 16
    → m.protocol_type < 2 ^ 16
    → m.hardware_address_size < 2 ^ 8
    → m.protocol_address_size < 2 ^ 8
    → m.opcode < 2 ^ 16
    → IsSized m.sender_ethernet_address
    → m.sender_ip_address < 2 ^ 32
    → IsSized m.target_ethernet_address
    → m.target_ip_address < 2 ^ 32
    → (read_message before (start (wire m))).0 ≡ (m, no_error)
unfolding read_message start read_address
read_message-start m before ok a b c d e (s0, s1, s2, s3, s4, s5) f (t0, t1, t2, t3, t4, t5) g =
    let source = m.sender_ethernet_address in
    let target = m.target_ethernet_address in
    rw
      (
        u16-start m.hardware_type _ a,
        u16-start m.protocol_type _ b,
        u8-start m.hardware_address_size _ c,
        u8-start m.protocol_address_size _ d,
        u16-start m.opcode _ e,
        same_fields m before ok,
        u8-start source.b0 _ s0,
        u8-start source.b1 _ s1,
        u8-start source.b2 _ s2,
        u8-start source.b3 _ s3,
        u8-start source.b4 _ s4,
        u8-start source.b5 _ s5,
        u32-start m.sender_ip_address _ f,
        u8-start target.b0 _ t0,
        u8-start target.b1 _ t1,
        u8-start target.b2 _ t2,
        u8-start target.b3 _ t3,
        u8-start target.b4 _ t4,
        u8-start target.b5 _ t5,
        u32-start m.target_ip_address [] g,
      )
      refl

parse-wire_supported :
    (m before : ArpMessage)
    → (read_message before (start (wire m))).0 ≡ (m, no_error)
    → parse before (wire m) ≡ (m, no_error)
unfolding parse
parse-wire_supported m before e =
    let long : ltb (length (wire m)) message_length ≡ false = grind arith in rw long e

-- A message whose fields have their widths, of the kind that is supported, is read back from the bytes
-- that it is written as.
pub parse-serialize_supported :
    (m before : ArpMessage) (bytes : List ℕ)
    → m.hardware_type < 2 ^ 16
    → m.protocol_type < 2 ^ 16
    → m.hardware_address_size < 2 ^ 8
    → m.protocol_address_size < 2 ^ 8
    → m.opcode < 2 ^ 16
    → IsSized m.sender_ethernet_address
    → m.sender_ip_address < 2 ^ 32
    → IsSized m.target_ethernet_address
    → m.target_ip_address < 2 ^ 32
    → serialize m ≡ some bytes
    → parse before bytes ≡ (m, no_error)
parse-serialize_supported m before bytes a b c d e s f t g written =
    let ok : supported m ≡ true = serialize-supported m bytes written in
    let there : bytes ≡ wire m =
      some-injective bytes (wire m) (sym written ∙ serialize-wire m ok) in
    rw there (parse-wire_supported m before (read_message-start m before ok a b c d e s f t g))
