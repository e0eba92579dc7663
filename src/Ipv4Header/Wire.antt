-- ===== src/Ipv4Header/Wire.antt =====
-- The bytes of an IPv4 header, and reading its fields from them.
use computer_network.Base.{
  ℕ, ◌+◌, ◌-◌, ◌*◌, ◌/◌, ◌%◌, ◌^◌, ◌≤◌, ◌<◌, ◌≡◌, refl, Bool, true, false, not, some, List, [],
  ◌++◌, take_all, replicate, ltb, ◌==◌, if◌then◌else◌, bit_and, bit_or, arith,
}
use computer_network.Base.Bits.{bit_and-low, bit_and-bit}
use computer_network.Base.Union.{bit_or-zero, bit_or-add}
use computer_network.NetParser.{start}
use computer_network.NetParser.RoundTrip.{
  be32, be16, be8, put_u32_lem, put_u16_lem, put_u8_lem, u32-start, u16-start, u8-start,
}
use computer_network.TcpHeader.{flag}
use computer_network.Ipv4Header.{Ipv4Header, fields, serialize, read_fields, checks}

-- The fields within the bounds of their bit fields, in a header of version 4 and at least five words.
pub record IsSized (h : Ipv4Header) : Type 0 where
  pub ver_4 : h.ver ≡ 4
  pub hlen_5 : 5 ≤ h.hlen
  pub hlen_small : h.hlen < 2 ^ 4
  pub tos_small : h.tos < 2 ^ 8
  pub len_small : h.len < 2 ^ 16
  pub id_small : h.id < 2 ^ 16
  pub offset_small : h.offset < 2 ^ 13
  pub ttl_small : h.ttl < 2 ^ 8
  pub proto_small : h.proto < 2 ^ 8
  pub cksum_small : h.cksum < 2 ^ 16
  pub src_small : h.src < 2 ^ 32
  pub dst_small : h.dst < 2 ^ 32

-- The first byte and the two bytes of the flags and the offset.
abbrev pub first_byte : Ipv4Header → ℕ
first_byte h = bit_or (h.ver * 2 ^ 4 % 2 ^ 8) (bit_and h.hlen 0xf)

abbrev pub fo_val : Ipv4Header → ℕ
fo_val h =
    bit_or (if h.df then 0x4000 else 0)
      (bit_or (if h.mf then 0x2000 else 0) (bit_and h.offset 0x1fff))

first_byte_lem : (h : Ipv4Header) → IsSized h → first_byte h ≡ 4 * 2 ^ 4 + h.hlen
first_byte_lem h v =
    let low : bit_and h.hlen 0xf ≡ h.hlen = omega (arith, bit_and-low 4 h.hlen, v.hlen_small) in
    rw (v.ver_4, low) (bit_or-add 4 4 h.hlen v.hlen_small)

one : Bool → ℕ
one true = 1
one false = 0

offset_lem : (offset : ℕ) → offset < 2 ^ 13 → bit_and offset 0x1fff ≡ offset
offset_lem offset h = omega (arith, bit_and-low 13 offset)

mf_lem :
    (mf : Bool) (offset : ℕ)
    → offset < 2 ^ 13
    → bit_or (if mf then 0x2000 else 0) (bit_and offset 0x1fff) ≡ one mf * 2 ^ 13 + offset
unfolding one
mf_lem true offset h = rw (offset_lem offset h) (bit_or-add 13 1 offset h)
mf_lem false offset h = omega (arith, bit_or-zero (bit_and offset 0x1fff), offset_lem offset h)

df_lem :
    (df : Bool) (rest : ℕ)
    → rest < 2 ^ 14
    → bit_or (if df then 0x4000 else 0) rest ≡ one df * 2 ^ 14 + rest
unfolding one
df_lem true rest h = bit_or-add 14 1 rest h
df_lem false rest h = omega (arith, bit_or-zero rest)

one_bound : (b : Bool) → one b ≤ 1
unfolding one
one_bound true = omega arith
one_bound false = omega arith

fo_val_lem :
    (h : Ipv4Header) → IsSized h → fo_val h ≡ one h.df * 2 ^ 14 + (one h.mf * 2 ^ 13 + h.offset)
fo_val_lem h v =
    rw (mf_lem h.mf h.offset v.offset_small)
      (df_lem h.df (one h.mf * 2 ^ 13 + h.offset) (omega (arith, one_bound h.mf, v.offset_small)))

one_flag : (b : Bool) (x k : ℕ) → x ≡ one b * k → 0 < k → not (x == 0) ≡ b
unfolding one
one_flag true x k e h = ground arith
one_flag false x k e h = ground arith

-- What the parser takes out of these bytes.
fo_val_read :
    (h : Ipv4Header)
    → IsSized h
    → (flag (fo_val h) 0x4000 ≡ h.df)
      × (flag (fo_val h) 0x2000 ≡ h.mf)
      × (bit_and (fo_val h) 0x1fff ≡ h.offset)
      × (fo_val h < 2 ^ 16)
fo_val_read h v =
    let e = fo_val_lem h v in
    let d = one_bound h.df in
    let m = one_bound h.mf in
    (
      one_flag h.df _ (2 ^ 14) (omega (arith, bit_and-bit 14 (fo_val h), e, d, m, v.offset_small))
          (omega arith),
      one_flag h.mf _ (2 ^ 13) (omega (arith, bit_and-bit 13 (fo_val h), e, d, m, v.offset_small))
          (omega arith),
      omega (arith, bit_and-low 13 (fo_val h), e, v.offset_small),
      omega (arith, e, d, m, v.offset_small),
    )

-- The bytes of the fields, in their order, with what follows them.
abbrev pub wire : Ipv4Header → List ℕ → List ℕ
wire h rest =
    be8 (first_byte h)
    ++ (be8 h.tos
        ++ (be16 h.len
            ++ (be16 h.id
                ++ (be16 (fo_val h)
                    ++ (be8 h.ttl
                        ++ (be8 h.proto
                            ++ (be16 h.cksum ++ (be32 h.src ++ (be32 h.dst ++ rest)))))))))

fields_lem : (h : Ipv4Header) → fields h ≡ wire h []
unfolding fields
fields_lem h =
    rw
      (
        put_u8_lem _ (first_byte h),
        put_u8_lem _ h.tos,
        put_u16_lem _ h.len,
        put_u16_lem _ h.id,
        put_u16_lem _ (fo_val h),
        put_u8_lem _ h.ttl,
        put_u8_lem _ h.proto,
        put_u16_lem _ h.cksum,
        put_u32_lem _ h.src,
        put_u32_lem _ h.dst,
      )
      refl

-- The options are as many zero bytes as the length of the header leaves room for.
abbrev pub padding : Ipv4Header → List ℕ
padding h = replicate (h.hlen * 4 - 20) 0

pub serialize-wire : (h : Ipv4Header) → IsSized h → serialize h ≡ some (wire h (padding h))
unfolding serialize
serialize-wire h v =
    let room : 4 * h.hlen - 20 ≡ h.hlen * 4 - 20 = omega arith in
    let long : ltb (4 * h.hlen) 20 ≡ false = grind (arith, v.hlen_5) in
    let version : not (h.ver == 4) ≡ false = grind (arith, v.ver_4) in
    rw
      (
        version,
        long,
        fields_lem h,
        take_all (4 * h.hlen) (wire h []) (omega (arith, v.hlen_5)),
        room,
      )
      refl

pub read_fields-wire :
    (original : List ℕ) (h : Ipv4Header) (rest : List ℕ)
    → IsSized h
    → read_fields original (start (wire h rest)) ≡ checks original h (start rest)
unfolding read_fields
read_fields-wire original h rest v =
    let first = first_byte_lem h v in
    let version : first_byte h / 2 ^ 4 ≡ h.ver = omega (arith, first, v.hlen_small, v.ver_4) in
    let hlen : bit_and (first_byte h) 0x0f ≡ h.hlen =
      omega (arith, bit_and-low 4 (first_byte h), first, v.hlen_small) in
    let (df, mf, offset, small) = fo_val_read h v in
    rw
      (
        u8-start (first_byte h) _ (omega (arith, first, v.hlen_small)),
        u8-start h.tos _ v.tos_small,
        u16-start h.len _ v.len_small,
        u16-start h.id _ v.id_small,
        u16-start (fo_val h) _ small,
        u8-start h.ttl _ v.ttl_small,
        u8-start h.proto _ v.proto_small,
        u16-start h.cksum _ v.cksum_small,
        u32-start h.src _ v.src_small,
        u32-start h.dst rest v.dst_small,
        version,
        hlen,
        df,
        mf,
        offset,
      )
      refl
