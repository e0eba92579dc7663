-- ===== src/Ipv4Datagram/Runs.antt =====
-- A header with a wrong checksum and no payload.
use computer_network.Base.{◌++◌, length, ℕ, ◌≡◌, refl, some, List, [], ◌∷◌, arith}
use computer_network.InternetChecksum
use computer_network.NetParser.{
  no_error, bad_checksum, start, u32, u16, u8, remove_prefix, put_u32, put_u16, put_u8,
}
use computer_network.Ipv4Header
use computer_network.Ipv4Header.Wire.{IsSized}
use computer_network.Ipv4Datagram.{Ipv4Datagram, init, parse, serialize}
use computer_network.Ipv4Datagram.Unchecked.{parse-serialize_unchecked}
use computer_network.Ipv4Datagram.RoundTrip.{with_cksum, parse-serialize_datagram}

-- Version 4, five words, 20 bytes in all; the checksum field is 0 where 0x7ae7 would be right.
abbrev forged : List ℕ
forged = 0x45 ∷ 0 ∷ 0 ∷ 20 ∷ 0 ∷ 0 ∷ 0 ∷ 0 ∷ 64 ∷ 6 ∷ 0 ∷ 0 ∷ 0 ∷ 0 ∷ 0 ∷ 0 ∷ 0 ∷ 0 ∷ 0 ∷ 0 ∷ []

forged_result : (Ipv4Header.parse init.header (start forged)).0.1 ≡ bad_checksum
unfolding Ipv4Header.parse start u32 u16 u8 remove_prefix InternetChecksum.init InternetChecksum.add
    InternetChecksum.value
forged_result = refl

forged_accepted : (parse init forged).1 ≡ no_error
unfolding parse Ipv4Header.parse start u32 u16 u8 remove_prefix InternetChecksum.init
    InternetChecksum.add InternetChecksum.value Ipv4Header.payload_length
forged_accepted = refl

-- A datagram of 27 bytes from 10.0.0.1 to 10.0.0.2, with a header of six words.
abbrev sample : Ipv4Datagram
sample = record {
  header = record Ipv4Header.init {
    len = 27;
    hlen = 6;
    offset = 0x1234;
    src = 0x0a00_0001;
    dst = 0x0a00_0002;
  };
  payload = 1 ∷ 2 ∷ 3 ∷ [];
}

abbrev sample_bytes : List ℕ
sample_bytes =
    0x46 ∷ 0 ∷ 0 ∷ 27 ∷ 0 ∷ 0 ∷ 0x52 ∷ 0x34 ∷ 128 ∷ 6 ∷ 0xd3 ∷ 0xa6 ∷ 10 ∷ 0 ∷ 0 ∷ 1 ∷ 10 ∷ 0 ∷ 0
    ∷ 2 ∷ 0 ∷ 0 ∷ 0 ∷ 0 ∷ 1 ∷ 2 ∷ 3 ∷ []

sample_serialized : serialize sample ≡ some sample_bytes
unfolding serialize Ipv4Header.init Ipv4Header.serialize Ipv4Header.payload_length
    InternetChecksum.init InternetChecksum.add InternetChecksum.value put_u32 put_u16 put_u8
sample_serialized = refl

sample-IsSized : IsSized sample.header
unfolding Ipv4Header.init
sample-IsSized = record {
  ver_4 = refl;
  hlen_5 = omega arith;
  hlen_small = omega arith;
  tos_small = omega arith;
  len_small = omega arith;
  id_small = omega arith;
  offset_small = omega arith;
  ttl_small = omega arith;
  proto_small = omega arith;
  cksum_small = omega arith;
  src_small = omega arith;
  dst_small = omega arith;
}

parse-serialize_datagram_example :
    (cksum : ℕ) × (parse init sample_bytes
      ≡ (record sample { header = with_cksum cksum sample.header }, no_error))
parse-serialize_datagram_example =
    parse-serialize_datagram sample init sample_bytes sample-IsSized (omega arith) sample_serialized

-- The header of the same datagram with 0 where the checksum should be 0xd3a6.
abbrev unsummed_bytes : List ℕ
unsummed_bytes =
    0x46 ∷ 0 ∷ 0 ∷ 27 ∷ 0 ∷ 0 ∷ 0x52 ∷ 0x34 ∷ 128 ∷ 6 ∷ 0 ∷ 0 ∷ 10 ∷ 0 ∷ 0 ∷ 1 ∷ 10 ∷ 0 ∷ 0 ∷ 2 ∷ 0
    ∷ 0 ∷ 0 ∷ 0 ∷ []

unsummed_serialized : Ipv4Header.serialize sample.header ≡ some unsummed_bytes
unfolding Ipv4Header.init Ipv4Header.serialize put_u32 put_u16 put_u8
unsummed_serialized = refl

sample-payload_length : length sample.payload ≡ Ipv4Header.payload_length sample.header
unfolding Ipv4Header.init Ipv4Header.payload_length
sample-payload_length = refl

parse-serialize_unchecked_example :
    parse init (unsummed_bytes ++ sample.payload) ≡ (sample, no_error)
parse-serialize_unchecked_example =
    parse-serialize_unchecked sample init unsummed_bytes sample-IsSized (omega arith)
      sample-payload_length unsummed_serialized
