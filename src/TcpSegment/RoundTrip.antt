-- ===== src/TcpSegment/RoundTrip.antt =====
-- Reading back the segments that the serialiser writes, with the checksum over them.
use computer_network.Base.{
  ℕ, ◌+◌, ◌-◌, ◌*◌, ◌^◌, ◌≤◌, ◌<◌, ◌≡◌, refl, sym, ap, ◌∙◌, false, some, List, ◌++◌, All, length,
  replicate, arith,
}
use computer_network.InternetChecksum.{InternetChecksum, value, add}
use computer_network.InternetChecksum
use mathlib.Core.Option.{some-injective}
use computer_network.InternetChecksum.Complement.{value-lt, value-checksummed}
use computer_network.InternetChecksum.Weight.{weight, add-append, weight-replicate}
use computer_network.NetParser.{no_error, start}
use computer_network.TcpHeader.{TcpHeader}
use computer_network.TcpHeader.RoundTrip.{wire, parse-wire, serialize-wire, skip_options-replicate}
use computer_network.TcpSegment.{TcpSegment, parse, serialize}

abbrev pub with_cksum : ℕ → TcpHeader → TcpHeader
with_cksum cksum h = record h { cksum = cksum }

-- The checksum adds itself to the sum.
weight-wire :
    (h : TcpHeader) (cksum : ℕ) (rest : List ℕ)
    → cksum < 2 ^ 16
    → (weight false (wire (with_cksum cksum h) rest)
        ≡ weight false (wire (with_cksum 0 h) rest) + cksum)
      × (weight false (wire (with_cksum 0 h) rest) ≤ 20 * 2 ^ 16 + weight false rest)
unfolding weight
weight-wire h cksum rest l = (omega arith, omega arith)

-- The checksum of what is written with the checksum of what is written without one.
written-value :
    (h : TcpHeader) (rest : List ℕ) (initial : ℕ)
    → initial + 21 * 2 ^ 16 + weight false rest < 2 ^ 32
    → value (
        add
          (wire
            (with_cksum
              (value (add (wire (with_cksum 0 h) rest) (InternetChecksum.init initial)))
              h)
            rest)
          (InternetChecksum.init initial))
      ≡ 0
written-value h rest initial l =
    let zeroed = wire (with_cksum 0 h) rest in
    let cksum = value (add zeroed (InternetChecksum.init initial)) in
    let (more, bound) =
      weight-wire h cksum rest (value-lt (add zeroed (InternetChecksum.init initial))) in
    value-checksummed zeroed (wire (with_cksum cksum h) rest) initial more (omega (arith, bound))

abbrev padding : TcpHeader → List ℕ
padding h = replicate (h.doff * 4 - 20) 0

abbrev cksum_of : TcpSegment → ℕ → ℕ
cksum_of s initial = value (
    add (wire (with_cksum 0 s.header) (padding s.header ++ s.payload))
      (InternetChecksum.init initial))

-- The bytes of a segment with its checksum.
abbrev pub wire_bytes : TcpSegment → ℕ → List ℕ
wire_bytes s initial =
    wire (with_cksum (cksum_of s initial) s.header) (padding s.header ++ s.payload)

pub serialize_lem :
    (s : TcpSegment) (initial : ℕ)
    → 5 ≤ s.header.doff
    → serialize s initial ≡ some (wire_bytes s initial)
unfolding serialize
serialize_lem s initial l =
    let h = s.header in
    let sum : value
          (add s.payload (add (wire (with_cksum 0 h) (padding h)) (InternetChecksum.init initial)))
        ≡ cksum_of s initial =
      ap value (
        sym (
          add-append (wire (with_cksum 0 h) (padding h)) s.payload
            (InternetChecksum.init initial))) in
    rw
      (
        serialize,
        serialize-wire (with_cksum 0 h) l,
        sum,
        serialize-wire (with_cksum (cksum_of s initial) h) l,
      )
      refl

-- A segment whose header fields have their widths and whose header is long enough, with a payload of
-- bytes short enough for the sum to stay below 2^32, is read back from what is written for it: with
-- some checksum in its header, and without an error.
pub parse-serialize_checked :
    (s before : TcpSegment) (initial : ℕ) (bytes : List ℕ)
    → s.header.sport < 2 ^ 16
    → s.header.dport < 2 ^ 16
    → s.header.seqno.raw_value < 2 ^ 32
    → s.header.ackno.raw_value < 2 ^ 32
    → s.header.doff < 2 ^ 4
    → s.header.win < 2 ^ 16
    → s.header.uptr < 2 ^ 16
    → All (λ b. b < 2 ^ 8) s.payload
    → initial + 2 ^ 16 * (length s.payload + 21) < 2 ^ 32
    → 5 ≤ s.header.doff
    → serialize s initial ≡ some bytes
    → (cksum : ℕ) × (parse before bytes initial
        ≡ (record s { header = with_cksum cksum s.header }, no_error))
unfolding parse start
parse-serialize_checked s before initial bytes a b c d e f g small room l written =
    let cksum = cksum_of s initial in
    let h = with_cksum cksum s.header in
    let rest = padding s.header ++ s.payload in
    let bound = weight-replicate (s.header.doff * 4 - 20) false s.payload small in
    let checked = written-value s.header rest initial (omega (arith, bound)) in
    let there : bytes ≡ wire h rest =
      some-injective bytes (wire h rest) (sym written ∙ serialize_lem s initial l) in
    let read =
      parse-wire h rest a b c d e f (value-lt _) g ∙ skip_options-replicate h s.payload l in
    (cksum, rw (there, checked, read) refl)
