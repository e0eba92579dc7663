-- ===== src/Ipv4Header/Checks.antt =====
-- The checks after the fields of a header, on the bytes that the serialiser writes.
use computer_network.Base.{
  ℕ, ◌-◌, ◌*◌, ◌≤◌, ◌≡◌, refl, ap, ◌∙◌, not, false, List, ◌++◌, length, take, ltb, ◌==◌, arith,
}
use computer_network.InternetChecksum
use computer_network.NetParser.{start, no_error}
use computer_network.NetParser.RoundTrip.{remove_prefix-replicate}
use computer_network.Ipv4Header.{Ipv4Header, check_header, checks}
use computer_network.Ipv4Header.Wire.{IsSized, padding}

-- A header of the right version and length, whatever its checksum.
pub checks-skip :
    (original : List ℕ) (h : Ipv4Header) (payload : List ℕ)
    → IsSized h
    → length original ≡ h.len
    → 4 * h.hlen ≤ h.len
    → checks original h (start (padding h ++ payload))
      ≡ ((h, check_header original h (start payload)), start payload)
unfolding checks start
checks-skip original h payload v len long =
    let room : ltb (length original) (4 * h.hlen) ≡ false = grind (arith, len, long) in
    let version : not (h.ver == 4) ≡ false = grind (arith, v.ver_4) in
    let header : ltb h.hlen 5 ≡ false = grind (arith, v.hlen_5) in
    let whole : not (length original == h.len) ≡ false = grind (arith, len) in
    rw (room, version, header, whole, remove_prefix-replicate (h.hlen * 4 - 20) payload) refl

check_header-right :
    (original : List ℕ) (h : Ipv4Header) (payload : List ℕ)
    → InternetChecksum.value
        (InternetChecksum.add (take (4 * h.hlen) original) (InternetChecksum.init 0))
      ≡ 0
    → check_header original h (start payload) ≡ no_error
unfolding check_header start
check_header-right original h payload sum = rw sum refl

pub checks-padding :
    (original : List ℕ) (h : Ipv4Header) (payload : List ℕ)
    → IsSized h
    → length original ≡ h.len
    → 4 * h.hlen ≤ h.len
    → InternetChecksum.value
        (InternetChecksum.add (take (4 * h.hlen) original) (InternetChecksum.init 0))
      ≡ 0
    → checks original h (start (padding h ++ payload)) ≡ ((h, no_error), start payload)
checks-padding original h payload v len long sum =
    checks-skip original h payload v len long
    ∙ ap (λ r. ((h, r), start payload)) (check_header-right original h payload sum)
