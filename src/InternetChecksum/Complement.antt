-- ===== src/InternetChecksum/Complement.antt =====
-- The loop of `value`, and a sum with its checksum added.
use computer_network.Base.{ℕ, List, false, ◌+◌, ◌/◌, ◌%◌, ◌^◌, ◌≤◌, ◌<◌, ◌≡◌, arith}
use computer_network.Base.Bits.{bit_and-low}
use computer_network.InternetChecksum.{InternetChecksum, fold_loop, value, add, init}
use computer_network.InternetChecksum.Weight.{weight, sum-add}

fold_lem :
    (x : ℕ)
    → x < 2 ^ 32
    → (fold_loop 2 x ≤ 0xffff)
      × (fold_loop 2 x % 0xffff ≡ x % 0xffff)
      × (0 < x → 0 < fold_loop 2 x)
      × (fold_loop 2 x ≤ x)
unfolding fold_loop
fold_lem x h = (
  ground (arith, bit_and-low 16 x, bit_and-low 16 (x / 2 ^ 16 + x % 2 ^ 16)),
  ground (arith, bit_and-low 16 x, bit_and-low 16 (x / 2 ^ 16 + x % 2 ^ 16)),
  ground (arith, bit_and-low 16 x, bit_and-low 16 (x / 2 ^ 16 + x % 2 ^ 16)),
  ground (arith, bit_and-low 16 x, bit_and-low 16 (x / 2 ^ 16 + x % 2 ^ 16)),
)

-- A sum below 2^32 to which its checksum is added, without passing 2^32, has the checksum 0.
pub value-value :
    (c c' : InternetChecksum) → c.sum + value c < 2 ^ 32 → c'.sum ≡ c.sum + value c → value c' ≡ 0
unfolding value
value-value c c' h e =
    let (_, _, _, below) = fold_lem c.sum (omega arith) in
    let some_sum : 0 < c'.sum = omega arith in
    let (_, _, positive, _) = fold_lem c'.sum (omega arith) in
    omega (arith, fold_lem c.sum (omega arith), fold_lem c'.sum (omega arith), positive some_sum)

pub value-lt : (c : InternetChecksum) → value c < 2 ^ 16
unfolding value
value-lt c = omega arith

-- Bytes that weigh as much as others and their checksum have the checksum 0.
pub value-checksummed :
    (zeroed written : List ℕ) (initial : ℕ)
    → weight false written ≡ weight false zeroed + value (add zeroed (init initial))
    → initial + weight false zeroed + 2 ^ 16 < 2 ^ 32
    → value (add written (init initial)) ≡ 0
unfolding init
value-checksummed zeroed written initial e l =
    let start : InternetChecksum = record { sum = initial; parity = false } in
    let small = value-lt (add zeroed start) in
    let before = sum-add zeroed start (omega arith) in
    let after = sum-add written start (omega arith) in
    value-value (add zeroed start) (add written start) (omega (arith, before, l, small))
      (omega (arith, before, after, e, l, small))
