-- ===== src/Base/Bits.antt =====
-- Masks as arithmetic, for every width: `x & (2^k - 1)` and the test of one bit, `x & 2^k`.
use Prim.Native.Nat.{
  ℕ, zero, suc, ◌+◌, ◌-◌, ◌*◌, ◌/◌, ◌%◌, ◌^◌, ◌≤◌, ◌<◌, min, bit_and, digits, bit_and-bitwise,
}
use mathlib.Core.Path.{◌≡◌, refl, sym, ap, ◌∙◌}
use native.Mathlib.Omega.{arith}
use native.Mathlib.Nat.{pow-succ', div-div-eq-div-mul}

abbrev masked : ℕ → ℕ → ℕ → ℕ
masked fuel x m = digits (λ m. zero) min fuel x m

-- Any fuel from the masked number on gives the same digits.
masked_fuel : (f g x m : ℕ) → x ≤ f → x ≤ g → masked f x m ≡ masked g x m
masked_fuel zero g zero m hf hg = sym (masked_zero g)
  where
    masked_zero : (k : ℕ) → masked k zero m ≡ zero
    masked_zero zero = refl
    masked_zero (suc k) = refl
masked_fuel zero g (suc x) m hf hg = absurd (omega arith)
masked_fuel (suc f) zero zero m hf hg = refl
masked_fuel (suc f) (suc g) zero m hf hg = refl
masked_fuel (suc f) zero (suc x) m hf hg = absurd (omega arith)
masked_fuel (suc f) (suc g) (suc x) m hf hg =
    omega (arith, masked_fuel f g (suc x / 2) (m / 2) (omega arith) (omega arith))

bit_and_zero : (m : ℕ) → bit_and 0 m ≡ 0
bit_and_zero m = bit_and-bitwise 0 m

-- The lowest binary digit and the rest.
pub bit_and-halves : (x m : ℕ) → bit_and x m ≡ 2 * bit_and (x / 2) (m / 2) + min (x % 2) (m % 2)
bit_and-halves zero m = omega (arith, bit_and_zero m, bit_and_zero (m / 2))
bit_and-halves (suc x) m = omega (
  arith,
  bit_and-bitwise (suc x) m,
  bit_and-bitwise (suc x / 2) (m / 2),
  masked_fuel x (suc x / 2) (suc x / 2) (m / 2) (omega arith) (omega arith),
)

bit_and_nothing : (fuel x : ℕ) → x ≤ fuel → bit_and x 0 ≡ 0
bit_and_nothing fuel zero h = bit_and_zero 0
bit_and_nothing zero (suc x) h = absurd (omega arith)
bit_and_nothing (suc fuel) (suc x) h =
    omega (arith, bit_and-halves (suc x) 0, bit_and_nothing fuel (suc x / 2) (omega arith))

half-mod : (x p : ℕ) → 0 < p → x % (2 * p) ≡ 2 * (x / 2 % p) + x % 2
half-mod x p h = grind arith

half-div : (x p : ℕ) → x / (2 * p) ≡ x / 2 / p
half-div x p = sym (div-div-eq-div-mul x 2 p)

pub pow_pos : (k : ℕ) → 0 < 2 ^ k
pow_pos zero = omega arith
pow_pos (suc k) = omega (arith, pow_pos k, pow-succ' 2 k)

pub pow-add : (j k : ℕ) → 2 ^ (j + k) ≡ 2 ^ j * 2 ^ k
pow-add zero k = grind arith
pow-add (suc j) k = grind (arith, pow-succ' 2 (j + k), pow-succ' 2 j, pow-add j k)

-- One more digit in the mask.
mask_step :
    (p x : ℕ) → 0 < p → bit_and (x / 2) (p - 1) ≡ x / 2 % p → bit_and x (2 * p - 1) ≡ x % (2 * p)
mask_step p x h e =
    let half : (2 * p - 1) / 2 ≡ p - 1 = omega arith in
    let e' : bit_and (x / 2) ((2 * p - 1) / 2) ≡ x / 2 % p = rw half e in
    omega (arith, bit_and-halves x (2 * p - 1), e', half-mod x p h)

bit_step :
    (p x : ℕ)
    → bit_and (x / 2) p ≡ x / 2 / p % 2 * p
    → bit_and x (2 * p) ≡ x / (2 * p) % 2 * (2 * p)
bit_step p x e =
    let half : 2 * p / 2 ≡ p = omega arith in
    let e' : bit_and (x / 2) (2 * p / 2) ≡ x / 2 / p % 2 * p = rw half e in
    rw (half-div x p) (omega (arith, bit_and-halves x (2 * p), e'))

-- `x & (2^k - 1)` keeps the lowest k digits.
pub bit_and-low : (k x : ℕ) → bit_and x (2 ^ k - 1) ≡ x % 2 ^ k
bit_and-low zero x = omega (arith, bit_and_nothing x x (omega arith))
bit_and-low (suc k) x = rw (pow-succ' 2 k) (mask_step (2 ^ k) x (pow_pos k) (bit_and-low k (x / 2)))

-- `x & 2^k` is the digit k alone.
pub bit_and-bit : (k x : ℕ) → bit_and x (2 ^ k) ≡ x / 2 ^ k % 2 * 2 ^ k
bit_and-bit zero x =
    omega (arith, bit_and-halves x 1, bit_and_nothing (x / 2) (x / 2) (omega arith))
bit_and-bit (suc k) x = rw (pow-succ' 2 k) (bit_step (2 ^ k) x (bit_and-bit k (x / 2)))

shift_step :
    (p x m : ℕ)
    → bit_and (x / 2) (m * p) ≡ bit_and (x / 2 / p) m * p
    → bit_and x (m * (2 * p)) ≡ bit_and (x / (2 * p)) m * (2 * p)
shift_step p x m e =
    let half : m * (2 * p) / 2 ≡ m * p = omega arith in
    let e' : bit_and (x / 2) (m * (2 * p) / 2) ≡ bit_and (x / 2 / p) m * p = rw half e in
    rw (half-div x p) (omega (arith, bit_and-halves x (m * (2 * p)), e'))

-- A mask with k zeros at its end is a mask of what is left of `x` after k digits.
pub bit_and-shifted : (k x m : ℕ) → bit_and x (m * 2 ^ k) ≡ bit_and (x / 2 ^ k) m * 2 ^ k
bit_and-shifted zero x m =
    let none_cut : x / 2 ^ 0 ≡ x = omega arith in
    let unit : m * 2 ^ 0 ≡ m = omega arith in rw (none_cut, unit) (omega arith)
bit_and-shifted (suc k) x m =
    rw (pow-succ' 2 k) (shift_step (2 ^ k) x m (bit_and-shifted k (x / 2) m))

-- `x & (0xffffffff << k)` for the w digits above the lowest k.
pub bit_and-high : (k w x : ℕ) → bit_and x ((2 ^ w - 1) * 2 ^ k) ≡ x / 2 ^ k % 2 ^ w * 2 ^ k
bit_and-high k w x =
    bit_and-shifted k x (2 ^ w - 1) ∙ ap (λ y. y * 2 ^ k) (bit_and-low w (x / 2 ^ k))
