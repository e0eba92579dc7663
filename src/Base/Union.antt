-- ===== src/Base/Union.antt =====
-- `|` of two numbers with no digit in common is their sum, for every width.
use Prim.Native.Nat.{
  ℕ, zero, suc, ◌+◌, ◌*◌, ◌/◌, ◌%◌, ◌^◌, ◌≤◌, ◌<◌, max, bit_or, digits, bit_or-bitwise,
}
use mathlib.Core.Path.{◌≡◌, refl}
use native.Mathlib.Omega.{arith}
use native.Mathlib.Nat.{pow-succ'}

abbrev joined : ℕ → ℕ → ℕ → ℕ
joined fuel x m = digits (λ m. m) max fuel x m

-- Any fuel from the first number on gives the same digits.
joined_fuel : (f g x m : ℕ) → x ≤ f → x ≤ g → joined f x m ≡ joined g x m
joined_fuel zero zero zero m hf hg = refl
joined_fuel zero (suc g) zero m hf hg = refl
joined_fuel zero g (suc x) m hf hg = absurd (omega arith)
joined_fuel (suc f) zero zero m hf hg = refl
joined_fuel (suc f) (suc g) zero m hf hg = refl
joined_fuel (suc f) zero (suc x) m hf hg = absurd (omega arith)
joined_fuel (suc f) (suc g) (suc x) m hf hg =
    omega (arith, joined_fuel f g (suc x / 2) (m / 2) (omega arith) (omega arith))

pub bit_or-zero : (m : ℕ) → bit_or 0 m ≡ m
bit_or-zero m = bit_or-bitwise 0 m

-- The lowest binary digit and the rest.
pub bit_or-halves : (x m : ℕ) → bit_or x m ≡ 2 * bit_or (x / 2) (m / 2) + max (x % 2) (m % 2)
bit_or-halves zero m = omega (arith, bit_or-zero m, bit_or-zero (m / 2))
bit_or-halves (suc x) m = omega (
  arith,
  bit_or-bitwise (suc x) m,
  bit_or-bitwise (suc x / 2) (m / 2),
  joined_fuel x (suc x / 2) (suc x / 2) (m / 2) (omega arith) (omega arith),
)

bit_or_nothing : (fuel x : ℕ) → x ≤ fuel → bit_or x 0 ≡ x
bit_or_nothing fuel zero h = bit_or-zero 0
bit_or_nothing zero (suc x) h = absurd (omega arith)
bit_or_nothing (suc fuel) (suc x) h =
    omega (arith, bit_or-halves (suc x) 0, bit_or_nothing fuel (suc x / 2) (omega arith))

union_step :
    (p a b : ℕ) → bit_or (a * p) (b / 2) ≡ a * p + b / 2 → bit_or (a * (2 * p)) b ≡ a * (2 * p) + b
union_step p a b e =
    let half : a * (2 * p) / 2 ≡ a * p = omega arith in
    let e' : bit_or (a * (2 * p) / 2) (b / 2) ≡ a * p + b / 2 = rw half e in
    omega (arith, bit_or-halves (a * (2 * p)) b, e')

-- A multiple of 2^k and a number below it.
pub bit_or-add : (k a b : ℕ) → b < 2 ^ k → bit_or (a * 2 ^ k) b ≡ a * 2 ^ k + b
bit_or-add zero a b h =
    let unit : a * 2 ^ 0 ≡ a = omega arith in
    let nothing : b ≡ 0 = omega arith in
    rw (unit, nothing) (omega (arith, bit_or_nothing a a (omega arith)))
bit_or-add (suc k) a b h =
    let p : b / 2 < 2 ^ k = omega (arith, h, pow-succ' 2 k) in
    rw (pow-succ' 2 k) (union_step (2 ^ k) a b (bit_or-add k a (b / 2) p))
