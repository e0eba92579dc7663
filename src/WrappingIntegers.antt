-- ===== src/WrappingIntegers.antt =====
-- libsponge/wrapping_integers.hh and wrapping_integers.cc: sequence numbers of 32 bits, relative to
-- an initial one, and their translation from and to absolute numbers of 64 bits.
pub mod RoundTrip
mod Runs
use computer_network.Base.{
  ℕ, ◌+◌, ◌-◌, ◌%◌, ◌^◌, Bool, not, ◌&&◌, ◌==◌, leb, if◌then◌else◌, bit_and,
}
use computer_network.Words.{add32, sub32, add64, sub64, u32_mod}

pub record WrappingInt32 : Type 0 where
  pub raw_value : ℕ

-- `operator-(WrappingInt32, WrappingInt32)` as the bit pattern of its `int32_t`.
unfoldable pub diff : WrappingInt32 → WrappingInt32 → ℕ
diff a b = sub32 a.raw_value b.raw_value

unfoldable pub equal : WrappingInt32 → WrappingInt32 → Bool
equal a b = a.raw_value == b.raw_value

unfoldable pub unequal : WrappingInt32 → WrappingInt32 → Bool
unfolding equal
unequal a b = not (equal a b)

-- `operator+` and the other `operator-`, which adds the negated `uint32_t`.
unfoldable pub plus : WrappingInt32 → ℕ → WrappingInt32
plus a b = record { raw_value = add32 a.raw_value b }

unfoldable pub minus : WrappingInt32 → ℕ → WrappingInt32
unfolding plus
minus a b = plus a (sub32 0 b)

unfoldable pub wrap : ℕ → WrappingInt32 → WrappingInt32
unfolding plus
wrap n isn = plus isn (n % u32_mod)

abbrev neg_threshold : ℕ
neg_threshold = 2 ^ 31

abbrev uint32_max : ℕ
uint32_max = 2 ^ 32

unfoldable pub unwrap : WrappingInt32 → WrappingInt32 → ℕ → ℕ
unfolding diff wrap
unwrap n isn checkpoint =
    let offset = diff n (wrap checkpoint isn) in
    let ret = add64 checkpoint offset in
    if not (bit_and offset neg_threshold == 0) && leb uint32_max ret
    then sub64 ret uint32_max
    else ret
