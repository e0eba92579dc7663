-- ===== src/WrappingIntegers/Runs.antt =====
-- Concrete sequence numbers, and the theorems of this component at concrete inputs.
use computer_network.Base.{ℕ, ◌-◌, ◌*◌, ◌^◌, ◌≤◌, ◌≡◌, refl, true, arith}
use computer_network.Words.{add32, sub32, add64, sub64}
use computer_network.WrappingIntegers.{WrappingInt32, equal, unequal, minus, wrap, unwrap}
use computer_network.WrappingIntegers.RoundTrip.{wrap-unwrap, unwrap-wrap, unwrap_nearest, dist}

abbrev raw : ℕ → WrappingInt32
raw k = record { raw_value = k }

-- tests/wrapping_integers_unwrap.cc: the cases around the sign of the offset.
unwrap_near_zero : unwrap (raw 15) (raw 16) 0 ≡ 2 ^ 32 - 1
unfolding unwrap add32 sub32 add64 sub64
unwrap_near_zero = refl

unwrap_back : unwrap (raw 0xffff_ffff) (raw 10) (3 * 2 ^ 32) ≡ 3 * 2 ^ 32 - 11
unfolding unwrap add32 sub32 add64 sub64
unwrap_back = refl

minus_wraps : equal (minus (raw 3) 5) (raw 0xffff_fffe) ≡ true
unfolding minus equal add32 sub32
minus_wraps = refl

unequal_runs : unequal (raw 3) (raw 4) ≡ true
unfolding unequal
unequal_runs = refl

wrap-unwrap_example : wrap (unwrap (raw 15) (raw 16) 77) (raw 16) ≡ raw 15
wrap-unwrap_example = wrap-unwrap (raw 15) (raw 16) 77 (omega arith) (omega arith)

unwrap-wrap_example : unwrap (wrap 4_294_967_301 (raw 16)) (raw 16) 4_294_967_290 ≡ 4_294_967_301
unwrap-wrap_example =
    unwrap-wrap 4_294_967_301 4_294_967_290 (raw 16) (omega arith) (omega arith) (omega arith)

unwrap_nearest_example :
    dist (unwrap (wrap 5 (raw 16)) (raw 16) 4_294_967_290) 4_294_967_290 ≤ dist 5 4_294_967_290
unwrap_nearest_example =
    unwrap_nearest (wrap 5 (raw 16)) (raw 16) 4_294_967_290 5 (omega arith) refl
