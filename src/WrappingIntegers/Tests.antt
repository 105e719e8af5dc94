-- ===== src/WrappingIntegers/Tests.antt =====
-- Runs of src/wrapping_integers.cc at concrete numbers, and instances of the theorems on it.
use cs144_2024_winter.Base.{ℕ, ◌+◌, ◌*◌, ◌^◌, ◌≤◌, ◌≡◌, refl, arith, u32_mod}
use cs144_2024_winter.WrappingIntegers.{Wrap32, wrap, unwrap, dis}
use cs144_2024_winter.WrappingIntegers.RoundTrip.{wrap-unwrap, unwrap_closest, unwrap_too_high}

abbrev isn : Wrap32
isn = record { raw_value = 16 }

abbrev near_end : Wrap32
near_end = record { raw_value = 4294967295 }

wrap_far : (wrap (3 * 2 ^ 32 + 17) record { raw_value = 15 }).raw_value ≡ 32
unfolding wrap
wrap_far = refl

unwrap_back :
    unwrap record { raw_value = 4294967294 } record { raw_value = 2147483647 } 0 ≡ 2147483647
unfolding unwrap cs144_2024_winter.Base.add64
unwrap_back = refl

wrap-unwrap_example : wrap (unwrap near_end isn 1000) isn ≡ near_end
wrap-unwrap_example = wrap-unwrap near_end isn 1000 (omega arith) (omega arith)

unwrap_closest_example : dis (unwrap (wrap 70 isn) isn 4294967296) 4294967296 ≤ dis 70 4294967296
unwrap_closest_example =
    unwrap_closest (wrap 70 isn) isn 70 4294967296 (omega arith) (omega arith) refl

unwrap_too_high_example : unwrap (wrap (2 ^ 63) isn) isn (2 ^ 63) ≡ 2 ^ 63 + u32_mod
unwrap_too_high_example = unwrap_too_high (2 ^ 63) isn (omega arith) (omega arith) (omega arith)
