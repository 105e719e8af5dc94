-- ===== src/WrappingIntegers/RoundTrip.antt =====
-- src/wrapping_integers.cc: wrap and unwrap against one another.
use cs144_2024_winter.Base.{ℕ, ◌+◌, ◌-◌, ◌%◌, ◌^◌, ◌≤◌, ◌<◌, ◌≡◌, ap, arith, add64, u32_mod}
use cs144_2024_winter.Base.Bits.{bit_and_mask}
use cs144_2024_winter.WrappingIntegers.{Wrap32, IsValid, wrap, unwrap, dis}

-- What `wrap` computes, without the mask.
pub raw_value-wrap :
    (n : ℕ) (zero_point : Wrap32)
    → (wrap n zero_point).raw_value ≡ (zero_point.raw_value + n) % u32_mod
unfolding wrap
raw_value-wrap n zero_point = omega (arith, bit_and_mask 32 n)

pub wrap-IsValid : (n : ℕ) (zero_point : Wrap32) → IsValid (wrap n zero_point)
wrap-IsValid n zero_point = omega (arith, raw_value-wrap n zero_point)

-- `unwrap` answers with a number that wraps to the given one, whatever the checkpoint.
pub wrap-unwrap :
    (w zero_point : Wrap32) (checkpoint : ℕ)
    → IsValid w
    → IsValid zero_point
    → wrap (unwrap w zero_point checkpoint) zero_point ≡ w
unfolding unwrap add64
wrap-unwrap w zero_point checkpoint hw hz =
    ground (arith, raw_value-wrap (unwrap w zero_point checkpoint) zero_point)

pub unwrap-wrap :
    (n checkpoint : ℕ) (zero_point : Wrap32)
    → IsValid zero_point
    → n < 2 ^ 63
    → n ≤ checkpoint + (2 ^ 31 - 1)
    → checkpoint ≤ n + 2 ^ 31
    → unwrap (wrap n zero_point) zero_point checkpoint ≡ n
unfolding unwrap add64
unwrap-wrap n checkpoint zero_point hz hn above below = ground (arith, raw_value-wrap n zero_point)

-- No number that wraps to `w` is nearer to the checkpoint than the answer.
pub unwrap_closest :
    (w zero_point : Wrap32) (n checkpoint : ℕ)
    → IsValid zero_point
    → checkpoint < 2 ^ 63 - 2 ^ 31
    → wrap n zero_point ≡ w
    → dis (unwrap w zero_point checkpoint) checkpoint ≤ dis n checkpoint
unfolding unwrap dis add64
unwrap_closest w zero_point n checkpoint hz hc e =
    ground (arith, raw_value-wrap n zero_point, ap (λ (v : Wrap32). v.raw_value) e)

pub wrap_zero :
    (n : ℕ) (zero_point : Wrap32) → IsValid zero_point → n ≡ 0 → wrap n zero_point ≡ zero_point
wrap_zero n zero_point v h = ground (arith, raw_value-wrap n zero_point)

-- From 2 ^ 63 on the answer for a number that is the checkpoint itself is one cycle too high.
pub unwrap_too_high :
    (checkpoint : ℕ) (zero_point : Wrap32)
    → IsValid zero_point
    → 2 ^ 63 ≤ checkpoint
    → checkpoint < 2 ^ 64 - u32_mod
    → unwrap (wrap checkpoint zero_point) zero_point checkpoint ≡ checkpoint + u32_mod
unfolding unwrap add64
unwrap_too_high checkpoint zero_point hz low high =
    ground (arith, raw_value-wrap checkpoint zero_point)
