-- ===== src/WrappingIntegers.antt =====
-- src/wrapping_integers.hh and src/wrapping_integers.cc: 32-bit sequence numbers, and the way
-- between them and 64-bit absolute sequence numbers.
pub mod RoundTrip
mod Tests
use Prim.Native.Nat.{bit_and}
use cs144_2024_winter.Base.{
  ℕ, ◌+◌, ◌-◌, ◌%◌, ◌^◌, ◌<◌, Bool, ltb, leb, ◌==◌, if◌then◌else◌, add32, sub32, add64, u32_mod,
  u64_mod,
}

-- `raw_value_` stays below 2 ^ 32: `IsValid` says so, and every operation below keeps it so.
pub record Wrap32 : Type 0 where
  pub raw_value : ℕ

abbrev pub IsValid : Wrap32 → Type 0
IsValid w = w.raw_value < u32_mod

-- `operator+`
pub plus : Wrap32 → ℕ → Wrap32
plus w n = record { raw_value = add32 w.raw_value n }

-- `operator==`
pub eq : Wrap32 → Wrap32 → Bool
eq w v = w.raw_value == v.raw_value

unfoldable pub wrap : ℕ → Wrap32 → Wrap32
unfolding plus
wrap n zero_point = plus zero_point (bit_and n 0xffffffff % u32_mod)

-- The distance of two absolute sequence numbers.
unfoldable pub dis : ℕ → ℕ → ℕ
dis a b = if leb b a then a - b else b - a

-- The bits of `d` in `unwrap`: `-(uint32_t)checkpoint + (raw_value_ - zero_point.raw_value_)`.
pub offset32 : Wrap32 → Wrap32 → ℕ → ℕ
offset32 w zero_point checkpoint =
    add32 (sub32 0 (checkpoint % u32_mod)) (sub32 w.raw_value zero_point.raw_value)

-- The 32 bits of an `int32_t` as the 64 bits of the same number.
unfoldable pub sign_extend : ℕ → ℕ
sign_extend d = if ltb d (2 ^ 31) then d else d + (u64_mod - u32_mod)

-- `result` is an `int64_t`: it is negative where its bits are 2 ^ 63 or more.
unfoldable pub unwrap : Wrap32 → Wrap32 → ℕ → ℕ
unfolding offset32 sign_extend
unwrap w zero_point checkpoint = if ltb result (2 ^ 63) then result else add64 result u32_mod
  where
    result : ℕ
    result = add64 checkpoint (sign_extend (offset32 w zero_point checkpoint))
