-- ===== src/Router/Match.antt =====
-- src/router.cc: the mask of `if_match`.
use Prim.Native.Nat.{bit_and}
use native.Mathlib.Nat.{suc-mul, eq_of_mul-eq-mul_right}
use cs144_2024_winter.Base.{
  ℕ, suc, ◌+◌, ◌-◌, ◌*◌, ◌/◌, ◌%◌, ◌^◌, ◌≤◌, ◌<◌, ◌≡◌, sym, ap, ◌∙◌, arith, ◌==◌, Bool-cases, inl,
  inr, ne→==,
}
use cs144_2024_winter.Base.Bits.{bit_and_high, pow-two_pos, pow_add}
use cs144_2024_winter.Router.{if_match}

-- Equal multiples of a positive number.
==_mul : (a b p : ℕ) → 0 < p → (a * p == b * p) ≡ (a == b)
==_mul a b p h = elim (Bool-cases (a == b)) [
  | inl same ↦ let e : a ≡ b = ground (arith, same) in rw same (ground (arith, ap (λ x. x * p) e))
  | inr apart ↦ rw apart (
      ne→== (a * p) (b * p) (λ e. absurd (ground (arith, apart, eq_of_mul-eq-mul_right p h a b e))))
]

-- The mask keeps the digits above the lowest `32 - l`.
mask_lem :
    (l a : ℕ)
    → l ≤ 32
    → a < 2 ^ 32
    → bit_and a (0xffffffff * 2 ^ (32 - l) % 2 ^ 32) ≡ a / 2 ^ (32 - l) * 2 ^ (32 - l)
mask_lem l a h k =
    let p = 2 ^ (32 - l) in
    let whole : (2 ^ l - 1) * p + p ≡ 2 ^ 32 =
      sym (suc-mul (2 ^ l - 1) p)
      ∙ ap (λ q. q * p) {x = suc (2 ^ l - 1)} {y = 2 ^ l} (omega (arith, pow-two_pos l))
      ∙ sym (pow_add l (32 - l))
      ∙ ap (λ n. 2 ^ n) {x = l + (32 - l)} {y = 32} (omega arith) in
    ap (bit_and a) {x = 0xffffffff * p % 2 ^ 32} {y = (2 ^ l - 1) * p}
      (omega (arith, pow-two_pos (32 - l), whole))
    ∙ bit_and_high (32 - l) l a
        (omega (arith, k, ap (λ n. 2 ^ n) {x = 32 - l + l} {y = 32} (omega arith)))

-- A route applies where the highest `prefix_length` of the 32 bits agree.
pub if_match_lem :
    (ip route_prefix prefix_length : ℕ)
    → ip < 2 ^ 32
    → route_prefix < 2 ^ 32
    → prefix_length ≤ 32
    → if_match ip route_prefix prefix_length
      ≡ (ip / 2 ^ (32 - prefix_length) == route_prefix / 2 ^ (32 - prefix_length))
unfolding if_match
if_match_lem ip route_prefix prefix_length h k l = elim (Bool-cases (prefix_length == 0)) [
  | inl none_ ↦ rw none_ (
      let wide : 2 ^ (32 - prefix_length) ≡ 2 ^ 32 =
        ap (λ n. 2 ^ n) {x = 32 - prefix_length} {y = 32} (ground (arith, none_)) in
      rw wide (ground arith))
  | inr some_ ↦
      rw (some_, mask_lem prefix_length ip l h, mask_lem prefix_length route_prefix l k)
        (==_mul (ip / 2 ^ (32 - prefix_length)) (route_prefix / 2 ^ (32 - prefix_length))
          (2 ^ (32 - prefix_length)) (pow-two_pos (32 - prefix_length)))
]
