-- ===== src/Base/Bits.antt =====
-- Bitwise `and` and `or` at variables, from the digit recursion that the native operations stand for.
use Prim.Native.Nat.{
  ℕ, zero, suc, ◌+◌, ◌-◌, ◌*◌, ◌/◌, ◌%◌, ◌^◌, ◌≤◌, ◌<◌, min, bit_and, digits, bit_and-bitwise,
}
use mathlib.Core.Path.{◌≡◌, refl, sym, ap, ap₂, ◌∙◌}
use native.Mathlib.Nat.{
  pow-suc, pow-succ', div-div-eq-div-mul, div-add-mod, mul_assoc, mod-eq_of_lt,
}
use native.Mathlib.Omega.{arith}

-- More rounds than the number has digits change nothing.
digits_rounds :
    (k j a b : ℕ) → a ≤ k → a ≤ j → digits (λ b. zero) min k a b ≡ digits (λ b. zero) min j a b
digits_rounds zero zero zero b p q = refl
digits_rounds zero (suc j) zero b p q = refl
digits_rounds (suc k) zero zero b p q = refl
digits_rounds (suc k) (suc j) zero b p q = refl
digits_rounds zero j (suc a) b p q = absurd (omega arith)
digits_rounds (suc k) zero (suc a) b p q = absurd (omega arith)
digits_rounds (suc k) (suc j) (suc a) b p q =
    omega (arith, digits_rounds k j (suc a / 2) (b / 2) (omega arith) (omega arith))

-- The lowest digit, and the rest.
pub bit_and_halves : (a b : ℕ) → bit_and a b ≡ 2 * bit_and (a / 2) (b / 2) + min (a % 2) (b % 2)
bit_and_halves zero b = omega (arith, bit_and-bitwise 0 b, bit_and-bitwise 0 (b / 2))
bit_and_halves (suc a) b =
    let rest = suc a / 2 in
    omega (
      arith,
      bit_and-bitwise (suc a) b,
      bit_and-bitwise rest (b / 2),
      digits_rounds a rest rest (b / 2) (omega arith) (omega arith),
    )

pub pow-two_pos : (k : ℕ) → 0 < 2 ^ k
pow-two_pos zero = omega arith
pow-two_pos (suc k) = omega (arith, pow-two_pos k, pow-suc 2 k)

bit_and_zero_rounds : (k a : ℕ) → a < k → bit_and a 0 ≡ 0
bit_and_zero_rounds zero a h = absurd (omega arith)
bit_and_zero_rounds (suc k) zero h = refl
bit_and_zero_rounds (suc k) (suc a) h =
    omega (arith, bit_and_halves (suc a) 0, bit_and_zero_rounds k (suc a / 2) (omega arith))

pub bit_and_zero : (a : ℕ) → bit_and a 0 ≡ 0
bit_and_zero a = bit_and_zero_rounds (suc a) a (omega arith)

-- Division and remainder by 2 ^ (k + 1) through the halves.
pub div_pow-suc : (k a : ℕ) → a / 2 ^ suc k ≡ a / 2 / 2 ^ k
div_pow-suc k a = ap (λ d. a / d) (pow-succ' 2 k) ∙ sym (div-div-eq-div-mul a 2 (2 ^ k))

pub mod_pow-suc : (k a : ℕ) → a % 2 ^ suc k ≡ 2 * (a / 2 % 2 ^ k) + a % 2
mod_pow-suc k a = omega (arith, whole, div-add-mod (a / 2) (2 ^ k))
  where
    whole : 2 * 2 ^ k * (a / 2 / 2 ^ k) + a % 2 ^ suc k ≡ a
    whole =
        ap₂ (λ s t. s * t + a % 2 ^ suc k) (sym (pow-succ' 2 k)) (sym (div_pow-suc k a))
        ∙ div-add-mod a (2 ^ suc k)

-- A mask of `k` ones keeps the lowest `k` digits.
pub bit_and_mask : (k a : ℕ) → bit_and a (2 ^ k - 1) ≡ a % 2 ^ k
bit_and_mask zero a = omega (arith, bit_and_zero a)
bit_and_mask (suc k) a = omega (
  arith,
  pow-two_pos k,
  pow-suc 2 k,
  bit_and_mask k (a / 2),
  bit_and_halves a (2 ^ suc k - 1),
  mod_pow-suc k a,
  half,
)
  where
    half : bit_and (a / 2) ((2 ^ suc k - 1) / 2) ≡ bit_and (a / 2) (2 ^ k - 1)
    half =
        ap (bit_and (a / 2)) {x = (2 ^ suc k - 1) / 2} (omega (arith, pow-two_pos k, pow-suc 2 k))

-- Powers of two and sums.
pub pow_add : (m k : ℕ) → 2 ^ (m + k) ≡ 2 ^ m * 2 ^ k
pow_add m zero = omega (arith, ap (λ n. 2 ^ n) {x = m + 0} {y = m} (omega arith))
pow_add m (suc k) =
    ap (λ n. 2 ^ n) {x = m + suc k} {y = suc (m + k)} (omega arith)
    ∙ pow-suc 2 (m + k)
    ∙ ap (λ q. q * 2) (pow_add m k)
    ∙ mul_assoc (2 ^ m) (2 ^ k) 2
    ∙ ap (λ q. 2 ^ m * q) (sym (pow-suc 2 k))

pub mod_small : (a p : ℕ) → a < p → a % p ≡ a
mod_small a p h = mod-eq_of_lt h

-- A mask of ones from digit `k` on, below digit `k + m`, keeps those digits.
pub bit_and_high :
    (k m a : ℕ) → a < 2 ^ (k + m) → bit_and a ((2 ^ m - 1) * 2 ^ k) ≡ a / 2 ^ k * 2 ^ k
bit_and_high zero m a h =
    ap (bit_and a) {x = (2 ^ m - 1) * 2 ^ 0} {y = 2 ^ m - 1} (omega arith)
    ∙ bit_and_mask m a
    ∙ omega (
      arith,
      mod_small a (2 ^ m) (omega (arith, ap (λ n. 2 ^ n) {x = 0 + m} {y = m} (omega arith))),
    )
bit_and_high (suc k) m a h =
    let top = (2 ^ m - 1) * 2 ^ k in
    let twice : (2 ^ m - 1) * 2 ^ suc k ≡ top * 2 =
      ap (λ p. (2 ^ m - 1) * p) (pow-suc 2 k) ∙ sym (mul_assoc (2 ^ m - 1) (2 ^ k) 2) in
    let half =
      ap (bit_and (a / 2)) {x = (2 ^ m - 1) * 2 ^ suc k / 2} {y = top} (omega (arith, twice)) in
    let small : a / 2 < 2 ^ (k + m) =
      omega (
        arith,
        pow-suc 2 (k + m),
        ap (λ n. 2 ^ n) {x = suc k + m} {y = suc (k + m)} (omega arith),
      ) in
    let quotient : a / 2 ^ suc k * 2 ^ suc k ≡ a / 2 / 2 ^ k * 2 ^ k * 2 =
      ap₂ (λ q p. q * p) (div_pow-suc k a) (pow-suc 2 k)
      ∙ sym (mul_assoc (a / 2 / 2 ^ k) (2 ^ k) 2) in
    omega (
      arith,
      bit_and_halves a ((2 ^ m - 1) * 2 ^ suc k),
      twice,
      half,
      bit_and_high k m (a / 2) small,
      quotient,
    )
