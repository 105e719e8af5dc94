-- ===== src/Base/BitFields.antt =====
-- Bit fields: `or` of a field and what lies below it, and `and` with a mask that stands higher up.
use Prim.Native.Nat.{
  ℕ, zero, suc, ◌+◌, ◌*◌, ◌/◌, ◌%◌, ◌^◌, ◌≤◌, ◌<◌, max, bit_and, bit_or, digits, bit_or-bitwise,
}
use mathlib.Core.Path.{◌≡◌, refl, sym, ap, ap₂, ◌∙◌}
use native.Mathlib.Nat.{pow-suc, mul_assoc}
use native.Mathlib.Omega.{arith}
use cs144_2024_winter.Base.Bits.{bit_and_halves, div_pow-suc}

-- More rounds than the number has digits change nothing.
or_rounds : (k j a b : ℕ) → a ≤ k → a ≤ j → digits (λ b. b) max k a b ≡ digits (λ b. b) max j a b
or_rounds zero zero zero b p q = refl
or_rounds zero (suc j) zero b p q = refl
or_rounds (suc k) zero zero b p q = refl
or_rounds (suc k) (suc j) zero b p q = refl
or_rounds zero j (suc a) b p q = absurd (omega arith)
or_rounds (suc k) zero (suc a) b p q = absurd (omega arith)
or_rounds (suc k) (suc j) (suc a) b p q =
    omega (arith, or_rounds k j (suc a / 2) (b / 2) (omega arith) (omega arith))

bit_or_halves : (a b : ℕ) → bit_or a b ≡ 2 * bit_or (a / 2) (b / 2) + max (a % 2) (b % 2)
bit_or_halves zero b = omega (arith, bit_or-bitwise 0 b, bit_or-bitwise 0 (b / 2))
bit_or_halves (suc a) b =
    let rest = suc a / 2 in
    omega (
      arith,
      bit_or-bitwise (suc a) b,
      bit_or-bitwise rest (b / 2),
      or_rounds a rest rest (b / 2) (omega arith) (omega arith),
    )

bit_or_zero_rounds : (k a : ℕ) → a < k → bit_or a 0 ≡ a
bit_or_zero_rounds zero a h = absurd (omega arith)
bit_or_zero_rounds (suc k) zero h = refl
bit_or_zero_rounds (suc k) (suc a) h =
    omega (arith, bit_or_halves (suc a) 0, bit_or_zero_rounds k (suc a / 2) (omega arith))

-- A field from digit `k` on and a number below it.
pub bit_or_field : (k a r : ℕ) → r < 2 ^ k → bit_or (a * 2 ^ k) r ≡ a * 2 ^ k + r
bit_or_field zero a r h =
    ap₂ bit_or {x = a * 2 ^ 0} {y = a} {u = r} {v = 0} (omega arith) (omega arith)
    ∙ bit_or_zero_rounds (suc a) a (omega arith)
    ∙ omega arith
bit_or_field (suc k) a r h =
    let twice : a * 2 ^ suc k ≡ a * 2 ^ k * 2 =
      ap (λ p. a * p) (pow-suc 2 k) ∙ sym (mul_assoc a (2 ^ k) 2) in
    omega (
      arith,
      twice,
      bit_or_halves (a * 2 ^ suc k) r,
      ap (λ n. bit_or n (r / 2)) {x = a * 2 ^ suc k / 2} {y = a * 2 ^ k} (omega (arith, twice)),
      bit_or_field k a (r / 2) (omega (arith, pow-suc 2 k)),
    )

-- A mask from digit `k` on reads the digits from `k` on.
pub bit_and_shift : (k m a : ℕ) → bit_and a (m * 2 ^ k) ≡ bit_and (a / 2 ^ k) m * 2 ^ k
bit_and_shift zero m a =
    ap₂ bit_and {x = a} {y = a / 2 ^ 0} {u = m * 2 ^ 0} {v = m} (omega arith) (omega arith)
    ∙ omega arith
bit_and_shift (suc k) m a =
    let twice : m * 2 ^ suc k ≡ m * 2 ^ k * 2 =
      ap (λ p. m * p) (pow-suc 2 k) ∙ sym (mul_assoc m (2 ^ k) 2) in
    let quotient : bit_and (a / 2 ^ suc k) m * 2 ^ suc k ≡ bit_and (a / 2 / 2 ^ k) m * 2 ^ k * 2 =
      ap₂ (λ q p. bit_and q m * p) (div_pow-suc k a) (pow-suc 2 k)
      ∙ sym (mul_assoc (bit_and (a / 2 / 2 ^ k) m) (2 ^ k) 2) in
    omega (
      arith,
      twice,
      quotient,
      bit_and_halves a (m * 2 ^ suc k),
      ap (bit_and (a / 2)) {x = m * 2 ^ suc k / 2} {y = m * 2 ^ k} (omega (arith, twice)),
      bit_and_shift k m (a / 2),
    )
