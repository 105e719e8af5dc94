-- ===== src/Reassembler/Slice.antt =====
-- Pieces of the stream that the sender meant: the byte at each index is `stream i`.
use cs144_2024_winter.Base.{
  ℕ, zero, suc, ◌+◌, ◌-◌, min, ◌≡◌, refl, ap, ap₂, sym, ◌∙◌, ◌≤◌, substr, [], ◌∷◌, ◌++◌, arith,
  Bytes, length, take, drop,
}

module _ (stream : ℕ → ℕ) where
  -- The `n` bytes from index `b` on.
  abbrev pub slice : ℕ → ℕ → Bytes
  slice b zero = []
  slice b (suc n) = stream b ∷ slice (b + 1) n

  pub length-slice : (b n : ℕ) → length (slice b n) ≡ n
  length-slice b zero = refl
  length-slice b (suc n) = ap suc (length-slice (b + 1) n)

  pub slice-append : (b m n : ℕ) → slice b (m + n) ≡ slice b m ++ slice (b + m) n
  slice-append b zero n =
      ap₂ slice {x = b} {y = b + 0} {u = 0 + n} {v = n} (omega arith) (omega arith)
  slice-append b (suc m) n =
      ap (slice b) {x = suc m + n} {y = suc (m + n)} (omega arith)
      ∙ ap (λ r. stream b ∷ r)
          (slice-append (b + 1) m n
            ∙ ap (λ c. slice (b + 1) m ++ slice c n) {x = b + 1 + m} {y = b + suc m} (omega arith))

  pub take-slice : (k b n : ℕ) → take k (slice b n) ≡ slice b (min k n)
  take-slice zero b n = ap (slice b) {x = 0} {y = min 0 n} (omega arith)
  take-slice (suc k) b zero = ap (slice b) {x = 0} {y = min (suc k) 0} (omega arith)
  take-slice (suc k) b (suc n) =
      ap (λ r. stream b ∷ r) (take-slice k (b + 1) n)
      ∙ ap (slice b) {x = suc (min k n)} {y = min (suc k) (suc n)} (omega arith)

  pub drop-slice : (k b n : ℕ) → drop k (slice b n) ≡ slice (b + k) (n - k)
  drop-slice zero b n =
      ap₂ slice {x = b} {y = b + 0} {u = n} {v = n - 0} (omega arith) (omega arith)
  drop-slice (suc k) b zero = ap (slice (b + suc k)) {x = 0} {y = 0 - suc k} (omega arith)
  drop-slice (suc k) b (suc n) =
      drop-slice k (b + 1) n
      ∙ ap₂ slice {x = b + 1 + k} {y = b + suc k} {u = n - k} {v = suc n - suc k} (omega arith)
          (omega arith)

  -- Two pieces that meet at `m`.
  pub slice_join : (b m n : ℕ) → b ≤ m → slice b (m - b) ++ slice m n ≡ slice b (m + n - b)
  slice_join b m n h =
      ap (λ c. slice b (m - b) ++ slice c n) {x = m} {y = b + (m - b)} (omega arith)
      ∙ sym (slice-append b (m - b) n)
      ∙ ap (slice b) {x = m - b + n} {y = m + n - b} (omega arith)

  -- A piece of a piece.
  pub substr-slice : (b n k m : ℕ) → k + m ≤ n → substr (slice b n) k m ≡ slice (b + k) m
  substr-slice b n k m h =
      ap (take m) (drop-slice k b n)
      ∙ take-slice m (b + k) (n - k)
      ∙ ap (slice (b + k)) {x = min m (n - k)} {y = m} (omega arith)

  pub slice_front : (m n : ℕ) → slice 0 m ++ slice m n ≡ slice 0 (m + n)
  slice_front m n =
      ap (λ c. slice 0 m ++ slice c n) {x = m} {y = 0 + m} (omega arith) ∙ sym (slice-append 0 m n)
