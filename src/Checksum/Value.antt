-- ===== src/Checksum/Value.antt =====
-- util/checksum.hh: sums of bytes, their carries, and the value.
use cs144_2024_winter.Base.{
  ℕ, ◌∙◌, ◌==◌, ◌/◌, Bool, true, false, length, ne→==, ◌+◌, ◌*◌, ◌%◌, ◌^◌, ◌≤◌, ◌<◌, ◌≡◌, ap, refl,
  arith, not, List, sym, [], ◌∷◌, ◌++◌, Bytes, if◌then◌else◌, u16_mod, u32_mod,
}
use cs144_2024_winter.Serializer.{AllBytes}
use cs144_2024_winter.Parser.Buffer.{joined}
use cs144_2024_winter.Checksum.{
  InternetChecksum, fold_carries, value, add, add_all, internet_checksum,
}

fold_carries_lem :
    (s : ℕ) → s < 2 ^ 32 → (fold_carries 2 s ≤ 0xffff) × (fold_carries 2 s % 0xffff ≡ s % 0xffff)
unfolding fold_carries
fold_carries_lem s h = ground arith

fold_carries_pos : (s : ℕ) → 0 < s → s < 2 ^ 32 → 0 < fold_carries 2 s
unfolding fold_carries
fold_carries_pos s h k = ground arith

-- Two rounds fold any 32-bit sum into 16 bits, and the value makes the sum up to a multiple of 65535.
pub value_lem :
    (c : InternetChecksum) → c.sum < 2 ^ 32 → (value c ≤ 0xffff) × ((value c + c.sum) % 0xffff ≡ 0)
unfolding value
value_lem c h = omega (arith, fold_carries_lem c.sum h)

-- Adding one string after the other is adding them joined.
pub add-append : (s t : Bytes) (c : InternetChecksum) → add (s ++ t) c ≡ add t (add s c)
unfolding add
add-append [] t c = refl
add-append (i ∷ s) t c = add-append s t (record {
  sum = (c.sum + (if not c.parity then i * 256 % u16_mod else i)) % u32_mod;
  parity = not c.parity;
})

-- A sum is the checksum's number and what it was started with.
pub sum-add_le :
    (s : Bytes) (c : InternetChecksum) → AllBytes s → (add s c).sum ≤ c.sum + 65280 * length s
unfolding add
sum-add_le [] c a = omega arith
sum-add_le (i ∷ s) c a = ground (
  arith,
  a,
  sum-add_le s (record {
    sum = (c.sum + (if not c.parity then i * 256 % u16_mod else i)) % u32_mod;
    parity = not c.parity;
  }),
)

word_le : (i : ℕ) (parity : Bool) → i < 256 → (if not parity then i * 256 % u16_mod else i) ≤ 65280
word_le i true h = omega arith
word_le i false h = omega arith

-- As long as nothing overflows, what the sum is started with is added at the end.
pub add_shift :
    (s : Bytes) (x k : ℕ) (parity : Bool)
    → AllBytes s
    → x + k + 65280 * length s < 2 ^ 32
    → (add s (record { sum = x + k; parity = parity })).sum
      ≡ (add s (record { sum = x; parity = parity })).sum + k
unfolding add
add_shift [] x k parity a h = refl
add_shift (i ∷ s) x k parity a h =
    let v : ℕ = if not parity then i * 256 % u16_mod else i in
    let small : v ≤ 65280 = word_le i parity a.0 in
    let start : ℕ → InternetChecksum = λ z. record { sum = z; parity = not parity } in
    ap (λ z. (add s (start z)).sum) {x = (x + k + v) % u32_mod} {y = x + v + k} (omega (arith, h))
    ∙ add_shift s (x + v) k (not parity) a.1 (omega (arith, h))
    ∙ ap (λ z. (add s (start z)).sum + k) {x = x + v} {y = (x + v) % u32_mod} (omega (arith, h))

-- A sum that its checksum was added to has the value 0.
pub value_complete :
    (c d : InternetChecksum)
    → 0 < c.sum
    → c.sum + 0xffff < 2 ^ 32
    → d.sum ≡ c.sum + value c
    → value d ≡ 0
unfolding value
value_complete c d pos h e = omega (
  arith,
  fold_carries_lem c.sum (omega arith),
  fold_carries_lem d.sum (omega (arith, e)),
  fold_carries_pos d.sum (omega (arith, e)) (omega (arith, e)),
  e,
  pos,
)

-- Nothing that is added makes the sum less, as long as nothing overflows.
pub sum_grows :
    (s : Bytes) (c : InternetChecksum)
    → AllBytes s
    → c.sum + 65280 * length s < 2 ^ 32
    → c.sum ≤ (add s c).sum
sum_grows s c a h = omega (
  arith,
  add_shift s 0 c.sum c.parity a (omega (arith, h)),
  ap (λ z. (add s (record { sum = z; parity = c.parity })).sum) {x = 0 + c.sum} {y = c.sum}
      (omega arith),
)

pub value_le : (c : InternetChecksum) → value c ≤ 0xffff
unfolding value
value_le c = omega arith

-- A 16-bit number in two bytes, and two bytes of zeros.
pub sum_field :
    (k : ℕ) (c : InternetChecksum)
    → k < 2 ^ 16
    → c.parity ≡ false
    → c.sum + 0xffff < 2 ^ 32
    → add (k / 256 % 256 ∷ k % 256 ∷ 0 ∷ 0 ∷ []) c ≡ record { sum = c.sum + k; parity = false }
unfolding add
sum_field k c h e l = ground (arith, e)

pub add_all-payload :
    (head buf : Bytes) (c : InternetChecksum)
    → add_all (head ∷ (if length buf == 0 then [] else buf ∷ [])) c ≡ add buf (add head c)
unfolding add_all add
add_all-payload head [] c = refl
add_all-payload head (b ∷ buf) c =
    let some_ = ne→== (length (b ∷ buf)) 0 (omega arith) in rw some_ refl

pub sum-internet_checksum : (base : ℕ) → (internet_checksum base).sum ≡ base
unfolding internet_checksum
sum-internet_checksum base = refl

-- Several strings are summed up as one.
pub add_all-joined : (ss : List Bytes) (c : InternetChecksum) → add_all ss c ≡ add (joined ss) c
unfolding add_all joined add
add_all-joined [] c = refl
add_all-joined (s ∷ ss) c = add_all-joined ss (add s c) ∙ sym (add-append s (joined ss) c)
