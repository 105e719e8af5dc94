-- ===== src/Parser/Buffer.antt =====
-- The bytes that are left in a list of strings, and what reading one of them does.
use cs144_2024_winter.Base.{
  ℕ, zero, suc, ◌+◌, ◌-◌, ◌<◌, min, ◌≡◌, refl, sym, ap, ◌∙◌, arith, List, [], ◌∷◌, ◌++◌, append-nil,
  some, Bytes, length, drop, drop_all, ◌==◌, if◌then◌else◌, Bool-cases, inl, inr, sub64,
  sub64_small, add64, add64_small, u64_mod,
}
use cs144_2024_winter.Parser.{
  BufferList, append, append_all, buffer_list, peek, front, remove_from, remove_prefix,
}

-- The strings as one, as `dump_all` into a string leaves them.
unfoldable pub joined : List Bytes → Bytes
joined [] = []
joined (s ∷ rest) = s ++ joined rest

pub joined_one : (s : Bytes) → joined (s ∷ []) ≡ s
unfolding joined
joined_one s = append-nil s

-- The bytes not yet read.
unfoldable pub remaining : BufferList → Bytes
remaining b = elim b.buffer [ [] ↦ [] | s ∷ rest ↦ drop b.skip s ++ joined rest ]

-- No string is empty, and the first is not read to its end.
abbrev pub AllFilled : List Bytes → Type 0
AllFilled [] = Unit {0}
AllFilled (s ∷ rest) = (0 < length s) × AllFilled rest

abbrev pub IsOpen : ℕ → List Bytes → Type 0
IsOpen skip [] = skip ≡ 0
IsOpen skip (s ∷ rest) = (skip < length s) × AllFilled rest

pub record IsValid (b : BufferList) : Type 0 where
  pub size : b.size ≡ length (remaining b)
  pub bounded : b.size < u64_mod
  pub filled : IsOpen b.skip b.buffer

IsOpen-zero : (rest : List Bytes) → AllFilled rest → IsOpen 0 rest
IsOpen-zero [] f = refl
IsOpen-zero (s ∷ rest) f = f

pub drop_at : (k : ℕ) (s : Bytes) → k < length s → (x : ℕ) × (drop k s ≡ x ∷ drop (suc k) s)
drop_at k [] h = absurd (omega arith)
drop_at zero (x ∷ s) h = (x, refl)
drop_at (suc k) (x ∷ s) h = drop_at k s (omega arith)

pub remove_none :
    (buffer : List Bytes) (b : BufferList) → remove_from 0 buffer b ≡ record b { buffer = buffer }
unfolding remove_from
remove_none [] b = refl
remove_none (s ∷ rest) b = refl

remaining_start :
    (size : ℕ) (rest : List Bytes)
    → remaining (record { size = size; buffer = rest; skip = 0 }) ≡ joined rest
unfolding remaining joined
remaining_start size [] = refl
remaining_start size (s ∷ rest) = refl

-- Reading the first byte.
pub record Advanced (b : BufferList) (x : ℕ) (tail : Bytes) : Type 0 where
  pub first : front b ≡ some x
  pub valid : IsValid (remove_prefix 1 b)
  pub rest : remaining (remove_prefix 1 b) ≡ tail

remove_one :
    (size skip : ℕ) (s : Bytes) (rest : List Bytes)
    → skip < length s
    → remove_prefix 1 (record { size = size; buffer = s ∷ rest; skip = skip }) ≡ (
        if skip + 1 == length s
        then record { size = sub64 size 1; buffer = rest; skip = 0 }
        else record { size = sub64 size 1; buffer = s ∷ rest; skip = skip + 1 })
unfolding remove_prefix remove_from
remove_one size skip s rest h =
    let now : min 1 (length s - skip) ≡ 1 = omega arith in
    rw (now, remove_none rest (record { size = sub64 size 1; buffer = s ∷ rest; skip = 0 })) refl

advance :
    (size skip : ℕ) (s : Bytes) (rest : List Bytes) (x : ℕ) (tail : Bytes)
    → IsValid (record { size = size; buffer = s ∷ rest; skip = skip })
    → drop skip s ++ joined rest ≡ x ∷ tail
    → Advanced (record { size = size; buffer = s ∷ rest; skip = skip }) x tail
unfolding remaining front peek
advance size skip s rest x tail v e =
    let (y, d) = drop_at skip s v.filled.0 in
    let split : y ∷ (drop (suc skip) s ++ joined rest) ≡ x ∷ tail =
      ap (λ t. t ++ joined rest) (sym d) ∙ e in
    let width : size ≡ suc (length tail) = v.size ∙ ap (λ t. length t) e in
    let less = sub64_small size 1 (omega arith) v.bounded in
    let step : drop (skip + 1) s ++ joined rest ≡ tail =
      ap (λ k. drop k s ++ joined rest) {x = skip + 1} {y = suc skip} (omega arith) ∙ cc split in
    elim (Bool-cases (skip + 1 == length s)) [
      | inl whole ↦
          let done : skip + 1 ≡ length s = ground (arith, whole) in
          let left : joined rest ≡ tail =
            ap (λ t. t ++ joined rest) (sym (drop_all (skip + 1) s (omega arith))) ∙ step in
          record {
            first = rw (front, peek, d) (ap some (cc split));
            valid =
                rw (remove_one size skip s rest v.filled.0, whole)
                  (record {
                    size = omega (
                      arith,
                      less,
                      width,
                      ap (λ t. length t) left,
                      ap (λ t. length t) (remaining_start (sub64 size 1) rest),
                    );
                    bounded = omega (arith, less, v.bounded);
                    filled = IsOpen-zero rest v.filled.1;
                  });
            rest =
                rw (remove_one size skip s rest v.filled.0, whole)
                  (remaining_start (sub64 size 1) rest ∙ left);
          }
      | inr part ↦ record {
        first = rw (front, peek, d) (ap some (cc split));
        valid =
            rw (remove_one size skip s rest v.filled.0, part)
              (record {
                size = omega (arith, less, width, ap (λ t. length t) step);
                bounded = omega (arith, less, v.bounded);
                filled = (ground (arith, part, v.filled.0), v.filled.1);
              });
        rest = rw (remove_one size skip s rest v.filled.0, part) step;
      }
    ]

advance_any :
    (size skip : ℕ) (buffer : List Bytes) (x : ℕ) (tail : Bytes)
    → IsValid (record { size = size; buffer = buffer; skip = skip })
    → remaining (record { size = size; buffer = buffer; skip = skip }) ≡ x ∷ tail
    → Advanced (record { size = size; buffer = buffer; skip = skip }) x tail
unfolding remaining
advance_any size skip [] x tail v e = absurd (cc e)
advance_any size skip (s ∷ rest) x tail v e = advance size skip s rest x tail v e

pub remove_prefix-Advanced :
    {b : BufferList} (x : ℕ) (tail : Bytes) → IsValid b → remaining b ≡ x ∷ tail → Advanced b x tail
remove_prefix-Advanced {b} x tail v e = advance_any b.size b.skip b.buffer x tail v e

-- One string that is not empty.
pub buffer_list_one :
    (s : Bytes)
    → 0 < length s
    → length s < u64_mod
    → IsValid (buffer_list (s ∷ [])) × (remaining (buffer_list (s ∷ [])) ≡ s)
unfolding buffer_list append_all append remaining joined
buffer_list_one s h k =
    let size : add64 0 (length s) ≡ length s =
      add64_small 0 (length s) (omega arith) ∙ omega arith in
    let text : s ++ [] ≡ s = append-nil s in
    (
      record {
        size = size ∙ ap (λ t. length t) (sym text);
        bounded = omega (arith, size, k);
        filled = (h, tt);
      },
      text,
    )
