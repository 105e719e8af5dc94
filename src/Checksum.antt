-- ===== src/Checksum.antt =====
-- util/checksum.hh: the internet checksum.
pub mod Value
mod Tests
use cs144_2024_winter.Base.{
  ℕ, zero, suc, ◌+◌, ◌-◌, ◌*◌, ◌/◌, ◌%◌, ◌^◌, Bool, true, false, not, List, [], ◌∷◌, Bytes, ltb,
  if◌then◌else◌, add32, u16_mod,
}

pub record InternetChecksum : Type 0 where
  pub sum : ℕ
  pub parity : Bool

unfoldable pub internet_checksum : ℕ → InternetChecksum
internet_checksum sum = record { sum = sum; parity = false }

-- A byte is the high half of a word where the parity is even.
unfoldable pub add : Bytes → InternetChecksum → InternetChecksum
add [] c = c
add (i ∷ rest) c = add rest record {
  sum = add32 c.sum (if not c.parity then i * 256 % u16_mod else i);
  parity = not c.parity;
}

pub add_all : List Bytes → InternetChecksum → InternetChecksum
add_all [] c = c
add_all (x ∷ xs) c = add_all xs (add x c)

-- The loop of `value`. For a 32-bit number two rounds are enough.
pub fold_carries : ℕ → ℕ → ℕ
fold_carries zero ret = ret
fold_carries (suc fuel) ret =
    let rest = fold_carries fuel (ret / 2 ^ 16 + ret % u16_mod) in
    if ltb 0xffff ret then rest else ret

pub value : InternetChecksum → ℕ
value c = 0xffff - fold_carries 2 c.sum % u16_mod
