-- ===== src/Checksum/Tests.antt =====
-- A run of util/checksum.hh on three bytes, and an instance of the theorem on it.
use cs144_2024_winter.Base.{◌-◌, true, ◌+◌, ◌%◌, ◌≤◌, ◌≡◌, refl, arith, [], ◌∷◌}
use cs144_2024_winter.Checksum.{InternetChecksum, internet_checksum, add, value}
use cs144_2024_winter.Checksum.Value.{value_lem}

value_bytes : value (add (0x12 ∷ 0x34 ∷ 0x56 ∷ []) (internet_checksum 0)) ≡ 0xffff - 0x6834
unfolding value add internet_checksum cs144_2024_winter.Checksum.fold_carries
value_bytes = refl

abbrev carried : InternetChecksum
carried = record { sum = 0x2fffe; parity = true }

value_lem_example : (value carried ≤ 0xffff) × ((value carried + 0x2fffe) % 0xffff ≡ 0)
value_lem_example = value_lem carried (omega arith)
