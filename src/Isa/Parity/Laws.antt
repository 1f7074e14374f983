-- ===== src/Isa/Parity/Laws.antt =====
-- The parity table against its definition.
use topgun.Common.{all_below-at, all_below, ℕ, ◌+◌, ◌%◌, ◌<◌, ◌≡◌, refl, true, ◌==◌, arith}
use topgun.Common.Bits.{bit}
use topgun.Isa.Parity.{parity_table}

-- How many of the low 8 bits are 1.
abbrev pub ones_8 : ℕ → ℕ
ones_8 v = bit v 0 + bit v 1 + bit v 2 + bit v 3 + bit v 4 + bit v 5 + bit v 6 + bit v 7

table_right : all_below 256 (λ v. parity_table v == ones_8 v % 2) ≡ true
unfolding parity_table
table_right = refl

-- The table holds, for every byte, whether the number of its one bits is odd.
parity_table-ones : (v : ℕ) → v < 256 → parity_table v ≡ ones_8 v % 2
parity_table-ones v small =
    ground (arith, all_below-at 256 (λ v. parity_table v == ones_8 v % 2) table_right v small)
