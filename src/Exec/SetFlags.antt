-- ===== src/Exec/SetFlags.antt =====
-- The flag macros that take a result: `SetSF`, `SetZF`, `SetCF`, `SetOF_Add`, `SetOF_Sub`, `SetAF`
-- and `SetPF` of `common/i386.h`. `SetFlagSize` picks the width by the size of the first source.
use topgun.Common.{ℕ, ◌-◌, ◌%◌, ◌^◌, bit_xor, Bool, not, ◌&&◌, ◌==◌, u8}
use topgun.Common.Bits.{bit}
use topgun.Isa.{OperandSize, sz_8, sz_16, sz_32}
use topgun.Isa.Codes.{carry, parity, ac, zero_flag, sign, overflow}
use topgun.Isa.Parity.{parity_table}
use topgun.Machine.Outcome.{M, hang, stop}
use topgun.Machine.Flags.{cond_flag}

-- `SetFlagSize` and `SetFlagSizeOF`: `test` is given the width in bits.
unfoldable pub set_by_size : OperandSize → ℕ → (ℕ → Bool) → M (Unit {0})
set_by_size sz_8 flag test = cond_flag flag (test 8)
set_by_size sz_16 flag test = cond_flag flag (test 16)
set_by_size sz_32 flag test = cond_flag flag (test 32)
set_by_size _ flag test = stop hang

-- The sign bits `S8`, `S16` and `S32` of two values differ.
abbrev pub signs_differ : ℕ → ℕ → ℕ → Bool
signs_differ w a b = not (bit a (w - 1) == bit b (w - 1))

abbrev pub sign_test : ℕ → ℕ → Bool
sign_test v w = bit v (w - 1) == 1

abbrev pub carry_test : ℕ → ℕ → Bool
carry_test v w = bit v w == 1

abbrev pub zero_test : ℕ → ℕ → Bool
zero_test v w = v % 2 ^ w == 0

abbrev pub overflow_add_test : ℕ → ℕ → ℕ → ℕ → Bool
overflow_add_test a b d w = not (signs_differ w a b) && signs_differ w a d

abbrev pub overflow_sub_test : ℕ → ℕ → ℕ → ℕ → Bool
overflow_sub_test a b d w = not (signs_differ w d b) && signs_differ w a d

abbrev pub adjust_test : ℕ → ℕ → ℕ → Bool
adjust_test x y z = bit (bit_xor (bit_xor x y) z) 4 == 1

abbrev pub parity_test : ℕ → Bool
parity_test v = parity_table (u8 v) == 0

unfoldable pub set_sf : OperandSize → ℕ → M (Unit {0})
set_sf size v = set_by_size size sign (sign_test v)

-- `v` is a `uint32_t`.
unfoldable pub set_cf : OperandSize → ℕ → M (Unit {0})
set_cf size v = set_by_size size carry (carry_test v)

unfoldable pub set_zf : OperandSize → ℕ → M (Unit {0})
set_zf size v = set_by_size size zero_flag (zero_test v)

unfoldable pub set_of_add : OperandSize → ℕ → ℕ → ℕ → M (Unit {0})
set_of_add size a b d = set_by_size size overflow (overflow_add_test a b d)

unfoldable pub set_of_sub : OperandSize → ℕ → ℕ → ℕ → M (Unit {0})
set_of_sub size a b d = set_by_size size overflow (overflow_sub_test a b d)

unfoldable pub set_af : ℕ → ℕ → ℕ → M (Unit {0})
set_af x y z = cond_flag ac (adjust_test x y z)

unfoldable pub set_pf : ℕ → M (Unit {0})
set_pf v = cond_flag parity (parity_test v)
