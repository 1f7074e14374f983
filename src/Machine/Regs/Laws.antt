-- ===== src/Machine/Regs/Laws.antt =====
-- The registers at their widths overlap as the unions of `i386` do.
use topgun.Common.{ℕ, ◌+◌, ◌*◌, ◌/◌, ◌%◌, ◌^◌, ◌<◌, ◌≡◌, ◌==◌, ◌&&◌, ltb, u8, if◌then◌else◌, arith}
use topgun.Machine.{Machine, set_reg}
use topgun.Machine.Regs.{get_reg_8, get_reg_16, set_reg_8, set_reg_16}

-- Every register fits 32 bits.
abbrev pub RegsFit : Machine → Type 0
RegsFit m = (i : ℕ) → m.regs i < 2 ^ 32

module _ (m : Machine) (i j v : ℕ) (fit : RegsFit m) (small_i : i < 8) (small_j : j < 8) where
  -- An 8-bit register reads back what was written to it, and no other 8-bit register changes.
  get_reg_8-set_reg_8 : get_reg_8 i (set_reg_8 j v m) ≡ (if j == i then u8 v else get_reg_8 i m)
  unfolding get_reg_8 set_reg_8 set_reg
  get_reg_8-set_reg_8 = ground (arith, fit (j % 4))

  get_reg_8-set_reg_16 :
      get_reg_8 i (set_reg_16 j v m)
      ≡ (if j == i % 4 then (if ltb i 4 then u8 v else u8 (v / 2 ^ 8)) else get_reg_8 i m)
  unfolding get_reg_8 set_reg_16 set_reg
  get_reg_8-set_reg_16 = ground (arith, fit j)

  -- A write to an 8-bit register replaces the low or the high byte of the 16-bit register that holds
  -- it, and no other 16-bit register changes.
  get_reg_16-set_reg_8 : get_reg_16 i (set_reg_8 j v m) ≡ (
      if ltb i 4 && j == i
      then m.regs i / 2 ^ 8 % 2 ^ 8 * 2 ^ 8 + u8 v
      else if j == i + 4
      then u8 v * 2 ^ 8 + u8 (m.regs i)
      else get_reg_16 i m)
  unfolding get_reg_16 set_reg_8 set_reg
  get_reg_16-set_reg_8 = ground (arith, fit (j % 4))

  upper-set_reg_8 : (set_reg_8 j v m).regs i / 2 ^ 16 ≡ m.regs i / 2 ^ 16
  unfolding set_reg_8 set_reg
  upper-set_reg_8 = ground (arith, fit (j % 4))
