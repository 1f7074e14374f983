-- ===== src/Exec/Keeps/Data.antt =====
-- The bus, the operands, the flags and the handlers that compute.
use topgun.Common.{ℕ, Bool}
use topgun.Isa.{DecodedOp, DecodedType, none, OperandSize, sz_8}
use topgun.Machine.Board.{
  Board, check_access, bus_read_8, bus_read_16, bus_read_32, bus_write_8, bus_write_16,
  bus_write_32,
}
use topgun.Machine.Flags.{get_flag, cond_flag}
use topgun.Machine.Stable.{
  Stable, Keeps, Keeps-pure, Keeps-gets, Keeps-hang, Keeps-modify, keeps_rules,
}
use topgun.Machine.Stable.Writes.{writes_rules}
use topgun.Exec.Operand.{
  read_register, write_edx_eax, write_register, read_mem, write_mem, read_typed, read_source,
  write_typed, write_dest,
}

ruleset base_rules = (keeps_rules, writes_rules)

module _ (b : Board) (addr : ℕ) where
  check_access-Keeps : (n : ℕ) → Keeps (check_access b addr n)
  unfolding check_access
  check_access-Keeps n = search base_rules

  pub bus_read_8-Keeps : Keeps (bus_read_8 b addr)
  unfolding bus_read_8
  bus_read_8-Keeps = search (base_rules, check_access-Keeps)

  pub bus_read_16-Keeps : Keeps (bus_read_16 b addr)
  unfolding bus_read_16
  bus_read_16-Keeps = search (base_rules, check_access-Keeps)

  pub bus_read_32-Keeps : Keeps (bus_read_32 b addr)
  unfolding bus_read_32
  bus_read_32-Keeps = search (base_rules, check_access-Keeps)

  pub bus_write_8-Keeps : (v : ℕ) → Keeps (bus_write_8 b addr v)
  unfolding bus_write_8
  bus_write_8-Keeps v = search (base_rules, check_access-Keeps)

  pub bus_write_16-Keeps : (v : ℕ) → Keeps (bus_write_16 b addr v)
  unfolding bus_write_16
  bus_write_16-Keeps v = search (base_rules, check_access-Keeps)

  pub bus_write_32-Keeps : (v : ℕ) → Keeps (bus_write_32 b addr v)
  unfolding bus_write_32
  bus_write_32-Keeps v = search (base_rules, check_access-Keeps) depth 12

pub ruleset bus_rules = (
  keeps_rules, writes_rules, bus_read_8-Keeps, bus_read_16-Keeps, bus_read_32-Keeps,
  bus_write_8-Keeps, bus_write_16-Keeps, bus_write_32-Keeps,
)

pub get_flag-Keeps : (flag : ℕ) → Keeps (get_flag flag)
unfolding get_flag
get_flag-Keeps flag = search bus_rules

pub cond_flag-Keeps : (flag : ℕ) (val : Bool) → Keeps (cond_flag flag val)
unfolding cond_flag
cond_flag-Keeps flag val = search bus_rules

read_register-Keeps : (size : OperandSize) (id : ℕ) → Keeps (read_register size id)
unfolding read_register
read_register-Keeps sz_8 id = search bus_rules
read_register-Keeps _ id = search bus_rules

pub write_register-Keeps : (size : OperandSize) (id v : ℕ) → Keeps (write_register size id v)
unfolding write_register
write_register-Keeps sz_8 id v = search bus_rules
write_register-Keeps _ id v = search bus_rules

write_edx_eax-Keeps : (size : OperandSize) (v : ℕ) → Keeps (write_edx_eax size v)
unfolding write_edx_eax
write_edx_eax-Keeps sz_8 v = search bus_rules depth 8
write_edx_eax-Keeps _ v = search bus_rules depth 8

module _ (b : Board) where
  pub read_mem-Keeps : (size : OperandSize) (addr : ℕ) → Keeps (read_mem b size addr)
  unfolding read_mem
  read_mem-Keeps sz_8 addr = search bus_rules
  read_mem-Keeps _ addr = search bus_rules

  pub write_mem-Keeps : (size : OperandSize) (addr v : ℕ) → Keeps (write_mem b size addr v)
  unfolding write_mem
  write_mem-Keeps sz_8 addr v = search bus_rules
  write_mem-Keeps _ addr v = search bus_rules

  read_typed-Keeps : (t : DecodedType) (src : DecodedOp) → Keeps (read_typed b t src)
  unfolding read_typed
  read_typed-Keeps none src = search (bus_rules, read_mem-Keeps, read_register-Keeps)
  read_typed-Keeps _ src = search (bus_rules, read_mem-Keeps, read_register-Keeps)

  pub read_source-Keeps : (src : DecodedOp) → Keeps (read_source b src)
  unfolding read_source
  read_source-Keeps src = read_typed-Keeps src.type src

  write_typed-Keeps : (t : DecodedType) (dst : DecodedOp) (v : ℕ) → Keeps (write_typed b t dst v)
  unfolding write_typed
  write_typed-Keeps none dst v =
      search (bus_rules, write_mem-Keeps, write_register-Keeps, write_edx_eax-Keeps)
  write_typed-Keeps _ dst v =
      search (bus_rules, write_mem-Keeps, write_register-Keeps, write_edx_eax-Keeps)

  pub write_dest-Keeps : (dst : DecodedOp) (v : ℕ) → Keeps (write_dest b dst v)
  unfolding write_dest
  write_dest-Keeps dst v = write_typed-Keeps dst.type dst v

pub ruleset data_rules = (
  bus_rules, get_flag-Keeps, cond_flag-Keeps, write_register-Keeps, read_mem-Keeps, write_mem-Keeps,
  read_source-Keeps, write_dest-Keeps,
)
