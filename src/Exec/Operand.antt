-- ===== src/Exec/Operand.antt =====
-- `read_source` and `write_dest`: the value of a decoded operand, and a write through one.
use topgun.Common.{ℕ, ◌+◌, ◌*◌, ◌/◌, ◌^◌, ltb, if◌then◌else◌, u16, u32}
use topgun.Isa.{
  DecodedOp, DecodedType, none, mem, register, seg_reg, ctrlreg, imm, edx_eax, OperandSize, sz_8,
  sz_16, sz_32, sz_64,
}
use topgun.Isa.Codes.{r_eax, r_edx}
use topgun.Machine.{Machine, set_reg, set_cr, set_selector}
use topgun.Machine.Outcome.{M, hang, undefined, pure, gets, modify, stop, ◌>>=◌, ◌>>◌}
use topgun.Machine.Board.{
  Board, bus_read_8, bus_read_16, bus_read_32, bus_write_8, bus_write_16, bus_write_32,
}
use topgun.Machine.Regs.{get_reg_8, get_reg_16, set_reg_8, set_reg_16}

-- DX:AX or EDX:EAX. The two halves are disjoint, so `|` is a sum.
unfoldable pub read_edx_eax : OperandSize → Machine → ℕ
read_edx_eax sz_32 m = u16 (m.regs r_edx) * 2 ^ 16 + u16 (m.regs r_eax)
read_edx_eax _ m = m.regs r_edx * 2 ^ 32 + m.regs r_eax

unfoldable pub read_register : OperandSize → ℕ → M ℕ
read_register sz_8 id = gets (get_reg_8 id)
read_register sz_16 id = gets (get_reg_16 id)
read_register sz_32 id = gets (λ m. m.regs id)
read_register _ id = stop hang

unfoldable pub write_edx_eax : OperandSize → ℕ → M (Unit {0})
write_edx_eax sz_32 value = do
  modify (set_reg_16 r_edx (value / 2 ^ 16))
  modify (set_reg_16 r_eax value)
write_edx_eax sz_64 value = do modify (set_reg r_edx (value / 2 ^ 32)); modify (set_reg r_eax value)
write_edx_eax _ value = pure tt

unfoldable pub write_register : OperandSize → ℕ → ℕ → M (Unit {0})
write_register sz_8 id value = modify (set_reg_8 id value)
write_register sz_16 id value = modify (set_reg_16 id value)
write_register sz_32 id value = modify (set_reg id value)
write_register _ id value = stop hang

module _ (b : Board) where
  unfoldable pub read_mem : OperandSize → ℕ → M ℕ
  read_mem sz_8 addr = bus_read_8 b addr
  read_mem sz_16 addr = bus_read_16 b addr
  read_mem sz_32 addr = bus_read_32 b addr
  read_mem _ addr = stop hang

  unfoldable pub write_mem : OperandSize → ℕ → ℕ → M (Unit {0})
  write_mem sz_8 addr value = bus_write_8 b addr value
  write_mem sz_16 addr value = bus_write_16 b addr value
  write_mem sz_32 addr value = bus_write_32 b addr value
  write_mem _ addr value = stop hang

  -- The linear address of a memory operand.
  abbrev pub effective : DecodedOp → Machine → ℕ
  effective d m = u32 ((m.seg_regs d.sr).base + d.id)

  -- There are six segment registers; an index past them is undefined.
  unfoldable pub read_typed : DecodedType → DecodedOp → M ℕ
  read_typed none src = pure 0
  read_typed imm src = pure src.id
  read_typed edx_eax src = gets (read_edx_eax src.size)
  read_typed mem src = do addr ← gets (effective src); read_mem src.size addr
  read_typed register src = read_register src.size src.id
  read_typed seg_reg src =
      if ltb src.id 6 then gets (λ m. (m.seg_regs src.id).selector) else stop undefined
  read_typed ctrlreg src = gets (λ m. m.cr src.id)

  unfoldable pub read_source : DecodedOp → M ℕ
  unfolding read_typed
  read_source src = read_typed src.type src

  unfoldable pub write_typed : DecodedType → DecodedOp → ℕ → M (Unit {0})
  write_typed none dst value = pure tt
  write_typed edx_eax dst value = write_edx_eax dst.size value
  write_typed mem dst value = do addr ← gets (effective dst); write_mem dst.size addr value
  write_typed register dst value = write_register dst.size dst.id value
  write_typed seg_reg dst value =
      if ltb dst.id 6 then modify (set_selector dst.id value) else stop undefined
  write_typed ctrlreg dst value = modify (set_cr dst.id value)
  write_typed imm dst value = stop hang

  unfoldable pub write_dest : DecodedOp → ℕ → M (Unit {0})
  unfolding write_typed
  write_dest dst value = write_typed dst.type dst value
