-- ===== src/Decode/Operands.antt =====
-- `decode_operand`.
use topgun.Common.{ℕ, ◌+◌, Bool, true, false, if◌then◌else◌, ◌==◌, u32, sx8, sx16}
use topgun.Isa.{
  Operand, OperandType, rm_modrm, reg_modrm, mem_modrm, creg_modrm, seg_reg_modrm, const_reg,
  const_seg_reg, constant, ip_rel, simm, offset, far_ptr, OperandSize, sz_8, sz_1632, sz_16, sz_32,
  sz_816, sz_3248, sz_48, sz_3264, sz_64, DecodedOp, DecodedType, mem, register, seg_reg, ctrlreg,
}
use topgun.Machine.{Machine}
use topgun.Machine.Outcome.{M, hang, undefined, pure, gets, stop, ◌>>=◌}
use topgun.Machine.Board.{Board}
use topgun.Machine.Regs.{wide_operand, wide_address}
use topgun.Decode.Fetch.{fetch_8, fetch_16, fetch_32}

-- The size that a conditional size comes to.
unfoldable pub real_size : Bool → OperandSize → OperandSize
real_size wide sz_1632 = if wide then sz_32 else sz_16
real_size wide sz_816 = if wide then sz_16 else sz_8
real_size wide sz_3248 = if wide then sz_48 else sz_32
real_size wide sz_3264 = if wide then sz_64 else sz_32
real_size wide size = size

abbrev pub decoded : DecodedType → ℕ → OperandSize → ℕ → DecodedOp
decoded t i size s = record { type = t; id = i; size = size; sr = s }

-- The segment of a memory operand: an override, or else the base register's, or else the default.
unfoldable pub operand_segment : DecodedOp → Machine → ℕ
operand_segment rm m =
    if m.overriding_sgmt == 0
    then (if rm.sr == 0 then m.sgmt_override else rm.sr)
    else m.sgmt_override

unfoldable pub decode_modrm_operand : DecodedOp → OperandSize → M DecodedOp
decode_modrm_operand rm size = gets (λ m. decoded rm.type rm.id size (operand_segment rm m))

unfoldable pub is_mem : DecodedType → Bool
is_mem mem = true
is_mem _ = false

module _ (b : Board) where
  -- An immediate of a size that has no case reads nothing and leaves the id unset.
  unfoldable pub fetch_imm : OperandSize → M ℕ
  fetch_imm sz_8 = fetch_8 b
  fetch_imm sz_16 = fetch_16 b
  fetch_imm sz_32 = fetch_32 b
  fetch_imm _ = pure 0

  unfoldable pub fetch_simm : OperandSize → M ℕ
  fetch_simm sz_8 = do v ← fetch_8 b; pure (sx8 v)
  fetch_simm sz_16 = do v ← fetch_16 b; pure (sx16 v)
  fetch_simm sz_32 = fetch_32 b
  fetch_simm _ = pure 0

  -- The offset is taken from EIP after the displacement. With a size that has no case `disp` is
  -- read unset.
  unfoldable pub fetch_rel : OperandSize → M ℕ
  fetch_rel sz_8 = do v ← fetch_8 b; gets (λ m. u32 (m.eip + sx8 v))
  fetch_rel sz_16 = do v ← fetch_16 b; gets (λ m. u32 (m.eip + sx16 v))
  fetch_rel sz_32 = do v ← fetch_32 b; gets (λ m. u32 (m.eip + v))
  fetch_rel _ = stop undefined

  unfoldable pub fetch_offset : M ℕ
  fetch_offset = do wide ← gets wide_address; if wide then fetch_32 b else fetch_16 b

  -- `size` is the real size; `reg` is the reg field.
  unfoldable pub decode_by_type : OperandType → OperandSize → DecodedOp → ℕ → ℕ → M DecodedOp
  decode_by_type OperandType.none size rm reg value = pure (decoded DecodedType.none 0 size 0)
  decode_by_type offset size rm reg value = do
    sr ← gets (λ m. m.sgmt_override)
    addr ← fetch_offset
    pure (decoded mem addr size sr)
  decode_by_type mem_modrm size rm reg value =
      if is_mem rm.type then decode_modrm_operand rm size else stop hang
  decode_by_type rm_modrm size rm reg value = decode_modrm_operand rm size
  decode_by_type reg_modrm size rm reg value = pure (decoded register reg size 0)
  decode_by_type creg_modrm size rm reg value = pure (decoded ctrlreg reg size 0)
  decode_by_type seg_reg_modrm size rm reg value = pure (decoded seg_reg reg size 0)
  decode_by_type const_reg size rm reg value = pure (decoded register value size 0)
  decode_by_type const_seg_reg size rm reg value = pure (decoded seg_reg value size 0)
  decode_by_type simm size rm reg value = do
    v ← fetch_simm size
    pure (decoded DecodedType.imm v size 0)
  decode_by_type far_ptr size rm reg value = do
    v ← fetch_imm size
    pure (decoded DecodedType.imm v size 0)
  decode_by_type OperandType.imm size rm reg value = do
    v ← fetch_imm size
    pure (decoded DecodedType.imm v size 0)
  decode_by_type constant size rm reg value = pure (decoded DecodedType.imm value size 0)
  decode_by_type OperandType.edx_eax size rm reg value = pure (decoded DecodedType.edx_eax 0 size 0)
  decode_by_type ip_rel size rm reg value = do
    v ← fetch_rel size
    pure (decoded DecodedType.imm v size 0)

  unfoldable pub decode_operand : DecodedOp → ℕ → Operand → M DecodedOp
  decode_operand rm reg op = do
    wide ← gets wide_operand
    decode_by_type op.type (real_size wide op.size) rm reg op.value
