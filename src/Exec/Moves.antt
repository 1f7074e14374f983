-- ===== src/Exec/Moves.antt =====
-- Moves between operands: MOV, LEA, XCHG, segment loads, XLAT, SAHF, LAHF, CBW, CWD and IN.
pub mod Laws
use topgun.Common.{ℕ, ◌+◌, ◌*◌, ◌%◌, ◌^◌, if◌then◌else◌, ◌==◌, ltb, u8, u16, u32, u64, sx8, sx16}
use topgun.Common.Bits.{bit}
use topgun.Isa.{DecodedOp, OperandSize, sz_8, sz_16}
use topgun.Isa.Codes.{al, ah, r_eax, r_ebx, carry, parity, ac, zero_flag, sign}
use topgun.Machine.{Machine, set_base}
use topgun.Machine.Outcome.{M, hang, gets, stop, modify, ◌>>=◌, ◌>>◌}
use topgun.Machine.Board.{Board, bus_read_8}
use topgun.Machine.Flags.{cond_flag}
use topgun.Machine.Regs.{get_reg_8, set_reg_8}
use topgun.Exec.Operand.{read_source, write_dest}
use topgun.Exec.Stack.{i386_pop}

-- `SX8` or `SX16` by the source's size, as a `uint32_t`.
unfoldable pub extend_source : OperandSize → ℕ → ℕ
extend_source sz_8 value = sx8 value
extend_source _ value = sx16 value

-- `SX16` (sign-extended once more to 64 bits) or `SX32`, as a `uint64_t`.
unfoldable pub extend_output : OperandSize → ℕ → ℕ
extend_output sz_16 value =
    if ltb (u16 value) 0x8000 then u16 value else u16 value + 0xffff_ffff_ffff_0000
extend_output _ value =
    if ltb (u32 value) 0x8000_0000 then u32 value else u32 value + 0xffff_ffff_0000_0000

unfoldable pub do_sahf : M (Unit {0})
do_sahf = do
  flags ← gets (get_reg_8 ah)
  cond_flag carry (bit flags carry == 1)
  cond_flag parity (bit flags parity == 1)
  cond_flag ac (bit flags ac == 1)
  cond_flag zero_flag (bit flags zero_flag == 1)
  cond_flag sign (bit flags sign == 1)

unfoldable pub do_lahf : M (Unit {0})
do_lahf = modify (λ m. set_reg_8 ah m.eflags m)

module _ (b : Board) where
  unfoldable pub do_mov : DecodedOp → DecodedOp → M (Unit {0})
  do_mov dst src = do val ← read_source b src; write_dest b dst (u32 val)

  unfoldable pub do_lea : DecodedOp → DecodedOp → M (Unit {0})
  do_lea dst src = write_dest b dst src.id

  unfoldable pub do_xlat : M (Unit {0})
  do_xlat = do
    addr ← gets (λ m. u32 ((m.seg_regs m.sgmt_override).base + m.regs r_ebx + get_reg_8 al m))
    value ← bus_read_8 b addr
    modify (set_reg_8 al value)

  -- In protected mode the load is not written: `while (1);`.
  unfoldable pub load_seg_reg : DecodedOp → ℕ → M (Unit {0})
  load_seg_reg dst selector = do
    protected ← gets (λ m. m.cr 0 % 2 == 1)
    if protected
        then stop hang
        else (write_dest b dst (u16 selector) >> modify (set_base dst.id (u16 selector * 2 ^ 4)))

  unfoldable pub do_mov_to_sr : DecodedOp → DecodedOp → M (Unit {0})
  do_mov_to_sr dst src = do selector ← read_source b src; load_seg_reg dst selector

  unfoldable pub do_pop_sr : DecodedOp → M (Unit {0})
  do_pop_sr dst = do selector ← i386_pop b; load_seg_reg dst selector

  unfoldable pub do_cbw_cwde : DecodedOp → DecodedOp → M (Unit {0})
  do_cbw_cwde dst src = do
    value ← read_source b src
    write_dest b dst (extend_source src.size value)

  unfoldable pub do_cwd_cdq : DecodedOp → DecodedOp → M (Unit {0})
  do_cwd_cdq dst src = do value ← read_source b src; write_dest b dst (extend_output src.size value)

  unfoldable pub do_xchg : DecodedOp → DecodedOp → M (Unit {0})
  do_xchg src1 src2 = do
    value1 ← read_source b src1
    value2 ← read_source b src2
    write_dest b src1 (u32 value2)
    write_dest b src2 (u32 value1)

  unfoldable pub do_inp : DecodedOp → DecodedOp → M (Unit {0})
  do_inp dst src = do port ← read_source b src; write_dest b dst (u32 (b.io_read_32 (u16 port)))
