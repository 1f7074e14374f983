-- ===== src/Exec/Strings.antt =====
-- The string instructions and their repetition.
pub mod Counter
pub mod Spares
pub mod Scas
use topgun.Common.{
  ℕ, zero, suc, ◌+◌, bit_and, Bool, not, ◌&&◌, ◌||◌, if◌then◌else◌, ◌==◌, u32, sub32,
}
use topgun.Isa.{OperandSize, sz_8, sz_16, sz_32, str_sz_8}
use topgun.Isa.Codes.{
  movs, scas, stos, lods, cmps, r_eax, r_ecx, r_esi, r_edi, es, direction, zero_flag, al,
}
use topgun.Machine.{Machine, set_reg}
use topgun.Machine.Outcome.{M, hang, out_of_fuel, pure, gets, stop, modify, ◌>>=◌, ◌>>◌}
use topgun.Machine.Board.{Board}
use topgun.Machine.Flags.{get_flag}
use topgun.Machine.Regs.{wide_operand, get_reg_8, get_reg_16}
use topgun.Exec.Operand.{read_mem, write_mem, write_register}
use topgun.Exec.SetFlags.{set_zf}
use topgun.Exec.Jump.{on}

-- `STRING_SIZE()`, as an operand size.
unfoldable pub string_size : ℕ → Machine → OperandSize
string_size size m =
    if bit_and size str_sz_8 == 0 then (if wide_operand m then sz_32 else sz_16) else sz_8

abbrev pub bytes_of : OperandSize → ℕ
bytes_of sz_8 = 1
bytes_of sz_16 = 2
bytes_of _ = 4

unfoldable pub string_dest : Machine → ℕ
string_dest m = u32 ((m.seg_regs es).base + m.regs r_edi)

unfoldable pub string_src_addr : Machine → ℕ
string_src_addr m = u32 ((m.seg_regs m.sgmt_override).base + m.regs r_esi)

-- `STRING_DEST_UPDATE()` with `r_edi`, `STRING_SRC_UPDATE()` with `r_esi`.
unfoldable pub string_update : ℕ → OperandSize → M (Unit {0})
string_update r sz = do
  down ← get_flag direction
  if down == 1
      then modify (λ m. set_reg r (sub32 (m.regs r) (bytes_of sz)) m)
      else modify (λ m. set_reg r (m.regs r + bytes_of sz) m)

-- The switch is on the row's flags, and has cases 1, 2 and 4.
unfoldable pub scas_flags : ℕ → ℕ → M (Unit {0})
scas_flags size val2 =
    if size == 1
    then (gets (get_reg_8 al) >>= λ v. set_zf sz_8 (sub32 v val2))
    else if size == 2
    then (gets (get_reg_16 r_eax) >>= λ v. set_zf sz_16 (sub32 v val2))
    else if size == 4
    then (gets (λ m. m.regs r_eax) >>= λ v. set_zf sz_32 (sub32 v val2))
    else pure tt

-- Whether the loop of `do_rep_string` breaks after a round.
unfoldable pub rep_breaks : ℕ → ℕ → Machine → Bool
rep_breaks sub_type cond m =
    let zf = on zero_flag m in
    if cond == 0 then ((sub_type == cmps) || (sub_type == scas)) && not zf else zf

module _ (b : Board) where
  unfoldable pub do_stos : ℕ → M (Unit {0})
  do_stos size = do
    sz ← gets (string_size size)
    val ← gets (λ m. m.regs r_eax)
    dest_addr ← gets string_dest
    write_mem b sz dest_addr val
    string_update r_edi sz

  unfoldable pub do_lods : ℕ → M (Unit {0})
  do_lods size = do
    sz ← gets (string_size size)
    src_addr ← gets string_src_addr
    val ← read_mem b sz src_addr
    write_register sz r_eax val
    string_update r_esi sz

  unfoldable pub do_cmps : ℕ → M (Unit {0})
  do_cmps size = do
    sz ← gets (string_size size)
    src_addr ← gets string_src_addr
    dest_addr ← gets string_dest
    val1 ← read_mem b sz src_addr
    val2 ← read_mem b sz dest_addr
    set_zf sz_8 (sub32 val1 val2)
    string_update r_esi sz
    string_update r_edi sz

  unfoldable pub do_scas : ℕ → M (Unit {0})
  do_scas size = do
    sz ← gets (string_size size)
    dest_addr ← gets string_dest
    val2 ← read_mem b sz dest_addr
    scas_flags size val2
    string_update r_edi sz

  unfoldable pub do_movs : ℕ → M (Unit {0})
  do_movs size = do
    sz ← gets (string_size size)
    src_addr ← gets string_src_addr
    dest_addr ← gets string_dest
    val ← read_mem b sz src_addr
    write_mem b sz dest_addr val
    string_update r_esi sz
    string_update r_edi sz

  unfoldable pub do_string : ℕ → ℕ → M (Unit {0})
  do_string sub_type size =
      if sub_type == stos
      then do_stos size
      else if sub_type == lods
      then do_lods size
      else if sub_type == cmps
      then do_cmps size
      else if sub_type == movs
      then do_movs size
      else if sub_type == scas
      then do_scas size
      else stop hang

  -- `while (pCPU->ecx)` with fuel.
  unfoldable pub rep_loop : ℕ → ℕ → ℕ → ℕ → M (Unit {0})
  rep_loop zero sub_type size cond = do
    done ← gets (λ m. m.regs r_ecx == 0)
    if done then pure tt else stop out_of_fuel
  rep_loop (suc fuel) sub_type size cond = do
    done ← gets (λ m. m.regs r_ecx == 0)
    if done then pure tt else (do
      do_string sub_type size
      modify (λ m. set_reg r_ecx (sub32 (m.regs r_ecx) 1) m)
      breaks ← gets (rep_breaks sub_type cond)
      if breaks then pure tt else rep_loop fuel sub_type size cond)

  -- ECX falls by one in each round, so its value is fuel enough.
  unfoldable pub do_rep_string : ℕ → ℕ → ℕ → M (Unit {0})
  do_rep_string sub_type size cond = do
    rounds ← gets (λ m. m.regs r_ecx)
    rep_loop rounds sub_type size cond
