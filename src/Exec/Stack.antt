-- ===== src/Exec/Stack.antt =====
-- The stack: `i386_push`, `i386_pop` and the handlers made of them.
pub mod Laws
pub mod Frames
use topgun.Common.{ℕ, ◌+◌, ◌-◌, ◌*◌, ◌/◌, ◌^◌, if◌then◌else◌, u16, u32, sub32}
use topgun.Isa.{DecodedOp}
use topgun.Isa.Codes.{r_eax, r_ecx, r_edx, r_ebx, r_esp, r_ebp, r_esi, r_edi, ss}
use topgun.Machine.{Machine, set_reg, set_eflags, set_eip}
use topgun.Machine.Outcome.{M, gets, modify, ◌>>=◌, ◌>>◌}
use topgun.Machine.Board.{Board, bus_read_16, bus_read_32, bus_write_16, bus_write_32}
use topgun.Machine.Regs.{wide_stack, wide_operand, set_reg_16, get_reg_16}
use topgun.Exec.Operand.{read_source, write_dest}

-- `pCPU->esp -= n` and `pCPU->esp += n`.
unfoldable pub drop_esp : ℕ → Machine → Machine
drop_esp n m = set_reg r_esp (sub32 (m.regs r_esp) n) m

unfoldable pub raise_esp : ℕ → Machine → Machine
raise_esp n m = set_reg r_esp (m.regs r_esp + n) m

abbrev pub stack_top : Machine → ℕ
stack_top m = u32 ((m.seg_regs ss).base + m.regs r_esp)

module _ (b : Board) where
  unfoldable pub i386_push : ℕ → M (Unit {0})
  i386_push value = do
    wide ← gets wide_stack
    if wide
        then (do modify (drop_esp 4); addr ← gets stack_top; bus_write_32 b addr value)
        else (do modify (drop_esp 2); addr ← gets stack_top; bus_write_16 b addr value)

  unfoldable pub i386_pop : M ℕ
  i386_pop = do
    wide ← gets wide_stack
    addr ← gets stack_top
    if wide
        then (bus_read_32 b addr >>= λ val. modify (raise_esp 4) >> gets (λ _. val))
        else (bus_read_16 b addr >>= λ val. modify (raise_esp 2) >> gets (λ _. val))

  -- Pushes a register, and pops into one at either width.
  unfoldable pub push_reg : ℕ → M (Unit {0})
  push_reg r = do value ← gets (λ m. m.regs r); i386_push value

  unfoldable pub pop_reg : ℕ → M (Unit {0})
  pop_reg r = do value ← i386_pop; modify (set_reg r value)

  unfoldable pub pop_reg_16 : ℕ → M (Unit {0})
  pop_reg_16 r = do value ← i386_pop; modify (set_reg_16 r value)

  unfoldable pub do_push : DecodedOp → M (Unit {0})
  do_push src = do val ← read_source b src; i386_push (u32 val)

  unfoldable pub do_pop : DecodedOp → M (Unit {0})
  do_pop dst = do value ← i386_pop; write_dest b dst value

  unfoldable pub do_enter : DecodedOp → DecodedOp → M (Unit {0})
  do_enter src1 src2 = do
    push_reg r_ebp
    temp ← gets (λ m. m.regs r_esp)
    i386_push temp
    modify (set_reg r_ebp temp)
    amount ← read_source b src1
    modify (λ m. set_reg r_esp (m.regs r_esp + 2 ^ 32 - u32 amount) m)

  unfoldable pub do_leave : M (Unit {0})
  do_leave = do
    wide ← gets wide_stack
    if wide
        then modify (λ m. set_reg r_esp (m.regs r_ebp) m)
        else modify (λ m. set_reg_16 r_esp (m.regs r_ebp) m)
    pop_reg r_ebp

  unfoldable pub do_pushf : M (Unit {0})
  do_pushf = do value ← gets (λ m. m.eflags); i386_push value

  unfoldable pub do_popf : M (Unit {0})
  do_popf = do
    new_flags ← i386_pop
    wide ← gets wide_operand
    if wide
        then modify (set_eflags new_flags)
        else modify (λ m. set_eflags (m.eflags / 2 ^ 16 * 2 ^ 16 + u16 new_flags) m)

  unfoldable pub do_pusha : M (Unit {0})
  do_pusha = do
    temp ← gets (λ m. m.regs r_esp)
    push_reg r_eax
    push_reg r_ecx
    push_reg r_edx
    push_reg r_ebx
    i386_push temp
    push_reg r_ebp
    push_reg r_esi
    push_reg r_edi

  unfoldable pub do_popa : M (Unit {0})
  do_popa = do
    wide ← gets wide_operand
    if wide
        then (do
          pop_reg r_edi
          pop_reg r_esi
          pop_reg r_ebp
          modify (raise_esp 4)
          pop_reg r_ebx
          pop_reg r_edx
          pop_reg r_ecx
          pop_reg r_eax)
        else (do
          pop_reg_16 r_edi
          pop_reg_16 r_esi
          pop_reg_16 r_ebp
          modify (λ m. set_reg_16 r_esp (get_reg_16 r_esp m + 2) m)
          pop_reg_16 r_ebx
          pop_reg_16 r_edx
          pop_reg_16 r_ecx
          pop_reg_16 r_eax)

  unfoldable pub do_call_near : DecodedOp → M (Unit {0})
  do_call_near src = do
    return ← gets (λ m. m.eip)
    i386_push return
    target ← read_source b src
    modify (set_eip target)

  unfoldable pub i386_ret_near : DecodedOp → M (Unit {0})
  i386_ret_near src = do
    inc_amnt ← read_source b src
    target ← i386_pop
    modify (set_eip target)
    modify (raise_esp (u32 inc_amnt))
