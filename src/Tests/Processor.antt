-- ===== src/Tests/Processor.antt =====
-- The theorems on the processor at concrete inputs.
use topgun.Common.{ℕ, ◌+◌, ◌*◌, ◌%◌, ◌^◌, ◌<◌, ◌≤◌, ◌≡◌, ◌⊎◌, inr, refl, true, false, arith}
use topgun.Isa.{sz_8, sz_16, sz_32, write_dx, str_sz_8}
use topgun.Isa.Codes.{
  alu_add, alu_adc, alu_cmp, alu_mul, alu_neg, carry, zero_flag, jb, jae, scas, sign, r_eax, r_ecx,
  r_edx, r_edi, r_ebp,
}
use topgun.Machine.{Machine, set_reg, set_eip}
use topgun.Machine.Outcome.{◌>>=◌, pure, ok, ◌>>◌}
use topgun.Machine.Flags.{get_bit}
use topgun.Machine.Stable.{Ends}
use topgun.Step.{i386_step}
use topgun.Step.Invariant.{Settles, i386_step-Settles}
use topgun.Exec.Alu.MultiWord.{adc-add}
use topgun.Exec.Alu.{alu_result, add_result, sub_result, do_alu_op}
use topgun.Exec.Alu.Spec.{AddFlags, SubFlags}
use topgun.Exec.Alu.Tests.{sum, difference}
use topgun.Exec.Alu.Laws.{with_eflags, add_result-AddFlags, sub_result-SubFlags}
use topgun.Exec.AluSpecial.{num_bits, do_alu_special}
use topgun.Exec.AluSpecial.Laws.{eax_op, reg_32, mul_32-product, neg_carry-inverted}
use topgun.Exec.Jump.{jump_condition}
use topgun.Exec.Jump.Compare.{
  SignedJumps, UnsignedJumps, cmp-SignedJumps, cmp-UnsignedJumps, cmp_32-never_below,
}
use topgun.Exec.Stack.{
  drop_esp, raise_esp, i386_push, i386_pop, do_call_near, i386_ret_near, do_enter, do_leave,
}
use topgun.Exec.Stack.Laws.{after_push, with_mem, AgreesOutside, i386_pop-i386_push}
use topgun.Exec.Stack.Frames.{ret-call, leave-enter}
use topgun.Exec.Strings.{string_dest, do_string}
use topgun.Exec.Strings.Scas.{next_edi, scasb_compares-eax}
use topgun.Maverick.{maverick_board, start_machine, init_386, load_program}
use topgun.Tests.Fixtures.{board, machine, constant, constant-read}

i386_step-Settles_example : Ends (Settles 1 machine) (i386_step board 4 machine)
i386_step-Settles_example = i386_step-Settles board 4 machine

add_result-AddFlags_example :
    (e : ℕ) × (add_result sz_8 200 100 1 machine ≡ ok (sum 200 100 1) (with_eflags e machine))
    × AddFlags (num_bits sz_8) 200 100 1 e
add_result-AddFlags_example =
    add_result-AddFlags sz_8 200 100 1 machine tt (unfold num_bits in omega arith)
      (unfold num_bits in omega arith) (omega arith)

sub_result-SubFlags_example :
    (e : ℕ) × (sub_result sz_16 100 200 0 machine
      ≡ ok (difference 100 200 0) (with_eflags e machine))
    × SubFlags (num_bits sz_16) 100 200 0 e
sub_result-SubFlags_example =
    sub_result-SubFlags sz_16 100 200 0 machine tt (unfold num_bits in omega arith)
      (unfold num_bits in omega arith) (omega arith)

cmp-SignedJumps_example :
    (e : ℕ) × (do_alu_op board alu_cmp
        (constant sz_8 0)
        (constant sz_8 200)
        (constant sz_8 100)
        7
        machine
      ≡ ok tt (with_eflags e machine))
    × SignedJumps (num_bits sz_8) 200 100 (with_eflags e machine)
cmp-SignedJumps_example =
    cmp-SignedJumps board (constant sz_8 0) (constant sz_8 200) (constant sz_8 100) 7 200 100
      machine tt (constant-read sz_8 200 machine) (constant-read sz_8 100 machine)
      (unfold num_bits in omega arith) (unfold num_bits in omega arith)

cmp-UnsignedJumps_example :
    (e : ℕ) × (do_alu_op board alu_cmp
        (constant sz_8 0)
        (constant sz_8 100)
        (constant sz_8 200)
        7
        machine
      ≡ ok tt (with_eflags e machine))
    × UnsignedJumps 100 200 (with_eflags e machine)
cmp-UnsignedJumps_example =
    cmp-UnsignedJumps board (constant sz_8 0) (constant sz_8 100) (constant sz_8 200) 7 100 200
      machine tt (unfold num_bits in omega arith) (constant-read sz_8 100 machine)
      (constant-read sz_8 200 machine) (unfold num_bits in omega arith)
      (unfold num_bits in omega arith)

cmp_32-never_below_example :
    (m' : Machine) × (do_alu_op board alu_cmp
        (constant sz_32 0)
        (constant sz_32 1)
        (constant sz_32 2)
        7
        machine
      ≡ ok tt m')
    × (jump_condition jb m' ≡ ok false m')
    × (jump_condition jae m' ≡ ok true m')
cmp_32-never_below_example =
    cmp_32-never_below board (constant sz_32 0) (constant sz_32 1) (constant sz_32 2) 7 1 2 machine
      refl (constant-read sz_32 1 machine) (constant-read sz_32 2 machine) (omega arith)
      (omega arith)

i386_pop-i386_push_example :
    (f : ℕ → ℕ) × ((i386_push board 0x12345 >> i386_pop board) machine
      ≡ ok 0x2345 (with_mem f machine))
    × AgreesOutside (0x7c00 + 0xfffc) 2 f machine.mem
unfolding start_machine init_386 maverick_board drop_esp set_reg
i386_pop-i386_push_example = i386_pop-i386_push board machine 0x12345 (omega arith) (omega arith)

ret-call_example :
    (f : ℕ → ℕ) × ((do_call_near board (constant sz_16 0x200)
          >> i386_ret_near board (constant sz_16 6))
        machine
      ≡ ok tt (raise_esp 6 (set_eip 0 (with_mem f machine))))
    × AgreesOutside (0x7c00 + 0xfffc) 2 f machine.mem
unfolding start_machine init_386 maverick_board drop_esp set_reg
ret-call_example =
    ret-call board machine (constant sz_16 0x200) (constant sz_16 6) 0x200 6 (omega arith)
      (omega arith) (constant-read sz_16 0x200) (constant-read sz_16 6)

leave-enter_example :
    (f : ℕ → ℕ) × ((do_enter board (constant sz_16 16) (constant sz_8 0) >> do_leave board) machine
      ≡ ok tt (with_mem f (set_reg r_ebp 0 machine)))
    × ((j : ℕ)
        → (j < 0x7c00 + 0xfffc) ⊎ (0x7c00 + 0xfffc + 2 ≤ j)
        → (j < 0x7c00 + 0xfffa) ⊎ (0x7c00 + 0xfffa + 2 ≤ j)
        → f j ≡ machine.mem j)
unfolding start_machine init_386 maverick_board drop_esp set_reg after_push
leave-enter_example =
    leave-enter board machine (constant sz_16 16) (constant sz_8 0) 16 (omega arith) (omega arith)
      (omega arith) (omega arith) (inr (omega arith)) (constant-read sz_16 16)

-- AL is the byte at ES:EDI, and EAX is not.
abbrev scan_machine : Machine
scan_machine = set_reg r_edi 0x100 (set_reg r_eax 0x1f9 machine)

es_byte : scan_machine.mem (board.translate (string_dest scan_machine)) ≡ 0xf9
unfolding set_reg start_machine init_386 load_program maverick_board string_dest
es_byte = refl

scasb_compares-eax_example :
    (e : ℕ) × (do_string board scas str_sz_8 scan_machine
      ≡ ok tt (set_reg r_edi (next_edi scan_machine) (with_eflags e scan_machine)))
    × (get_bit zero_flag e ≡ 0)
unfolding set_reg start_machine init_386 load_program maverick_board string_dest
scasb_compares-eax_example = scasb_compares-eax board scan_machine (omega arith) (omega arith)

mul_32-product_example :
    (m' : Machine) × (do_alu_special board alu_mul eax_op
        (constant sz_32 0x10000)
        (constant sz_32 0x30000)
        write_dx
        machine
      ≡ ok tt m')
    × (m'.regs r_edx * 2 ^ 32 + m'.regs r_eax ≡ 0x300000000)
    × (m'.eflags ≡ machine.eflags)
mul_32-product_example =
    mul_32-product board (constant sz_32 0x10000) (constant sz_32 0x30000) 0x10000 0x30000 machine
      (constant-read sz_32 0x10000 machine) (constant-read sz_32 0x30000 machine) (omega arith)
      (omega arith)

neg_carry-inverted_example :
    (e : ℕ) × (do_alu_special board alu_neg
        (reg_32 r_ecx)
        (reg_32 r_ecx)
        (constant sz_32 0)
        0
        (set_reg r_ecx 5 machine)
      ≡ ok tt (set_reg r_ecx 0xffff_fffb (with_eflags e (set_reg r_ecx 5 machine))))
    × (get_bit carry e ≡ 0)
    × (get_bit zero_flag e ≡ 0)
    × (get_bit sign e ≡ 1)
unfolding set_reg
neg_carry-inverted_example =
    neg_carry-inverted board r_ecx 0 (constant sz_32 0) (set_reg r_ecx 5 machine)
      (constant-read sz_32 0 (set_reg r_ecx 5 machine)) (omega arith)

adc-add_example :
    (lo hi : ℕ) × (m' : Machine) × ((alu_result alu_add sz_8 200 100 >>= λ l.
    alu_result alu_adc sz_8 1 2 >>= λ h. pure {A = ℕ × ℕ} (l, h))
        machine
      ≡ ok (lo, hi) m')
    × (hi % 2 ^ num_bits sz_8 * 2 ^ num_bits sz_8 + lo % 2 ^ num_bits sz_8 ≡ 1068)
unfolding num_bits
adc-add_example =
    adc-add sz_8 200 1 100 2 machine tt (omega arith) (omega arith) (omega arith) (omega arith)
      (omega arith)
