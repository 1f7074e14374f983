-- ===== src/Exec/AluSpecial/Laws.antt =====
-- Multiplication, and the carry of NEG.
use topgun.Common.{
  ℕ, ◌+◌, ◌-◌, ◌*◌, ◌/◌, ◌^◌, ◌<◌, ◌≡◌, refl, flag_of, ◌==◌, ◌&&◌, ltb, leb, ap, u64, u32, update,
  arith,
}
use native.Mathlib.Nat.{mul-le-mul_left}
use topgun.Isa.{sz_32, DecodedOp, register, write_dx}
use topgun.Isa.Codes.{alu_mul, alu_neg, carry, parity, zero_flag, sign, r_eax, r_edx}
use topgun.Machine.{Machine, set_reg, set_eflags}
use topgun.Machine.Outcome.{ok, ◌>>=◌}
use topgun.Machine.Board.{Board}
use topgun.Machine.Flags.{get_bit, write_flag, cond_flag}
use topgun.Machine.Flags.Laws.{flag_laws}
use topgun.Exec.Operand.{
  read_source, read_typed, read_register, write_dest, write_typed, write_register,
}
use topgun.Exec.SetFlags.{set_sf, set_zf, set_pf, set_by_size, parity_test, zero_test, sign_test}
use topgun.Exec.AluSpecial.{num_bits, special_result, do_alu_special, write_high}
use topgun.Exec.Alu.Laws.{with_eflags}

-- `eflags` after NEG of a 32-bit value.
abbrev neg_eflags : ℕ → ℕ → ℕ
neg_eflags a e = write_flag parity (parity_test (u64 (2 ^ 64 - a))) (
    write_flag zero_flag (zero_test (u64 (2 ^ 64 - a)) 32)
      (write_flag sign (sign_test (u64 (2 ^ 64 - a)) 32) (write_flag carry (a == 0) e)))

product_bound : (x y : ℕ) → x < 2 ^ 32 → y < 2 ^ 32 → x * y < 2 ^ 64
product_bound x y p q =
    omega (arith, mul-le-mul_left {m = y} {n = 2 ^ 32 - 1} x (omega (arith, q)), p)

-- The operand EAX.
abbrev pub eax_op : DecodedOp
eax_op = record { type = register; id = r_eax; size = sz_32; sr = 0 }

-- MUL of two 32-bit values into EAX leaves their whole product in EDX:EAX, and no flag changed.
pub mul_32-product :
    (b : Board) (src1 src2 : DecodedOp) (x y : ℕ) (m : Machine)
    → read_source b src1 m ≡ ok x m
    → read_source b src2 m ≡ ok y m
    → x < 2 ^ 32
    → y < 2 ^ 32
    → (m' : Machine) × (do_alu_special b alu_mul eax_op src1 src2 write_dx m ≡ ok tt m')
      × (m'.regs r_edx * 2 ^ 32 + m'.regs r_eax ≡ x * y)
      × (m'.eflags ≡ m.eflags)
unfolding do_alu_special special_result num_bits write_dest write_register write_high set_reg ◌>>=◌
mul_32-product b src1 src2 x y m r1 r2 p q = (
  set_reg r_edx (u64 (x * y) / 2 ^ 32) (set_reg r_eax (u64 (x * y)) m),
  rw (r1, r2),
  omega (arith, product_bound x y p q),
  refl,
)

-- A register holds 32 bits of what is stored in it.
set_reg-u32 : (i v w : ℕ) (m : Machine) → u32 v ≡ u32 w → set_reg i v m ≡ set_reg i w m
unfolding set_reg
set_reg-u32 i v w m same =
    ap (λ x. record m { cpu = record (m.cpu) { regs = update m.regs i x } }) same

zero : (a : ℕ) → a < 2 ^ 32 → zero_test (u64 (2 ^ 64 - a)) 32 ≡ (a == 0)
zero a fits = ground (arith, fits)

negative : (a : ℕ) → a < 2 ^ 32 → sign_test (u64 (2 ^ 64 - a)) 32 ≡ (ltb 0 a && leb a (2 ^ 31))
negative a fits = ground (arith, fits)

-- A 32-bit register as an operand.
abbrev pub reg_32 : ℕ → DecodedOp
reg_32 i = record { type = register; id = i; size = sz_32; sr = 0 }

-- NEG of a 32-bit register, with a second source that can be read, leaves the two's complement of
-- the register in it and changes nothing else but `eflags`. There the carry says that the register
-- was 0, which is the opposite of NEG's carry, ZF says so too, and SF is the top bit of the result.
pub neg_carry-inverted :
    (b : Board) (i c : ℕ) (src2 : DecodedOp) (m : Machine)
    → read_source b src2 m ≡ ok c m
    → m.regs i < 2 ^ 32
    → (e : ℕ) × (do_alu_special b alu_neg (reg_32 i) (reg_32 i) src2 0 m
        ≡ ok tt (set_reg i (2 ^ 32 - m.regs i) (with_eflags e m)))
      × (get_bit carry e ≡ flag_of (m.regs i == 0))
      × (get_bit zero_flag e ≡ flag_of (m.regs i == 0))
      × (get_bit sign e ≡ flag_of (ltb 0 (m.regs i) && leb (m.regs i) (2 ^ 31)))
unfolding do_alu_special special_result num_bits set_sf set_zf set_pf set_by_size cond_flag
    set_eflags read_source read_typed read_register write_dest write_typed write_register ◌>>=◌
neg_carry-inverted b i c src2 m reads fits = (
  neg_eflags (m.regs i) m.eflags,
  rw reads (
      ap (ok tt) (
        set_reg-u32 i (u64 (2 ^ 64 - m.regs i)) (2 ^ 32 - m.regs i)
          (with_eflags (neg_eflags (m.regs i) m.eflags) m) (omega (arith, fits)))),
  simp flag_laws,
  simp flag_laws (ap flag_of (zero (m.regs i) fits)),
  simp flag_laws (ap flag_of (negative (m.regs i) fits)),
)
