-- ===== src/Exec/Jump/Compare.antt =====
-- What the conditional jumps test after a CMP.
use topgun.Common.{ℕ, ◌^◌, ◌≡◌, ◌<◌, true, false, not, ◌&&◌, ◌||◌, ◌==◌, ltb, u32, arith}
use topgun.Isa.{DecodedOp, OperandSize, sz_8, sz_16, sz_32}
use topgun.Isa.Codes.{
  alu_cmp, carry, zero_flag, sign, overflow, jb, jae, je, jne, jbe, ja, jl, jge, jle, jg,
}
use topgun.Machine.{Machine}
use topgun.Machine.Outcome.{ok, ◌>>=◌}
use topgun.Machine.Board.{Board}
use topgun.Machine.Flags.{get_bit}
use topgun.Exec.Operand.{read_source}
use topgun.Exec.AluSpecial.{num_bits}
use topgun.Exec.Alu.{alu_result, alu_single, do_alu_op}
use topgun.Exec.Alu.Spec.{IsPlain, biased, SubFlags}
use topgun.Exec.Alu.Laws.{with_eflags, sub_result-SubFlags}
use topgun.Exec.Jump.{jump_condition}

module _ (x y e : ℕ) where
  -- What the flags of `x - y` say of the two numbers.
  pub record Compared (w : ℕ) : Type 0 where
    pub equal_is : (get_bit zero_flag e == 1) ≡ (x == y)
    pub less_is : not (get_bit sign e == get_bit overflow e) ≡ ltb (biased w x) (biased w y)
    pub below_is : (get_bit carry e == 1) ≡ (ltb w 32 && ltb x y)

  Compared-intro :
      (size : OperandSize)
      → IsPlain size
      → x < 2 ^ num_bits size
      → y < 2 ^ num_bits size
      → SubFlags (num_bits size) x y 0 e
      → Compared (num_bits size)
  unfolding num_bits
  Compared-intro sz_8 plain p q f = record {
    equal_is = ground (arith, f);
    less_is = ground (arith, f);
    below_is = ground (arith, f);
  }
  Compared-intro sz_16 plain p q f = record {
    equal_is = ground (arith, f);
    less_is = ground (arith, f);
    below_is = ground (arith, f);
  }
  Compared-intro sz_32 plain p q f = record {
    equal_is = ground (arith, f);
    less_is = ground (arith, f);
    below_is = ground (arith, f);
  }
  Compared-intro _ plain p q f = absurd plain

-- The conditions on equality and on signed numbers, in a state that a comparison left.
pub record SignedJumps (w x y : ℕ) (m : Machine) : Type 0 where
  pub je_is : jump_condition je m ≡ ok (x == y) m
  pub jne_is : jump_condition jne m ≡ ok (not (x == y)) m
  pub jl_is : jump_condition jl m ≡ ok (ltb (biased w x) (biased w y)) m
  pub jge_is : jump_condition jge m ≡ ok (not (ltb (biased w x) (biased w y))) m
  pub jle_is : jump_condition jle m ≡ ok ((x == y) || ltb (biased w x) (biased w y)) m
  pub jg_is : jump_condition jg m ≡ ok (not (x == y) && not (ltb (biased w x) (biased w y))) m

-- The conditions on unsigned numbers.
pub record UnsignedJumps (x y : ℕ) (m : Machine) : Type 0 where
  pub jb_is : jump_condition jb m ≡ ok (ltb x y) m
  pub jae_is : jump_condition jae m ≡ ok (not (ltb x y)) m
  pub jbe_is : jump_condition jbe m ≡ ok (ltb x y || (x == y)) m
  pub ja_is : jump_condition ja m ≡ ok (not (ltb x y) && not (x == y)) m

module _ (w x y e : ℕ) (m : Machine) (c : Compared x y e w) where
  Compared-SignedJumps : SignedJumps w x y (with_eflags e m)
  unfolding jump_condition ◌>>=◌
  Compared-SignedJumps = record {
    je_is = rw c.equal_is;
    jne_is = rw c.equal_is;
    jl_is = rw c.less_is;
    jge_is = rw c.less_is;
    jle_is = rw (c.equal_is, c.less_is);
    jg_is = rw (c.equal_is, c.less_is);
  }

  Compared-UnsignedJumps : (w < 32) → UnsignedJumps x y (with_eflags e m)
  unfolding jump_condition ◌>>=◌
  Compared-UnsignedJumps narrow =
      let below : (get_bit carry e == 1) ≡ ltb x y = ground (arith, c.below_is) in
      record {
        jb_is = rw below;
        jae_is = rw below;
        jbe_is = rw (below, c.equal_is);
        ja_is = rw (below, c.equal_is);
      }

u32_of_fits : (size : OperandSize) (v : ℕ) → v < 2 ^ num_bits size → u32 v ≡ v
unfolding num_bits
u32_of_fits sz_8 v p = omega arith
u32_of_fits _ v p = omega arith

module _ (b : Board) (dst src1 src2 : DecodedOp) (reg x y : ℕ) (m : Machine) where
  cmp_runs :
      IsPlain src1.size
      → read_source b src1 m ≡ ok x m
      → read_source b src2 m ≡ ok y m
      → x < 2 ^ num_bits src1.size
      → y < 2 ^ num_bits src1.size
      → (e : ℕ) × (do_alu_op b alu_cmp dst src1 src2 reg m ≡ ok tt (with_eflags e m))
        × SubFlags (num_bits src1.size) x y 0 e
  unfolding do_alu_op alu_single alu_result ◌>>=◌
  cmp_runs plain r1 r2 p q =
      let (e, runs, flags) = sub_result-SubFlags src1.size x y 0 m plain p q (omega arith) in
      (e, rw (r1, r2, u32_of_fits src1.size x p, u32_of_fits src1.size y q, runs), flags)

  -- After CMP has compared two operands of a plain size, with values that fit it, CMP has changed
  -- nothing but `eflags`, and the conditions on equality and on signed order hold exactly when the
  -- values compare so.
  pub cmp-SignedJumps :
      IsPlain src1.size
      → read_source b src1 m ≡ ok x m
      → read_source b src2 m ≡ ok y m
      → x < 2 ^ num_bits src1.size
      → y < 2 ^ num_bits src1.size
      → (e : ℕ) × (do_alu_op b alu_cmp dst src1 src2 reg m ≡ ok tt (with_eflags e m))
        × SignedJumps (num_bits src1.size) x y (with_eflags e m)
  cmp-SignedJumps plain r1 r2 p q =
      let (e, runs, flags) = cmp_runs plain r1 r2 p q in
      (e, runs, Compared-SignedJumps _ x y e m (Compared-intro x y e src1.size plain p q flags))

  -- After CMP has compared two operands of 8 or 16 bits, with values that fit them, CMP has changed
  -- nothing but `eflags`, and the conditions on unsigned order hold exactly when the values compare
  -- so.
  pub cmp-UnsignedJumps :
      IsPlain src1.size
      → num_bits src1.size < 32
      → read_source b src1 m ≡ ok x m
      → read_source b src2 m ≡ ok y m
      → x < 2 ^ num_bits src1.size
      → y < 2 ^ num_bits src1.size
      → (e : ℕ) × (do_alu_op b alu_cmp dst src1 src2 reg m ≡ ok tt (with_eflags e m))
        × UnsignedJumps x y (with_eflags e m)
  cmp-UnsignedJumps plain narrow r1 r2 p q =
      let (e, runs, flags) = cmp_runs plain r1 r2 p q in
      (
        e,
        runs,
        Compared-UnsignedJumps _ x y e m (Compared-intro x y e src1.size plain p q flags) narrow,
      )

  -- After CMP of two 32-bit operands the condition of JB fails and that of JAE holds, whatever the
  -- values are.
  pub cmp_32-never_below :
      src1.size ≡ sz_32
      → read_source b src1 m ≡ ok x m
      → read_source b src2 m ≡ ok y m
      → x < 2 ^ 32
      → y < 2 ^ 32
      → (m' : Machine) × (do_alu_op b alu_cmp dst src1 src2 reg m ≡ ok tt m')
        × (jump_condition jb m' ≡ ok false m')
        × (jump_condition jae m' ≡ ok true m')
  unfolding jump_condition ◌>>=◌
  cmp_32-never_below is32 r1 r2 p q =
      let plain : IsPlain src1.size = rw is32 tt in
      let wide : num_bits src1.size ≡ 32 = unfold num_bits in rw is32 in
      let (e, runs, flags) = cmp_runs plain r1 r2 (rw wide p) (rw wide q) in
      let none : (get_bit carry e == 1) ≡ false = ground (arith, flags.carry_is) in
      (with_eflags e m, runs, rw none, rw none)
