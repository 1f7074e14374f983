-- ===== src/Exec/Alu/MultiWord.antt =====
-- ADD and ADC on numbers of two words.
use topgun.Common.{ℕ, ◌+◌, ◌*◌, ◌%◌, ◌^◌, ◌<◌, ◌≡◌, ◌&&◌, leb, ltb, flag_of, arith}
use topgun.Isa.{OperandSize, sz_8, sz_16, sz_32}
use topgun.Isa.Codes.{alu_add, alu_adc, carry}
use topgun.Machine.{Machine}
use topgun.Machine.Outcome.{ok, pure, ◌>>=◌}
use topgun.Machine.Flags.{get_bit, get_flag}
use topgun.Exec.AluSpecial.{num_bits}
use topgun.Exec.Alu.{alu_result}
use topgun.Exec.Alu.Spec.{IsPlain}
use topgun.Exec.Alu.Tests.{sum}
use topgun.Exec.Alu.Laws.{with_eflags, add_result-AddFlags}

-- The two sums put together.
joined :
    (size : OperandSize) (lo1 hi1 lo2 hi2 c : ℕ)
    → IsPlain size
    → num_bits size < 32
    → lo1 < 2 ^ num_bits size
    → lo2 < 2 ^ num_bits size
    → hi1 < 2 ^ num_bits size
    → hi2 < 2 ^ num_bits size
    → c ≡ flag_of (ltb (num_bits size) 32 && leb (2 ^ num_bits size) (lo1 + lo2 + 0))
    → sum hi1 hi2 c % 2 ^ num_bits size * 2 ^ num_bits size + sum lo1 lo2 0 % 2 ^ num_bits size
      ≡ (hi1 * 2 ^ num_bits size + lo1 + (hi2 * 2 ^ num_bits size + lo2))
        % (2 ^ num_bits size * 2 ^ num_bits size)
unfolding num_bits
joined sz_8 lo1 hi1 lo2 hi2 c plain narrow p q r s carried = ground (arith, carried)
joined sz_16 lo1 hi1 lo2 hi2 c plain narrow p q r s carried = ground (arith, carried)
joined sz_32 lo1 hi1 lo2 hi2 c plain narrow p q r s carried = absurd (omega (arith, narrow))
joined _ lo1 hi1 lo2 hi2 c plain narrow p q r s carried = absurd plain

-- At 8 and 16 bits, ADD of the low words and then ADC of the high words gives, word by word, the sum
-- of the two-word numbers, reduced to two words.
pub adc-add :
    (size : OperandSize) (lo1 hi1 lo2 hi2 : ℕ) (m : Machine)
    → IsPlain size
    → num_bits size < 32
    → lo1 < 2 ^ num_bits size
    → lo2 < 2 ^ num_bits size
    → hi1 < 2 ^ num_bits size
    → hi2 < 2 ^ num_bits size
    → (lo hi : ℕ) × (m' : Machine) × ((alu_result alu_add size lo1 lo2 >>= λ l.
            alu_result alu_adc size hi1 hi2 >>= λ h. pure {A = ℕ × ℕ} (l, h))
          m
        ≡ ok (lo, hi) m')
      × (hi % 2 ^ num_bits size * 2 ^ num_bits size + lo % 2 ^ num_bits size
          ≡ (hi1 * 2 ^ num_bits size + lo1 + (hi2 * 2 ^ num_bits size + lo2))
            % (2 ^ num_bits size * 2 ^ num_bits size))
unfolding alu_result get_flag ◌>>=◌
adc-add size lo1 hi1 lo2 hi2 m plain narrow p q r s =
    let (e1, runs1, flags1) = add_result-AddFlags size lo1 lo2 0 m plain p q (omega arith) in
    let one_bit : get_bit carry e1 < 2 = omega arith in
    let (e2, runs2, flags2) =
      add_result-AddFlags size hi1 hi2 (get_bit carry e1) (with_eflags e1 m) plain r s one_bit in
    (
      sum lo1 lo2 0,
      sum hi1 hi2 (get_bit carry e1),
      with_eflags e2 m,
      rw (runs1, runs2),
      joined size lo1 hi1 lo2 hi2 (get_bit carry e1) plain narrow p q r s flags1.carry_is,
    )
