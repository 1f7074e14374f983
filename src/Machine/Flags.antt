-- ===== src/Machine/Flags.antt =====
-- The flag macros of `common/i386.h`: `GET_FLAG`, `SET_FLAG`, `CLEAR_FLAG` and `COND_FLAG`.
pub mod Laws
use topgun.Common.{ℕ, ◌-◌, ◌^◌, bit_and, bit_or, Bool, true, false, if◌then◌else◌, u32}
use topgun.Common.Bits.{bit}
use topgun.Machine.{Machine, set_eflags}
use topgun.Machine.Outcome.{M, gets, modify}

-- The value of flag `flag` in the register value `e`.
abbrev pub get_bit : ℕ → ℕ → ℕ
get_bit flag e = bit e flag

-- `e |= 1 << flag` or `e &= ~(1 << flag)`.
unfoldable pub put_bit : ℕ → Bool → ℕ → ℕ
put_bit flag true e = bit_or e (2 ^ flag)
put_bit flag false e = bit_and e (2 ^ 32 - 1 - 2 ^ flag)

-- `GET_FLAG`.
unfoldable pub get_flag : ℕ → M ℕ
get_flag flag = gets (λ m. get_bit flag m.eflags)

-- `COND_FLAG`, of which `SET_FLAG` and `CLEAR_FLAG` are the two sides.
unfoldable pub cond_flag : ℕ → Bool → M (Unit {0})
cond_flag flag val = modify (λ m. set_eflags (put_bit flag val m.eflags) m)

-- The assignment as a whole: the new value of `eflags`.
abbrev pub write_flag : ℕ → Bool → ℕ → ℕ
write_flag flag val e = u32 (put_bit flag val e)
