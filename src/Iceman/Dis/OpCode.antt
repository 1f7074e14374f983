-- ===== src/Iceman/Dis/OpCode.antt =====
-- The numbers of the operation types in `common/i386.h`.
use topgun.Common.{ℕ, ◌-◌, ◌^◌}
use topgun.Isa.{
  OpType, alu, push, pop, pop_sr, extended, unary, incdec, pusha, popa, alu_special, string_op,
  repez, repne, segment_override, op_sz_override, addr_sz_override, jump, xchg, mov, mov_to_cr,
  mov_to_sr, lea, ld_fp, lock, retn, retf, call_near, call_far, clr_flag, st_flag, int_op, iret,
  cbw_cwde, multiplexed_ff, io_in, io_out, cwd_cdq, loop, pushf, popf, xlat, shift, jump_far, sahf,
  lahf, enter, leave, cmc, invalid,
}

-- As `%x` prints them: `INVALID` is -1.
unfoldable pub op_code : OpType → ℕ
op_code alu = 0
op_code push = 1
op_code pop = 2
op_code pop_sr = 3
op_code extended = 4
op_code unary = 5
op_code incdec = 6
op_code pusha = 7
op_code popa = 8
op_code alu_special = 9
op_code string_op = 10
op_code repez = 11
op_code repne = 12
op_code segment_override = 13
op_code op_sz_override = 14
op_code addr_sz_override = 15
op_code jump = 16
op_code xchg = 17
op_code mov = 18
op_code mov_to_cr = 19
op_code mov_to_sr = 20
op_code lea = 21
op_code ld_fp = 22
op_code lock = 23
op_code retn = 24
op_code retf = 25
op_code call_near = 26
op_code call_far = 27
op_code clr_flag = 28
op_code st_flag = 29
op_code int_op = 30
op_code iret = 31
op_code cbw_cwde = 32
op_code multiplexed_ff = 33
op_code io_in = 34
op_code io_out = 35
op_code cwd_cdq = 36
op_code loop = 37
op_code pushf = 38
op_code popf = 39
op_code xlat = 40
op_code shift = 41
op_code jump_far = 42
op_code sahf = 43
op_code lahf = 44
op_code enter = 45
op_code leave = 46
op_code cmc = 47
op_code invalid = 2 ^ 32 - 1
