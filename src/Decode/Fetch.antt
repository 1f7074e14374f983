-- ===== src/Decode/Fetch.antt =====
-- Reads at CS:EIP that move EIP on, as every decoder does: `bus_read_8(pCPU->cs.base +
-- pCPU->eip++)`, and `bus_read_16` and `bus_read_32` with `eip += 2` and `eip += 4`.
use topgun.Common.{ℕ, ◌+◌, u32}
use topgun.Isa.Codes.{cs}
use topgun.Machine.{Machine, set_eip}
use topgun.Machine.Outcome.{M, gets, modify, ◌>>=◌, ◌>>◌}
use topgun.Machine.Board.{Board, bus_read_8, bus_read_16, bus_read_32}

unfoldable pub code_addr : Machine → ℕ
code_addr m = u32 ((m.seg_regs cs).base + m.eip)

unfoldable pub advance : ℕ → M (Unit {0})
advance n = modify (λ m. set_eip (m.eip + n) m)

module _ (b : Board) where
  unfoldable pub fetch_8 : M ℕ
  fetch_8 = do addr ← gets code_addr; v ← bus_read_8 b addr; advance 1; gets (λ _. v)

  unfoldable pub fetch_16 : M ℕ
  fetch_16 = do addr ← gets code_addr; v ← bus_read_16 b addr; advance 2; gets (λ _. v)

  unfoldable pub fetch_32 : M ℕ
  fetch_32 = do addr ← gets code_addr; v ← bus_read_32 b addr; advance 4; gets (λ _. v)
