-- ===== src/Machine/Board.antt =====
-- What the processor is plugged into. The two programs that host it (`maverick/main.c` and
-- `locutus/os2mem.c`) differ in how an address is found in host memory; the memory accesses
-- through it, `bus_read_8` to `bus_write_32`, are the same text in both.
use topgun.Common.{ℕ, ◌+◌, ◌*◌, ◌/◌, ◌^◌, ◌≤◌, leb, u8, if◌then◌else◌}
use topgun.Machine.{set_byte}
use topgun.Machine.Outcome.{M, undefined, pure, stop, gets, modify, ◌>>◌}

-- `translate` is `TranslateEmulatedToVirtualAddress` less `Os2Base`, and `extent` the size of the
-- block at `Os2Base`. The others stand for the host: port reads, `HostCall` (which may change
-- the memory), `WinReadTimer() / 18.2` and the state of the modifier keys.
pub record Board : Type 0 where
  pub translate : ℕ → ℕ
  pub extent : ℕ
  pub io_read_32 : ℕ → ℕ
  pub host_call : ℕ → ℕ → ℕ → (ℕ → ℕ) → ℕ × (ℕ → ℕ)
  pub rtc_ticks : ℕ
  pub shift_down : ℕ
  pub ctrl_down : ℕ
  pub alt_down : ℕ

module _ (b : Board) where
  -- The `width` bytes at `addr` lie in the block.
  abbrev pub InBlock : ℕ → ℕ → Type 0
  InBlock addr width = b.translate addr + width ≤ b.extent

  -- An access outside the block is undefined.
  unfoldable pub check_access : ℕ → ℕ → M (Unit {0})
  unfolding pure stop
  check_access addr width =
      if leb (b.translate addr + width) b.extent then pure tt else stop undefined

  unfoldable pub bus_read_8 : ℕ → M ℕ
  bus_read_8 addr = do check_access addr 1; gets (λ m. u8 (m.mem (b.translate addr)))

  -- The host is little-endian.
  unfoldable pub bus_read_16 : ℕ → M ℕ
  bus_read_16 addr = do
    check_access addr 2
    gets (λ m. u8 (m.mem (b.translate addr)) + 2 ^ 8 * u8 (m.mem (b.translate addr + 1)))

  unfoldable pub bus_read_32 : ℕ → M ℕ
  bus_read_32 addr = do
    check_access addr 4
    gets (λ m.
        u8 (m.mem (b.translate addr))
        + 2 ^ 8 * u8 (m.mem (b.translate addr + 1))
        + 2 ^ 16 * u8 (m.mem (b.translate addr + 2))
        + 2 ^ 24 * u8 (m.mem (b.translate addr + 3)))

  unfoldable pub bus_write_8 : ℕ → ℕ → M (Unit {0})
  bus_write_8 addr value = do check_access addr 1; modify (set_byte (b.translate addr) value)

  unfoldable pub bus_write_16 : ℕ → ℕ → M (Unit {0})
  bus_write_16 addr value = do
    check_access addr 2
    modify (set_byte (b.translate addr) value)
    modify (set_byte (b.translate addr + 1) (value / 2 ^ 8))

  unfoldable pub bus_write_32 : ℕ → ℕ → M (Unit {0})
  bus_write_32 addr value = do
    check_access addr 4
    modify (set_byte (b.translate addr) value)
    modify (set_byte (b.translate addr + 1) (value / 2 ^ 8))
    modify (set_byte (b.translate addr + 2) (value / 2 ^ 16))
    modify (set_byte (b.translate addr + 3) (value / 2 ^ 24))
