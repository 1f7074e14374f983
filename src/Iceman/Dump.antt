-- ===== src/Iceman/Dump.antt =====
-- What the client prints of the answers: the registers (the same text as in `maverick/run386.c`), the
-- lists of breakpoints and the bytes of memory; and how it reads a line.
use topgun.Common.{
  ℕ, ◌+◌, List, [], ◌∷◌, ◌++◌, if◌then◌else◌, ◌==◌, ◌&&◌, ltb, bit_or, sub32, ◌≡◌, refl, all_below,
  true,
}
use topgun.Common.Text.{Text, codes, hex}
use topgun.Maverick.Breakpoints.{Breakpoint}
use topgun.Maverick.Debugger.{IceRegs}
use topgun.Maverick.Dump.{dec, dump_regs_386, dump_segs_from, dump_cr_from}

-- `make_str_lower`.
unfoldable pub lower : ℕ → ℕ
lower c = if ltb 0x40 c && ltb c 0x5b then bit_or c 0x60 else c

unfoldable pub make_str_lower : Text → Text
unfolding lower
make_str_lower [] = []
make_str_lower (c ∷ buf) = lower c ∷ make_str_lower buf

module _ (pointer : ℕ → Text) where
  -- `dump_386` on `ice_regs`.
  unfoldable pub dump_386 : IceRegs → Text
  unfolding dump_regs_386 dump_segs_from dump_cr_from
  dump_386 regs =
      dump_regs_386 pointer regs.eip regs.cpl regs.eflags regs.regs
      ++ (dump_segs_from pointer regs.seg_regs 6 0
          ++ (dump_cr_from pointer regs.cr 8 0 ++ codes "\n"))

  -- `PrintCodeBreakpoints` and `PrintDataBreakpoints`, from entry `i` on.
  unfoldable pub code_breakpoints_from : ℕ → List Breakpoint → Text
  unfolding dec
  code_breakpoints_from i [] = []
  code_breakpoints_from i (bp ∷ bps) =
      codes "#"
      ++ (dec i
          ++ (codes ": "
              ++ ((if bp.enabled == 0 then codes "----------" else codes "0x" ++ pointer bp.address)
                  ++ (codes "\n" ++ code_breakpoints_from (i + 1) bps))))

  unfoldable pub data_breakpoints_from : ℕ → List Breakpoint → Text
  unfolding dec
  data_breakpoints_from i [] = []
  data_breakpoints_from i (bp ∷ bps) =
      codes "#"
      ++ (dec i
          ++ (codes ": "
              ++ ((if bp.enabled == 0
                    then codes "-----------------------"
                    else codes "0x"
                      ++ pointer bp.address
                      ++ codes " - 0x"
                      ++ pointer (sub32 bp.end 1))
                  ++ (codes "\n" ++ data_breakpoints_from (i + 1) bps))))

  -- One paragraph of the command `d`: `%02x ` and `%c` of each of its bytes.
  unfoldable pub hex_bytes : List ℕ → Text
  hex_bytes [] = []
  hex_bytes (byte ∷ bytes) = hex 2 byte ++ (codes " " ++ hex_bytes bytes)

  unfoldable pub paragraph_line : ℕ → List ℕ → Text
  unfolding hex_bytes
  paragraph_line address bytes =
      pointer address ++ (codes ": " ++ (hex_bytes bytes ++ (codes " | " ++ (bytes ++ codes "\n"))))

lower_letters :
    all_below 256 (λ c. if ltb 0x40 c && ltb c 0x5b then lower c == c + 0x20 else lower c == c)
    ≡ true
unfolding lower
lower_letters = refl
