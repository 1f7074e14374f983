-- ===== src/Maverick/Debugger/Memory.antt =====
-- The memory dump of `ICEThread` on the board of `maverick/main.c`.
use topgun.Common.{
  length, ℕ, zero, suc, ◌+◌, ◌*◌, ◌%◌, ◌^◌, ◌<◌, ◌≡◌, refl, true, false, false, ap, ◌∙◌, List, [],
  ◌∷◌, leb, u8, u32, leb-true, arith,
}
use topgun.Isa.{get_or}
use topgun.Machine.{Machine}
use topgun.Machine.Outcome.{ok, ◌>>=◌}
use topgun.Machine.Board.{bus_read_8, check_access}
use topgun.Maverick.{Host, maverick_board}
use topgun.Maverick.Debugger.{
  Ice, CmdPkt, memory_reply, read_bytes, serve_dump_memory, dump_memory, serve,
}

-- The bytes of the block from `addr` on, which wraps at the megabyte.
abbrev pub dumped : (ℕ → ℕ) → ℕ → ℕ → List ℕ
dumped f zero addr = []
dumped f (suc n) addr = u8 (f (u32 addr % 2 ^ 20)) ∷ dumped f n (addr + 1)

pub length-dumped : (f : ℕ → ℕ) (n addr : ℕ) → length (dumped f n addr) ≡ n
length-dumped f zero addr = refl
length-dumped f (suc n) addr = ap suc (length-dumped f n (addr + 1))

pub get_or-dumped :
    (f : ℕ → ℕ) (n addr i : ℕ)
    → i < n
    → get_or (dumped f n addr) i 0 ≡ u8 (f (u32 (addr + i) % 2 ^ 20))
get_or-dumped f zero addr i small = absurd (omega (arith, small))
get_or-dumped f (suc n) addr zero small = ap (λ a. u8 (f (u32 a % 2 ^ 20))) (omega arith)
get_or-dumped f (suc n) addr (suc i) small =
    get_or-dumped f n (addr + 1) i (omega (arith, small))
    ∙ ap (λ a. u8 (f (u32 a % 2 ^ 20))) (omega arith)

in_block : (addr : ℕ) → leb (addr % 2 ^ 20 + 1) (2 ^ 20) ≡ true
in_block addr = leb-true (omega arith)

module _ (h : Host) (m : Machine) where
  read_bytes-dumped :
      (n addr : ℕ) → read_bytes (maverick_board h) n addr m ≡ ok (dumped m.mem n addr) m
  unfolding read_bytes bus_read_8 check_access maverick_board ◌>>=◌
  read_bytes-dumped zero addr = refl
  read_bytes-dumped (suc n) addr = rw (in_block (u32 addr), read_bytes-dumped n (addr + 1)) refl

  -- On the board of `maverick`, a request for fewer than 2 ^ 27 paragraphs is answered with 16 bytes
  -- for each, the memory from the address on, wrapped at 32 bits and then at the megabyte, and
  -- neither the machine nor the breakpoints change.
  pub serve-dump_memory :
      (prefixes : ℕ) (pkt : CmdPkt) (ice : Ice)
      → pkt.arg_1 < 2 ^ 27
      → (bytes : List ℕ) × (serve (maverick_board h) prefixes dump_memory pkt ice m
          ≡ ok (memory_reply bytes, ice) m)
        × (length bytes ≡ pkt.arg_1 * 16)
        × ((i : ℕ)
            → i < pkt.arg_1 * 16
            → get_or bytes i 0 ≡ u8 (m.mem (u32 (pkt.arg_0 + i) % 2 ^ 20)))
  unfolding serve serve_dump_memory ◌>>=◌
  serve-dump_memory prefixes pkt ice small =
      let fits : leb (2 ^ 27) pkt.arg_1 ≡ false = ground (arith, small) in
      (
        dumped m.mem (pkt.arg_1 * 16) pkt.arg_0,
        rw (fits, read_bytes-dumped (pkt.arg_1 * 16) pkt.arg_0) refl,
        length-dumped m.mem (pkt.arg_1 * 16) pkt.arg_0,
        get_or-dumped m.mem (pkt.arg_1 * 16) pkt.arg_0,
      )
