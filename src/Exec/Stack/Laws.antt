-- ===== src/Exec/Stack/Laws.antt =====
-- Round trips through the stack.
use topgun.Common.{
  ℕ, ◌+◌, ◌/◌, ◌^◌, ◌≤◌, ◌<◌, ◌≡◌, ◌⊎◌, ◌∙◌, ap, fun_ext, Bool, true, false, if◌then◌else◌, u8, u16,
  u32, update, arith,
}
use topgun.Isa.Codes.{r_esp}
use topgun.Machine.{Machine, set_reg, set_byte}
use topgun.Machine.Outcome.{ok, ◌>>=◌, ◌>>◌}
use topgun.Machine.Board.{
  Board, InBlock, check_access, bus_read_16, bus_read_32, bus_write_16, bus_write_32,
}
use topgun.Machine.Regs.{wide_stack}
use topgun.Exec.Stack.{drop_esp, raise_esp, stack_top, i386_push, i386_pop}

-- `m` with another memory.
abbrev pub with_mem : (ℕ → ℕ) → Machine → Machine
with_mem f m = record m { mem = f }

abbrev with_regs : (ℕ → ℕ) → Machine → Machine
with_regs f m = record m { cpu = record (m.cpu) { regs = f } }

-- The memory after a little-endian store at the host address `a`.
unfoldable pub store_16 : ℕ → ℕ → (ℕ → ℕ) → ℕ → ℕ
store_16 a v f = update (update f a (u8 v)) (a + 1) (u8 (v / 2 ^ 8))

unfoldable pub store_32 : ℕ → ℕ → (ℕ → ℕ) → ℕ → ℕ
unfolding store_16
store_32 a v f =
    update (update (store_16 a v f) (a + 2) (u8 (v / 2 ^ 16))) (a + 3) (u8 (v / 2 ^ 24))

-- Both widths: the bytes of a slot, the store into it and the value that it holds.
abbrev pub slot : Machine → ℕ
slot m = if wide_stack m then 4 else 2

abbrev pub slot_value : Machine → ℕ → ℕ
slot_value m v = if wide_stack m then u32 v else u16 v

unfoldable pub store : Bool → ℕ → ℕ → (ℕ → ℕ) → ℕ → ℕ
unfolding store_32
store true a v f = store_32 a v f
store false a v f = store_16 a v f

module _ (b : Board) (m : Machine) (v : ℕ) where
  pub push-runs :
      InBlock b (stack_top (drop_esp (slot m) m)) (slot m)
      → i386_push b v m
        ≡ ok tt (
            with_mem
              (store (wide_stack m) (b.translate (stack_top (drop_esp (slot m) m))) v m.mem)
              (drop_esp (slot m) m))
  unfolding i386_push bus_write_32 bus_write_16 check_access set_byte store drop_esp set_reg ◌>>=◌
  push-runs inside = ground arith

  pub pop-runs :
      InBlock b (stack_top m) (slot m)
      → (f : ℕ → ℕ)
      → i386_pop b (with_mem (store (wide_stack m) (b.translate (stack_top m)) v f) m)
        ≡ ok
            (slot_value m v)
            (with_mem (store (wide_stack m) (b.translate (stack_top m)) v f) (raise_esp (slot m) m))
  unfolding i386_pop bus_read_32 bus_read_16 check_access raise_esp set_reg store ◌>>=◌
  pop-runs inside f = ground arith

pub raise-drop :
    (n : ℕ) (m : Machine) → n ≤ 4 → m.regs r_esp < 2 ^ 32 → raise_esp n (drop_esp n m) ≡ m
unfolding raise_esp drop_esp set_reg
raise-drop n m small fits = ap (λ (f : ℕ → ℕ). with_regs f m) (fun_ext λ j. ground arith)

pub store-outside :
    (wide : Bool) (a v : ℕ) (f : ℕ → ℕ) (j : ℕ)
    → (j < a) ⊎ (a + (if wide then 4 else 2) ≤ j)
    → store wide a v f j ≡ f j
unfolding store
store-outside true a v f j away = ground arith
store-outside false a v f j away = ground arith

-- The host address of the slot that the next push fills, and a memory that agrees with another
-- outside it.
abbrev pub next_slot : Board → Machine → ℕ
next_slot b m = b.translate (stack_top (drop_esp (slot m) m))

abbrev pub AgreesOutside : ℕ → ℕ → (ℕ → ℕ) → (ℕ → ℕ) → Type 0
AgreesOutside a n f g = (j : ℕ) → (j < a) ⊎ (a + n ≤ j) → f j ≡ g j

module _ (b : Board) (m : Machine) (v : ℕ) where
  unfoldable pub after_push : Machine
  after_push = with_mem (store (wide_stack m) (next_slot b m) v m.mem) (drop_esp (slot m) m)

  pub pop-after_push :
      m.regs r_esp < 2 ^ 32
      → InBlock b (stack_top (drop_esp (slot m) m)) (slot m)
      → i386_pop b after_push
        ≡ ok (slot_value m v) (with_mem (store (wide_stack m) (next_slot b m) v m.mem) m)
  unfolding after_push drop_esp set_reg
  pop-after_push fits inside =
      pop-runs b (drop_esp (slot m) m) v inside m.mem
      ∙ ap (λ k. ok (slot_value m v) (with_mem (store (wide_stack m) (next_slot b m) v m.mem) k))
          (raise-drop (slot m) m (ground arith) fits)

  -- A push and a pop, with a slot below the top that lies in memory, give back the low 16 or 32
  -- bits of the value, by the mode of SS. Nothing has changed but memory, and memory only in the slot.
  pub i386_pop-i386_push :
      m.regs r_esp < 2 ^ 32
      → InBlock b (stack_top (drop_esp (slot m) m)) (slot m)
      → (f : ℕ → ℕ) × ((i386_push b v >> i386_pop b) m ≡ ok (slot_value m v) (with_mem f m))
        × AgreesOutside (next_slot b m) (slot m) f m.mem
  unfolding ◌>>=◌
  i386_pop-i386_push fits inside = (
    _,
    rw (push-runs b m v inside) (unfold after_push in pop-after_push fits inside),
    store-outside (wide_stack m) (next_slot b m) v m.mem,
  )
