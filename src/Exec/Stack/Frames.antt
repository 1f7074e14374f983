-- ===== src/Exec/Stack/Frames.antt =====
-- CALL and RET, ENTER and LEAVE.
use topgun.Common.{
  ℕ, ◌+◌, ◌-◌, ◌^◌, ◌≤◌, ◌<◌, ◌≡◌, ◌⊎◌, refl, ◌∙◌, ap, fun_ext, Bool-cases, if-true, if-false, inl,
  inr, Bool, true, false, if◌then◌else◌, u16, u32, arith,
}
use mathlib.Core.Path.{ap₂}
use topgun.Isa.{DecodedOp}
use topgun.Isa.Codes.{r_esp, r_ebp}
use topgun.Machine.{Machine, set_reg, set_eip}
use topgun.Machine.Outcome.{ok, modify, ◌>>=◌, ◌>>◌}
use topgun.Machine.Board.{Board, InBlock}
use topgun.Machine.Regs.{wide_stack, set_reg_16}
use topgun.Exec.Operand.{read_source}
use topgun.Exec.Stack.{
  drop_esp, raise_esp, stack_top, i386_pop, do_call_near, i386_ret_near, do_enter, do_leave,
  push_reg, pop_reg,
}
use topgun.Exec.Stack.Laws.{
  slot, slot_value, store, push-runs, after_push, pop-after_push, pop-runs, with_mem, next_slot,
  AgreesOutside, store-outside,
}

-- An operand whose value does not depend on the machine, as an immediate.
abbrev pub IsConst : Board → DecodedOp → ℕ → Type 0
IsConst b src v = (k : Machine) → read_source b src k ≡ ok v k

module _ (b : Board) (m : Machine) (dest amount : DecodedOp) (target bytes : ℕ) where
  -- RET after CALL, with a destination and an amount that do not depend on the machine and a slot
  -- that lies in memory: EIP is the address that CALL pushed (its low half in 16-bit mode), ESP is
  -- where it was plus the amount, and memory has changed in the slot only.
  pub ret-call :
      m.regs r_esp < 2 ^ 32
      → InBlock b (stack_top (drop_esp (slot m) m)) (slot m)
      → IsConst b dest target
      → IsConst b amount bytes
      → (f : ℕ → ℕ) × ((do_call_near b dest >> i386_ret_near b amount) m
          ≡ ok tt (raise_esp (u32 bytes) (set_eip (slot_value m m.eip) (with_mem f m))))
        × AgreesOutside (next_slot b m) (slot m) f m.mem
  unfolding do_call_near i386_ret_near set_eip after_push ◌>>=◌ drop_esp set_reg
  ret-call fits inside to by = (
    store (wide_stack m) (next_slot b m) m.eip m.mem,
    rw (push-runs b m m.eip inside, to (after_push b m m.eip)) returns,
    store-outside (wide_stack m) (next_slot b m) m.eip m.mem,
  )
    where
      returns :
          i386_ret_near b amount (set_eip target (after_push b m m.eip))
          ≡ ok tt (
              raise_esp (u32 bytes) (
                set_eip
                  (slot_value m m.eip)
                  (with_mem (store (wide_stack m) (next_slot b m) m.eip m.mem) m)))
      returns = rw (
        by (set_eip target (after_push b m m.eip)),
        pop-after_push b (set_eip target m) m.eip fits inside,
      )

modify-if :
    (c : Bool) (f g : Machine → Machine) (m : Machine)
    → (if c then modify f else modify g) m ≡ ok tt (if c then f m else g m)
unfolding ◌>>=◌
modify-if true f g m = refl
modify-if false f g m = refl

-- Two stores into slots that do not overlap.
store-swap :
    (wide : Bool) (a a' v w : ℕ) (f : ℕ → ℕ)
    → a' + (if wide then 4 else 2) ≤ a
    → store wide a' w (store wide a v f) ≡ store wide a v (store wide a' w f)
unfolding store
store-swap true a a' v w f below = fun_ext λ j. ground arith
store-swap false a a' v w f below = fun_ext λ j. ground arith

module _ (b : Board) (m : Machine) (locals level : DecodedOp) (bytes : ℕ) where
  abbrev one_down : Machine
  one_down = after_push b m (m.regs r_ebp)

  abbrev two_down : Machine
  two_down = after_push b one_down (one_down.regs r_esp)

  -- The machine after ENTER.
  abbrev in_frame : Machine
  in_frame =
      set_reg r_esp (two_down.regs r_esp + 2 ^ 32 - u32 bytes)
        (set_reg r_ebp (one_down.regs r_esp) two_down)

  enter-runs :
      InBlock b (stack_top (drop_esp (slot m) m)) (slot m)
      → InBlock b (stack_top (drop_esp (slot m) (drop_esp (slot m) m))) (slot m)
      → IsConst b locals bytes
      → do_enter b locals level m ≡ ok tt in_frame
  unfolding do_enter push_reg drop_esp set_reg after_push ◌>>=◌
  enter-runs first second size = rw (
    push-runs b m (m.regs r_ebp) first,
    push-runs b one_down (one_down.regs r_esp) second,
    size (set_reg r_ebp (one_down.regs r_esp) two_down),
  )

  -- What LEAVE pops from.
  abbrev unwound : Machine
  unwound =
      with_mem
        (store (wide_stack m) (next_slot b m) (m.regs r_ebp)
          (store (wide_stack m) (next_slot b one_down) (one_down.regs r_esp) m.mem))
        (drop_esp (slot m) (set_reg r_ebp (one_down.regs r_esp) m))

  reset-esp :
      m.regs r_esp < 2 ^ 32
      → next_slot b one_down + slot m ≤ next_slot b m
      → (wide_stack m ≡ true) ⊎ (u32 bytes + 8 ≤ u16 (m.regs r_esp))
      → (if wide_stack m
          then set_reg r_esp (in_frame.regs r_ebp) in_frame
          else set_reg_16 r_esp (in_frame.regs r_ebp) in_frame)
        ≡ unwound
  unfolding drop_esp set_reg set_reg_16 after_push
  reset-esp fits apart near = elim (Bool-cases (wide_stack m)) [
    | inl wide ↦ if-true _ _ wide ∙ same_regs (ground (arith, wide))
    | inr narrow ↦ if-false _ _ narrow ∙ same_regs (ground (arith, narrow))
  ]
    where
      -- The same machine, by its registers and its memory.
      same_regs :
          {f : ℕ → ℕ}
          → ((j : ℕ) → f j ≡ unwound.regs j)
          → record m { cpu = record (m.cpu) { regs = f }; mem = in_frame.mem } ≡ unwound
      same_regs same =
          ap₂ (λ (f g : ℕ → ℕ). record m { cpu = record (m.cpu) { regs = f }; mem = g })
            (fun_ext same)
            (store-swap (wide_stack m) (next_slot b m) (next_slot b one_down) (m.regs r_ebp)
              (one_down.regs r_esp) m.mem apart)

  popped :
      InBlock b (stack_top (drop_esp (slot m) m)) (slot m)
      → i386_pop b unwound ≡ ok (slot_value m (m.regs r_ebp)) (raise_esp (slot m) unwound)
  unfolding drop_esp set_reg raise_esp
  popped inside =
      pop-runs b (drop_esp (slot m) (set_reg r_ebp (one_down.regs r_esp) m)) (m.regs r_ebp) inside
        (store (wide_stack m) (next_slot b one_down) (one_down.regs r_esp) m.mem)

  framed :
      m.regs r_esp < 2 ^ 32
      → set_reg r_ebp (slot_value m (m.regs r_ebp)) (raise_esp (slot m) unwound)
        ≡ with_mem unwound.mem (set_reg r_ebp (slot_value m (m.regs r_ebp)) m)
  unfolding drop_esp set_reg raise_esp
  framed fits =
      ap (λ (f : ℕ → ℕ). record m { cpu = record (m.cpu) { regs = f }; mem = unwound.mem })
        (fun_ext λ j. ground arith)

  -- LEAVE after ENTER, with two slots below the top that lie in memory and do not overlap, and in
  -- 16-bit mode a frame that does not reach below SP 0: ESP is as it was, EBP is the value that was
  -- pushed (in 16-bit mode its low half alone, with the upper half cleared), and memory has changed
  -- in the two slots only.
  pub leave-enter :
      m.regs r_esp < 2 ^ 32
      → InBlock b (stack_top (drop_esp (slot m) m)) (slot m)
      → InBlock b (stack_top (drop_esp (slot m) (drop_esp (slot m) m))) (slot m)
      → next_slot b one_down + slot m ≤ next_slot b m
      → (wide_stack m ≡ true) ⊎ (u32 bytes + 8 ≤ u16 (m.regs r_esp))
      → IsConst b locals bytes
      → (f : ℕ → ℕ) × ((do_enter b locals level >> do_leave b) m
          ≡ ok tt (with_mem f (set_reg r_ebp (slot_value m (m.regs r_ebp)) m)))
        × ((j : ℕ)
            → (j < next_slot b m) ⊎ (next_slot b m + slot m ≤ j)
            → (j < next_slot b one_down) ⊎ (next_slot b one_down + slot m ≤ j)
            → f j ≡ m.mem j)
  unfolding do_leave pop_reg ◌>>=◌ set_reg store after_push drop_esp
  leave-enter fits first second apart near size = (
    unwound.mem,
    rw (
      enter-runs first second size,
      modify-if (wide_stack m) (λ k. set_reg r_esp (k.regs r_ebp) k)
          (λ k. set_reg_16 r_esp (k.regs r_ebp) k) in_frame,
      reset-esp fits apart near,
      popped first,
      framed fits,
    ),
    λ j away away'.
        store-outside (wide_stack m) (next_slot b m) _ _ j (ground (arith, away))
        ∙ store-outside (wide_stack m) (next_slot b one_down) _ m.mem j (ground (arith, away')),
  )
