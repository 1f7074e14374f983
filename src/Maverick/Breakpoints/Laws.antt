-- ===== src/Maverick/Breakpoints/Laws.antt =====
-- The set of addresses that the breakpoints stop at, before and after an addition or a removal.
use topgun.Common.{
  ℕ, suc, ◌+◌, ◌^◌, ◌<◌, ◌≡◌, ◌≢◌, refl, List, [], ◌∷◌, Bool, false, not, ◌&&◌, ◌||◌, ◌==◌, arith,
}
use topgun.Maverick.Breakpoints.{
  Breakpoint, in_bp, any_hit, remove_breakpoint, add_from, add_breakpoint,
}

-- Some entry is free.
abbrev pub has_room : List Breakpoint → Bool
has_room [] = false
has_room (bp ∷ bps) = (bp.enabled == 0) || has_room bps

-- Every entry that is on covers one address.
abbrev pub OneByte : List Breakpoint → Type 0
OneByte [] = Unit
OneByte (bp ∷ bps) = (bp.enabled ≢ 0 → bp.end ≡ bp.address + 1) × OneByte bps

module _ (addr a : ℕ) where
  add_from-hits :
      (i : ℕ) (bps : List Breakpoint)
      → addr + 1 < 2 ^ 32
      → any_hit (add_from i addr bps).0 a ≡ (any_hit bps a || (has_room bps && a == addr))
  unfolding add_from any_hit in_bp
  add_from-hits i [] fits = ground arith
  add_from-hits i (bp ∷ bps) fits = ground (arith, add_from-hits (suc i) bps fits)

  -- Adding a breakpoint, below the last address, makes the debugger stop there if an entry was free,
  -- and changes no other address; with no free entry no address does.
  pub add_breakpoint-hits :
      (bps : List Breakpoint)
      → addr + 1 < 2 ^ 32
      → any_hit (add_breakpoint addr bps).0 a ≡ (any_hit bps a || (has_room bps && a == addr))
  unfolding add_breakpoint
  add_breakpoint-hits bps fits = add_from-hits 0 bps fits

  -- Removing a breakpoint, where every entry that is on covers one address, takes that address and
  -- no other away from those that the debugger stops at.
  pub remove_breakpoint-hits :
      (bps : List Breakpoint)
      → OneByte bps
      → any_hit (remove_breakpoint addr bps) a ≡ (any_hit bps a && not (a == addr))
  unfolding remove_breakpoint any_hit in_bp
  remove_breakpoint-hits [] one = refl
  remove_breakpoint-hits (bp ∷ bps) one = ground (arith, remove_breakpoint-hits bps one.1, one.0)
