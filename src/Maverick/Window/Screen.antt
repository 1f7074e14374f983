-- ===== src/Maverick/Window/Screen.antt =====
-- What the window shows: every entry of the palette, and the cells of the text screen as the
-- processor writes them.
use topgun.Common.{
  ℕ, zero, suc, ◌+◌, ◌*◌, ◌%◌, ◌^◌, ◌≤◌, ◌<◌, ◌≡◌, ◌≢◌, refl, ◌∙◌, List, [], ◌∷◌, true, ◌==◌, leb,
  if◌then◌else◌, u8, update, arith, length, Bool-cases, inl, inr, ==-true, ==-false, leb-true,
}
use native.Mathlib.Nat.{add-zero, zero-add}
use topgun.Isa.{get_or}
use topgun.Machine.{Machine, set_byte}
use topgun.Machine.Outcome.{ok, modify, pure, stop, ◌>>=◌}
use topgun.Machine.Board.{check_access, bus_write_8}
use topgun.Maverick.{Host, maverick_board}
use topgun.Maverick.Window.Palette.{colours}
use topgun.Maverick.Window.Colour.{Rgb}
use topgun.Maverick.Window.{
  text_base, frame_base, CharInfo, cell, draw_cells, draw_text_mode, copy_bytes, dos_present,
  set_vga_palette, set_colours, dos_window_palette,
}

skip : (i k : ℕ) → i + suc k ≡ i + 1 + k
skip i k = omega arith

set_colours-before :
    (cols : List Rgb) (index i : ℕ) (palette : ℕ → Rgb)
    → i < index
    → set_colours cols index palette i ≡ palette i
unfolding set_colours set_vga_palette
set_colours-before [] index i palette h = refl
set_colours-before (col ∷ cols) index i palette h =
    set_colours-before cols (index + 1) i _ (omega arith)
    ∙ rw (==-false {a = index} {b = i} (omega arith))

set_colours-entry :
    (cols : List Rgb) (index i : ℕ) (palette : ℕ → Rgb) (d : Rgb)
    → i < length cols
    → set_colours cols index palette (index + i) ≡ get_or cols i d
unfolding set_colours set_vga_palette
set_colours-entry [] index i palette d h = absurd (omega arith)
set_colours-entry (col ∷ cols) index zero palette d h = rw add-zero (
    set_colours-before cols (index + 1) index _ (omega arith)
    ∙ rw (==-true {a = index} {b = index} refl))
set_colours-entry (col ∷ cols) index (suc i) palette d h =
    rw (skip index i) (set_colours-entry cols (index + 1) i _ d (omega arith))

-- The colours are 256, and the calls of `DosWindowThread` leave entry `i` with colour `i`, whatever
-- the palette was before.
pub dos_window_palette-entry :
    (palette : ℕ → Rgb) (i : ℕ) (d : Rgb)
    → i < 256
    → (length colours ≡ 256) × (dos_window_palette palette i ≡ get_or colours i d)
unfolding dos_window_palette
dos_window_palette-entry palette i d h =
    (refl, rw zero-add at (set_colours-entry colours 0 i palette d h))

draw_cells-cell :
    (mem : ℕ → ℕ) (count i k : ℕ) (d : CharInfo)
    → k < count
    → get_or (draw_cells mem count i) k d ≡ cell mem (i + k)
unfolding draw_cells
draw_cells-cell mem zero i k d h = absurd (omega arith)
draw_cells-cell mem (suc count) i zero d h = rw add-zero refl
draw_cells-cell mem (suc count) i (suc k) d h =
    rw (skip i k) (draw_cells-cell mem count (i + 1) k d (omega arith))

copy_bytes-update :
    (mem : ℕ → ℕ) (count a x v : ℕ)
    → a + count ≤ x
    → copy_bytes (update mem x v) count a ≡ copy_bytes mem count a
unfolding copy_bytes
copy_bytes-update mem zero a x v h = refl
copy_bytes-update mem (suc count) a x v h =
    rw (
      ==-false {a = x} {b = a} (omega arith),
      copy_bytes-update mem count (a + 1) x v (omega arith),
    )

written :
    (host : Host) (m : Machine) (i v : ℕ)
    → i < 2000
    → bus_write_8 (maverick_board host) (text_base + i * 2) v m
      ≡ ok tt (set_byte (text_base + i * 2) v m)
unfolding bus_write_8 maverick_board check_access set_byte modify pure stop ◌>>=◌
written host m i v h =
    let same : (text_base + i * 2) % 2 ^ 20 ≡ text_base + i * 2 = omega arith in
    let inside : leb (text_base + i * 2 + 1) (2 ^ 20) ≡ true = leb-true (omega arith) in
    rw (same, inside)

u8_twice : (v : ℕ) → u8 (u8 v) ≡ u8 v
u8_twice v = omega arith

cell-update :
    (mem : ℕ → ℕ) (i j v : ℕ)
    → cell (update mem (text_base + i * 2) (u8 v)) j
      ≡ (if i == j then record (cell mem j) { ascii_char = u8 v } else cell mem j)
cell-update mem i j v = elim (Bool-cases (i == j)) [
  | inl e ↦
      let here : i ≡ j = ground arith in
      rw (
        e,
        here,
        ==-true {a = text_base + j * 2} {b = text_base + j * 2} refl,
        ==-false {a = text_base + j * 2} {b = text_base + j * 2 + 1} (omega arith),
        u8_twice v,
      )
  | inr e ↦
      let apart : i ≢ j = ground arith in
      rw (
        e,
        ==-false {a = text_base + i * 2} {b = text_base + j * 2} (omega arith),
        ==-false {a = text_base + i * 2} {b = text_base + j * 2 + 1} (omega arith),
      )
]

cells-written :
    (mem : ℕ → ℕ) (i j v : ℕ) (d : CharInfo)
    → j < 2000
    → get_or (draw_text_mode (update mem (text_base + i * 2) (u8 v))) j d
      ≡ (if i == j then record (cell mem j) { ascii_char = u8 v } else cell mem j)
unfolding draw_text_mode
cells-written mem i j v d h = draw_cells-cell _ 2000 0 j d h ∙ (rw zero-add (cell-update mem i j v))

-- A byte that the processor writes to the character of cell `i` of the text screen is the character
-- of that cell at the next `DosPresent`; its attributes, all other cells and the frame stay as they
-- were.
pub text_write-shows :
    (host : Host) (m : Machine) (i j v : ℕ) (d : CharInfo)
    → i < 2000
    → j < 2000
    → (t : Machine) × (bus_write_8 (maverick_board host) (text_base + i * 2) v m ≡ ok tt t)
      × ((dos_present t.mem).0 ≡ (dos_present m.mem).0)
      × (get_or (dos_present t.mem).1 j d
          ≡ (if i == j then record (cell m.mem j) { ascii_char = u8 v } else cell m.mem j))
unfolding set_byte dos_present
text_write-shows host m i j v d h below = (
  set_byte (text_base + i * 2) v m,
  written host m i v h,
  copy_bytes-update m.mem 64000 frame_base _ _ (omega arith),
  cells-written m.mem i j v d below,
)
