-- ===== src/Maverick/Window.antt =====
-- The window of the DOS machine, `maverick/wnd.c`: the text screen and the frame that are read from
-- the emulated memory, the palette, and the messages of Windows.
pub mod Colour
pub mod LowColours
pub mod HighColours
pub mod Palette
pub mod Screen
use topgun.Common.{
  ℕ, zero, suc, ◌+◌, ◌*◌, ◌^◌, List, [], ◌∷◌, ◌++◌, Bool, true, false, if◌then◌else◌, ltb, ◌==◌, u8,
  update,
}
use mathlib.Core.Option.{Option, none, some}
use Colour.{Rgb}
use Palette.{colours}

-- The addresses of the video memory behind `Os2Base`.
abbrev pub text_base : ℕ
text_base = 0xB8000

abbrev pub frame_base : ℕ
frame_base = 0xA0000

-- `CHAR_INFO`. `Attributes` is a `WORD`, and the byte that it is set from a signed `char`: from 0x80
-- on its upper half is all ones.
pub record CharInfo : Type 0 where
  pub ascii_char : ℕ
  pub attributes : ℕ

abbrev pub char_info : ℕ → ℕ → CharInfo
char_info c a = record {
  ascii_char = u8 c;
  attributes = if ltb (u8 a) 0x80 then u8 a else 0xff00 + u8 a;
}

module _ (mem : ℕ → ℕ) where
  -- Cell `i` of `DrawTextMode`.
  abbrev pub cell : ℕ → CharInfo
  cell i = char_info (mem (text_base + i * 2)) (mem (text_base + i * 2 + 1))

  -- `count` cells from cell `i` on.
  unfoldable pub draw_cells : ℕ → ℕ → List CharInfo
  draw_cells zero i = []
  draw_cells (suc count) i = cell i ∷ draw_cells count (i + 1)

  -- The buffer of `DrawTextMode`, 80 by 25 cells.
  unfoldable pub draw_text_mode : List CharInfo
  draw_text_mode = draw_cells 2000 0

  unfoldable pub copy_bytes : ℕ → ℕ → List ℕ
  copy_bytes zero a = []
  copy_bytes (suc count) a = u8 (mem a) ∷ copy_bytes count (a + 1)

  -- `DosPresent`: the pixels of the bitmap, 320 by 200, and the text screen.
  unfoldable pub dos_present : List ℕ × List CharInfo
  dos_present = (copy_bytes 64000 frame_base, draw_text_mode)

-- `SetVGAPalette`: the entry of `bmi` and that of the bitmap.
unfoldable pub set_vga_palette : ℕ → Rgb → (ℕ → Rgb) → ℕ → Rgb
set_vga_palette index col palette = update palette index col

-- The calls in `DosWindowThread`, from entry `index` on.
unfoldable pub set_colours : List Rgb → ℕ → (ℕ → Rgb) → ℕ → Rgb
set_colours [] index palette = palette
set_colours (col ∷ cols) index palette =
    set_colours cols (index + 1) (set_vga_palette index col palette)

unfoldable pub dos_window_palette : (ℕ → Rgb) → ℕ → Rgb
dos_window_palette palette = set_colours colours 0 palette

-- What `DosWndProc` is called for, and what it does: `timer` has `wParam`.
pub data Message : Type 0 where
  wm_destroy wm_quit wm_close wm_paint : Message
  wm_timer : ℕ → Message
  wm_other : ℕ → Message

pub data Action : Type 0 where
  post_quit_message destroy_window invalidate_rect def_window_proc : Action
  present : List ℕ × List CharInfo → Action

-- The actions of `DosWndProc`. The timer 2 only reads the clock.
unfoldable pub dos_wnd_proc : (ℕ → ℕ) → Message → List Action
dos_wnd_proc mem wm_destroy = post_quit_message ∷ []
dos_wnd_proc mem wm_quit = []
dos_wnd_proc mem wm_close = destroy_window ∷ []
dos_wnd_proc mem (wm_timer w) = if w == 1 then invalidate_rect ∷ [] else []
dos_wnd_proc mem wm_paint = present (dos_present mem) ∷ []
dos_wnd_proc mem (wm_other msg) = def_window_proc ∷ []

abbrev pub is_quit : Message → Bool
is_quit wm_quit = true
is_quit _ = false

-- `ProcessWindowEvents` on the messages that `PeekMessage` finds; `last` is what `Msg` holds before.
-- The answer is `Msg.message == WM_QUIT`.
unfoldable pub process_window_events : (ℕ → ℕ) → List Message → Message → List Action × Bool
process_window_events mem [] last = ([], is_quit last)
process_window_events mem (msg ∷ msgs) last =
    let (actions, quit) = process_window_events mem msgs msg in
    (dos_wnd_proc mem msg ++ actions, quit)
