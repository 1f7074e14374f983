-- ===== src/Maverick/Window/Colour.antt =====
-- An entry of the palette of `maverick/wnd.c`.
use topgun.Common.{ℕ}

-- `RGBQUAD`, less the reserved byte, which is not set.
pub record Rgb : Type 0 where
  pub red : ℕ
  pub green : ℕ
  pub blue : ℕ

abbrev pub rgb : ℕ → ℕ → ℕ → Rgb
rgb r g b = record { red = r; green = g; blue = b }
