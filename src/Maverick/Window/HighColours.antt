-- ===== src/Maverick/Window/HighColours.antt =====
-- The last 128 colours of the palette of `maverick/wnd.c`.
use topgun.Common.{List, [], ◌∷◌}
use topgun.Maverick.Window.Colour.{Rgb, rgb}

abbrev pub colours_80 : List Rgb
colours_80 =
    rgb 0x38 0x38 0x71
    ∷ rgb 0x45 0x38 0x71
    ∷ rgb 0x55 0x38 0x71
    ∷ rgb 0x61 0x38 0x71
    ∷ rgb 0x71 0x38 0x71
    ∷ rgb 0x71 0x38 0x61
    ∷ rgb 0x71 0x38 0x55
    ∷ rgb 0x71 0x38 0x45
    ∷ rgb 0x71 0x38 0x38
    ∷ rgb 0x71 0x45 0x38
    ∷ rgb 0x71 0x55 0x38
    ∷ rgb 0x71 0x61 0x38
    ∷ rgb 0x71 0x71 0x38
    ∷ rgb 0x61 0x71 0x38
    ∷ rgb 0x55 0x71 0x38
    ∷ rgb 0x45 0x71 0x38
    ∷ []

abbrev pub colours_90 : List Rgb
colours_90 =
    rgb 0x38 0x71 0x38
    ∷ rgb 0x38 0x71 0x45
    ∷ rgb 0x38 0x71 0x55
    ∷ rgb 0x38 0x71 0x61
    ∷ rgb 0x38 0x71 0x71
    ∷ rgb 0x38 0x61 0x71
    ∷ rgb 0x38 0x55 0x71
    ∷ rgb 0x38 0x45 0x71
    ∷ rgb 0x51 0x51 0x71
    ∷ rgb 0x59 0x51 0x71
    ∷ rgb 0x61 0x51 0x71
    ∷ rgb 0x69 0x51 0x71
    ∷ rgb 0x71 0x51 0x71
    ∷ rgb 0x71 0x51 0x69
    ∷ rgb 0x71 0x51 0x61
    ∷ rgb 0x71 0x51 0x59
    ∷ []

abbrev pub colours_a0 : List Rgb
colours_a0 =
    rgb 0x71 0x51 0x51
    ∷ rgb 0x71 0x59 0x51
    ∷ rgb 0x71 0x61 0x51
    ∷ rgb 0x71 0x69 0x51
    ∷ rgb 0x71 0x71 0x51
    ∷ rgb 0x69 0x71 0x51
    ∷ rgb 0x61 0x71 0x51
    ∷ rgb 0x59 0x71 0x51
    ∷ rgb 0x51 0x71 0x51
    ∷ rgb 0x51 0x71 0x59
    ∷ rgb 0x51 0x71 0x61
    ∷ rgb 0x51 0x71 0x69
    ∷ rgb 0x51 0x71 0x71
    ∷ rgb 0x51 0x69 0x71
    ∷ rgb 0x51 0x61 0x71
    ∷ rgb 0x51 0x59 0x71
    ∷ []

abbrev pub colours_b0 : List Rgb
colours_b0 =
    rgb 0x00 0x00 0x41
    ∷ rgb 0x10 0x00 0x41
    ∷ rgb 0x20 0x00 0x41
    ∷ rgb 0x30 0x00 0x41
    ∷ rgb 0x41 0x00 0x41
    ∷ rgb 0x41 0x00 0x30
    ∷ rgb 0x41 0x00 0x20
    ∷ rgb 0x41 0x00 0x10
    ∷ rgb 0x41 0x00 0x00
    ∷ rgb 0x41 0x10 0x00
    ∷ rgb 0x41 0x20 0x00
    ∷ rgb 0x41 0x30 0x00
    ∷ rgb 0x41 0x41 0x00
    ∷ rgb 0x30 0x41 0x00
    ∷ rgb 0x20 0x41 0x00
    ∷ rgb 0x10 0x41 0x00
    ∷ []

abbrev pub colours_c0 : List Rgb
colours_c0 =
    rgb 0x00 0x41 0x00
    ∷ rgb 0x00 0x41 0x10
    ∷ rgb 0x00 0x41 0x20
    ∷ rgb 0x00 0x41 0x30
    ∷ rgb 0x00 0x41 0x41
    ∷ rgb 0x00 0x30 0x41
    ∷ rgb 0x00 0x20 0x41
    ∷ rgb 0x00 0x10 0x41
    ∷ rgb 0x20 0x20 0x41
    ∷ rgb 0x28 0x20 0x41
    ∷ rgb 0x30 0x20 0x41
    ∷ rgb 0x38 0x20 0x41
    ∷ rgb 0x41 0x20 0x41
    ∷ rgb 0x41 0x20 0x38
    ∷ rgb 0x41 0x20 0x30
    ∷ rgb 0x41 0x20 0x28
    ∷ []

abbrev pub colours_d0 : List Rgb
colours_d0 =
    rgb 0x41 0x20 0x20
    ∷ rgb 0x41 0x28 0x20
    ∷ rgb 0x41 0x30 0x20
    ∷ rgb 0x41 0x38 0x20
    ∷ rgb 0x41 0x41 0x20
    ∷ rgb 0x38 0x41 0x20
    ∷ rgb 0x30 0x41 0x20
    ∷ rgb 0x28 0x41 0x20
    ∷ rgb 0x20 0x41 0x20
    ∷ rgb 0x20 0x41 0x28
    ∷ rgb 0x20 0x41 0x30
    ∷ rgb 0x20 0x41 0x38
    ∷ rgb 0x20 0x41 0x41
    ∷ rgb 0x20 0x38 0x41
    ∷ rgb 0x20 0x30 0x41
    ∷ rgb 0x20 0x28 0x41
    ∷ []

abbrev pub colours_e0 : List Rgb
colours_e0 =
    rgb 0x2c 0x2c 0x41
    ∷ rgb 0x30 0x2c 0x41
    ∷ rgb 0x34 0x2c 0x41
    ∷ rgb 0x3c 0x2c 0x41
    ∷ rgb 0x41 0x2c 0x41
    ∷ rgb 0x41 0x2c 0x3c
    ∷ rgb 0x41 0x2c 0x34
    ∷ rgb 0x41 0x2c 0x30
    ∷ rgb 0x41 0x2c 0x2c
    ∷ rgb 0x41 0x30 0x2c
    ∷ rgb 0x41 0x34 0x2c
    ∷ rgb 0x41 0x3c 0x2c
    ∷ rgb 0x41 0x41 0x2c
    ∷ rgb 0x3c 0x41 0x2c
    ∷ rgb 0x34 0x41 0x2c
    ∷ rgb 0x30 0x41 0x2c
    ∷ []

abbrev pub colours_f0 : List Rgb
colours_f0 =
    rgb 0x2c 0x41 0x2c
    ∷ rgb 0x2c 0x41 0x30
    ∷ rgb 0x2c 0x41 0x34
    ∷ rgb 0x2c 0x41 0x3c
    ∷ rgb 0x2c 0x41 0x41
    ∷ rgb 0x2c 0x3c 0x41
    ∷ rgb 0x2c 0x34 0x41
    ∷ rgb 0x2c 0x30 0x41
    ∷ rgb 0x00 0x00 0x00
    ∷ rgb 0x00 0x00 0x00
    ∷ rgb 0x00 0x00 0x00
    ∷ rgb 0x00 0x00 0x00
    ∷ rgb 0x00 0x00 0x00
    ∷ rgb 0x00 0x00 0x00
    ∷ rgb 0x00 0x00 0x00
    ∷ rgb 0x00 0x00 0x00
    ∷ []
