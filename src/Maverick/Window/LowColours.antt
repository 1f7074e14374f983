-- ===== src/Maverick/Window/LowColours.antt =====
-- The first 128 colours of the palette of `maverick/wnd.c`.
use topgun.Common.{List, [], ◌∷◌}
use topgun.Maverick.Window.Colour.{Rgb, rgb}

abbrev pub colours_00 : List Rgb
colours_00 =
    rgb 0x00 0x00 0x00
    ∷ rgb 0x00 0x00 0xaa
    ∷ rgb 0x00 0xaa 0x00
    ∷ rgb 0x00 0xaa 0xaa
    ∷ rgb 0xaa 0x00 0x00
    ∷ rgb 0xaa 0x00 0xaa
    ∷ rgb 0xaa 0x55 0x00
    ∷ rgb 0xaa 0xaa 0xaa
    ∷ rgb 0x55 0x55 0x55
    ∷ rgb 0x55 0x55 0xff
    ∷ rgb 0x55 0xff 0x55
    ∷ rgb 0x55 0xff 0xff
    ∷ rgb 0xff 0x55 0x55
    ∷ rgb 0xff 0x55 0xff
    ∷ rgb 0xff 0xff 0x55
    ∷ rgb 0xff 0xff 0xff
    ∷ []

abbrev pub colours_10 : List Rgb
colours_10 =
    rgb 0x00 0x00 0x00
    ∷ rgb 0x14 0x14 0x14
    ∷ rgb 0x20 0x20 0x20
    ∷ rgb 0x2c 0x2c 0x2c
    ∷ rgb 0x38 0x38 0x38
    ∷ rgb 0x45 0x45 0x45
    ∷ rgb 0x51 0x51 0x51
    ∷ rgb 0x61 0x61 0x61
    ∷ rgb 0x71 0x71 0x71
    ∷ rgb 0x82 0x82 0x82
    ∷ rgb 0x92 0x92 0x92
    ∷ rgb 0xa2 0xa2 0xa2
    ∷ rgb 0xb6 0xb6 0xb6
    ∷ rgb 0xcb 0xcb 0xcb
    ∷ rgb 0xe3 0xe3 0xe3
    ∷ rgb 0xff 0xff 0xff
    ∷ []

abbrev pub colours_20 : List Rgb
colours_20 =
    rgb 0x00 0x00 0xff
    ∷ rgb 0x41 0x00 0xff
    ∷ rgb 0x7d 0x00 0xff
    ∷ rgb 0xbe 0x00 0xff
    ∷ rgb 0xff 0x00 0xff
    ∷ rgb 0xff 0x00 0xbe
    ∷ rgb 0xff 0x00 0x7d
    ∷ rgb 0xff 0x00 0x41
    ∷ rgb 0xff 0x00 0x00
    ∷ rgb 0xff 0x41 0x00
    ∷ rgb 0xff 0x7d 0x00
    ∷ rgb 0xff 0xbe 0x00
    ∷ rgb 0xff 0xff 0x00
    ∷ rgb 0xbe 0xff 0x00
    ∷ rgb 0x7d 0xff 0x00
    ∷ rgb 0x41 0xff 0x00
    ∷ []

abbrev pub colours_30 : List Rgb
colours_30 =
    rgb 0x00 0xff 0x00
    ∷ rgb 0x00 0xff 0x41
    ∷ rgb 0x00 0xff 0x7d
    ∷ rgb 0x00 0xff 0xbe
    ∷ rgb 0x00 0xff 0xff
    ∷ rgb 0x00 0xbe 0xff
    ∷ rgb 0x00 0x7d 0xff
    ∷ rgb 0x00 0x41 0xff
    ∷ rgb 0x7d 0x7d 0xff
    ∷ rgb 0x9e 0x7d 0xff
    ∷ rgb 0xbe 0x7d 0xff
    ∷ rgb 0xdf 0x7d 0xff
    ∷ rgb 0xff 0x7d 0xff
    ∷ rgb 0xff 0x7d 0xdf
    ∷ rgb 0xff 0x7d 0xbe
    ∷ rgb 0xff 0x7d 0x9e
    ∷ []

abbrev pub colours_40 : List Rgb
colours_40 =
    rgb 0xff 0x7d 0x7d
    ∷ rgb 0xff 0x9e 0x7d
    ∷ rgb 0xff 0xbe 0x7d
    ∷ rgb 0xff 0xdf 0x7d
    ∷ rgb 0xff 0xff 0x7d
    ∷ rgb 0xdf 0xff 0x7d
    ∷ rgb 0xbe 0xff 0x7d
    ∷ rgb 0x9e 0xff 0x7d
    ∷ rgb 0x7d 0xff 0x7d
    ∷ rgb 0x7d 0xff 0x9e
    ∷ rgb 0x7d 0xff 0xbe
    ∷ rgb 0x7d 0xff 0xdf
    ∷ rgb 0x7d 0xff 0xff
    ∷ rgb 0x7d 0xdf 0xff
    ∷ rgb 0x7d 0xbe 0xff
    ∷ rgb 0x7d 0x9e 0xff
    ∷ []

abbrev pub colours_50 : List Rgb
colours_50 =
    rgb 0xb6 0xb6 0xff
    ∷ rgb 0xc7 0xb6 0xff
    ∷ rgb 0xdb 0xb6 0xff
    ∷ rgb 0xeb 0xb6 0xff
    ∷ rgb 0xff 0xb6 0xff
    ∷ rgb 0xff 0xb6 0xeb
    ∷ rgb 0xff 0xb6 0xdb
    ∷ rgb 0xff 0xb6 0xc7
    ∷ rgb 0xff 0xb6 0xb6
    ∷ rgb 0xff 0xc7 0xb6
    ∷ rgb 0xff 0xdb 0xb6
    ∷ rgb 0xff 0xeb 0xb6
    ∷ rgb 0xff 0xff 0xb6
    ∷ rgb 0xeb 0xff 0xb6
    ∷ rgb 0xdb 0xff 0xb6
    ∷ rgb 0xc7 0xff 0xb6
    ∷ []

abbrev pub colours_60 : List Rgb
colours_60 =
    rgb 0xb6 0xff 0xb6
    ∷ rgb 0xb6 0xff 0xc7
    ∷ rgb 0xb6 0xff 0xdb
    ∷ rgb 0xb6 0xff 0xeb
    ∷ rgb 0xb6 0xff 0xff
    ∷ rgb 0xb6 0xeb 0xff
    ∷ rgb 0xb6 0xdb 0xff
    ∷ rgb 0xb6 0xc7 0xff
    ∷ rgb 0x00 0x00 0x71
    ∷ rgb 0x1c 0x00 0x71
    ∷ rgb 0x38 0x00 0x71
    ∷ rgb 0x55 0x00 0x71
    ∷ rgb 0x71 0x00 0x71
    ∷ rgb 0x71 0x00 0x55
    ∷ rgb 0x71 0x00 0x38
    ∷ rgb 0x71 0x00 0x1c
    ∷ []

abbrev pub colours_70 : List Rgb
colours_70 =
    rgb 0x71 0x00 0x00
    ∷ rgb 0x71 0x1c 0x00
    ∷ rgb 0x71 0x38 0x00
    ∷ rgb 0x71 0x55 0x00
    ∷ rgb 0x71 0x71 0x00
    ∷ rgb 0x55 0x71 0x00
    ∷ rgb 0x38 0x71 0x00
    ∷ rgb 0x1c 0x71 0x00
    ∷ rgb 0x00 0x71 0x00
    ∷ rgb 0x00 0x71 0x1c
    ∷ rgb 0x00 0x71 0x38
    ∷ rgb 0x00 0x71 0x55
    ∷ rgb 0x00 0x71 0x71
    ∷ rgb 0x00 0x55 0x71
    ∷ rgb 0x00 0x38 0x71
    ∷ rgb 0x00 0x1c 0x71
    ∷ []
