-- ===== src/Maverick/Window/Palette.antt =====
-- The colours that `DosWindowThread` in `maverick/wnd.c` gives the entries of the palette, in the
-- order of its calls of `SetVGAPalette`: sixteen to a row. `InitDOSWindowOld` repeats them.
use topgun.Common.{List, ◌++◌}
use topgun.Maverick.Window.Colour.{Rgb}
use topgun.Maverick.Window.LowColours.{
  colours_00, colours_10, colours_20, colours_30, colours_40, colours_50, colours_60, colours_70,
}
use topgun.Maverick.Window.HighColours.{
  colours_80, colours_90, colours_a0, colours_b0, colours_c0, colours_d0, colours_e0, colours_f0,
}

abbrev pub colours : List Rgb
colours =
    colours_00
    ++ (colours_10
        ++ (colours_20
            ++ (colours_30
                ++ (colours_40
                    ++ (colours_50
                        ++ (colours_60
                            ++ (colours_70
                                ++ (colours_80
                                    ++ (colours_90
                                        ++ (colours_a0
                                            ++ (colours_b0
                                                ++ (colours_c0
                                                    ++ (colours_d0
                                                        ++ (colours_e0 ++ (colours_f0)))))))))))))))
