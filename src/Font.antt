-- ===== src/Font.antt =====
-- The font of the framebuffer console: kernel/drivers/fonts/basic8x8.h and `fontentry_t` of
-- kernel/drivers/fbcon.c. A row is the text of its nine dots, `#` for a dot that is drawn.
pub mod Entry
mod Low
mod Middle
mod High
use system.Common.{List, ◌++◌}
use system.Font.Entry.{Glyph}
use system.Font.High.{glyphs10, glyphs8, glyphs9}
use system.Font.Low.{glyphs0, glyphs1, glyphs2, glyphs3}
use system.Font.Middle.{glyphs4, glyphs5, glyphs6, glyphs7}

unfoldable pub basic8x8 : List Glyph
unfolding glyphs0 glyphs1 glyphs2 glyphs3 glyphs4 glyphs5 glyphs6 glyphs7 glyphs8 glyphs9 glyphs10
basic8x8 =
    glyphs0
    ++ (glyphs1
        ++ (glyphs2
            ++ (glyphs3
                ++ (glyphs4
                    ++ (glyphs5
                        ++ (glyphs6 ++ (glyphs7 ++ (glyphs8 ++ (glyphs9 ++ (glyphs10))))))))))
