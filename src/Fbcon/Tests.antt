-- ===== src/Fbcon/Tests.antt =====
-- Tests of the console, and its theorems at concrete characters.
use system.Common.{arith, refl, ◌+◌, ◌≡◌, [], ◌∷◌}
use system.Fb.{FbInfo, Memory, fb_putpixel, pixel, store_bytes, stride}
use system.Fb.Pixels.{Fits, base, stride_pos}
use system.Fbcon.{dot, draw_row, draw_rows, fbcputchar, find_glyph, font_get, bgc, fbcstr}
use system.Fbcon.Cell.{fbcputchar-other}
use system.Font.{basic8x8}

abbrev frame : FbInfo
frame = record { addr = 4096; width = 20; height = 20; pitch = 80; bpp = 32 }

abbrev black : Memory
black _ = 0

-- The glyph of `!` has a dot at row 3, column 4.
draws_dot : fbcputchar frame 0 0 b'!' 0xffffff black (base frame 4 3) ≡ 0xff
unfolding fbcputchar draw_rows draw_row dot fb_putpixel store_bytes pixel stride font_get find_glyph
    basic8x8
draws_dot = refl

frame-Fits : Fits frame
unfolding stride
frame-Fits = omega arith

fbcputchar-other_example :
    fbcputchar frame 3 2 b'A' 0xffffff black (base frame 12 5 + 0) ≡ black (base frame 12 5 + 0)
fbcputchar-other_example =
    fbcputchar-other frame frame-Fits 12 5 0 (omega arith) (stride_pos 4) 3 2 b'A' 0xffffff black
      (omega arith) (omega arith) refl

-- The characters of a text are nine pixels apart.
draws_text :
    fbcstr frame 0 0 (b'a' ∷ b' ' ∷ []) 7 black
    ≡ fbcputchar frame 9 0 b' ' bgc (fbcputchar frame 0 0 b'a' 7 black)
unfolding fbcstr
draws_text = refl
