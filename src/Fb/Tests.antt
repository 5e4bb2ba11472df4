-- ===== src/Fb/Tests.antt =====
-- Tests of the framebuffer, and its theorems at a small frame.
use system.Common.{[], arith, get_or, if◌then◌else◌, leb, ltb, refl, ◌&&◌, ◌+◌, ◌-◌, ◌∷◌, ◌≡◌}
use system.Fb.{
  FbInfo, Memory, fb_fill, fb_putpixel, pixel, rgb565, store_bytes, stride, fb_init, fb_rect,
  rect_column, rect_columns,
}
use system.Fb.Fill.{fb_fill-put_rows, put_rows}
use system.Fb.Pixels.{Fits, base, fb_putpixel_lem}

-- 4 by 3 pixels of 3 bytes, rows of 16 bytes.
abbrev frame : FbInfo
frame = record { addr = 1000; width = 4; height = 3; pitch = 16; bpp = 24 }

abbrev black : Memory
black _ = 0

pixel_bytes : fb_putpixel frame 2 1 0x123456 black 1023 ≡ 0x34
unfolding fb_putpixel store_bytes pixel stride
pixel_bytes = refl

-- Red goes to the low bits of a 16-bit pixel and blue to the high ones.
red_16 : pixel 2 0xFF0000 ≡ 0x1F ∷ 0 ∷ []
unfolding pixel rgb565
red_16 = refl

frame-Fits : Fits frame
unfolding stride
frame-Fits = omega arith

fb_putpixel_example : fb_putpixel frame 2 1 7 black 1022 ≡ (
    if leb (base frame 2 1) 1022 && ltb 1022 (base frame 2 1 + stride 3)
    then get_or (pixel 3 7) (1022 - base frame 2 1) 0
    else 0)
fb_putpixel_example =
    fb_putpixel_lem frame 2 1 7 black 1022 (omega arith) (omega arith) (omega arith)

fb_fill-put_rows_example : fb_fill frame 7 black ≡ put_rows frame 7 3 0 black
fb_fill-put_rows_example = fb_fill-put_rows frame 7 black (omega arith)

abbrev high_colour : FbInfo
high_colour = record { addr = 1000; width = 4; height = 3; pitch = 16; bpp = 16 }

-- Two pixels of a row.
draws_rect : fb_rect frame 1 1 3 2 7 black ≡ fb_putpixel frame 2 1 7 (fb_putpixel frame 1 1 7 black)
unfolding fb_rect rect_columns rect_column
draws_rect = refl

keeps_frame : fb_init 0 black frame ≡ frame
unfolding fb_init
keeps_frame = refl
