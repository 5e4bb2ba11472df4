-- ===== src/Tty.antt =====
-- kernel/drivers/tty.c: the terminal on the framebuffer console. The cursor is in pixels, in 16-bit
-- words; what a character draws is a list of calls of `fbcputchar`, in order.
pub mod Cursor
mod Tests
use system.Common.{List, [], if◌then◌else◌, leb, ℕ, ◌%◌, ◌*◌, ◌+◌, ◌-◌, ◌==◌, ◌^◌, ◌∷◌}
use system.Fb.{FbInfo, Memory, fb_fill, fb_init}
use system.Fbcon.{bgc, char_h, char_w, fbcputchar}

abbrev pub screen_width : ℕ
screen_width = char_w * 80 * 2

abbrev pub screen_height : ℕ
screen_height = char_h * 25 * 2

pub record Tty : Type 0 where
  pub cx : ℕ
  pub cy : ℕ

-- A call of `fbcputchar`, its coordinates cut to 16 bits.
pub record Draw : Type 0 where
  pub x : ℕ
  pub y : ℕ
  pub ch : ℕ
  pub color : ℕ

abbrev pub draw : (x y ch color : ℕ) → Draw
draw x y ch color = record { x = x % 2 ^ 16; y = y % 2 ^ 16; ch = ch; color = color }

abbrev pub white : ℕ
white = 0xffff_ffff

-- `cx = 0; cy += CHAR_H; if (cy >= SCREEN_HEIGHT) cy = 0;`
pub new_line : Tty → Tty
new_line t =
    let y = (t.cy + char_h) % 2 ^ 16 in record { cx = 0; cy = if leb screen_height y then 0 else y }

-- The wrap at the right edge, after the cursor moved to `x`.
pub wrap_at : Tty → ℕ → Tty
wrap_at t x = if leb screen_width x then new_line t else record t { cx = x }

pub backspace : Tty → Tty
backspace t =
    if leb char_w t.cx
    then record t { cx = t.cx - char_w }
    else if leb char_h t.cy
    then record { cx = screen_width - char_w; cy = t.cy - char_h }
    else t

pub tab : Tty → Tty
tab t = wrap_at t ((t.cx + (4 - t.cx % 5) * char_w) % 2 ^ 16)

-- The cursor after a character.
pub move : Tty → ℕ → Tty
move t c =
    if c == 10
    then new_line t
    else if c == 8
    then backspace t
    else if c == 9
    then tab t
    else if c == 13
    then record t { cx = 0 }
    else wrap_at t ((t.cx + char_w) % 2 ^ 16)

-- What it draws.
pub strokes : Tty → ℕ → List Draw
strokes t c =
    let t' = move t c in
    draw t.cx t.cy 8 bgc
    ∷ draw (t.cx + char_w) t.cy b'_' white
    ∷ (if c == 10
        then draw (t.cx + char_w) t.cy 8 bgc ∷ []
        else if c == 8
        then draw (t.cx + char_w) t.cy 8 bgc
          ∷ draw t'.cx t'.cy b' ' bgc
          ∷ draw t'.cx t'.cy b'_' white
          ∷ []
        else if c == 9
        then draw (t.cx + char_w) t.cy b' ' bgc ∷ draw t'.cx t'.cy b'_' white ∷ []
        else if c == 13
        then []
        else draw t.cx t.cy c (if c == b' ' then bgc else white) ∷ [])

pub paint : FbInfo → List Draw → Memory → Memory
paint fb [] mem = mem
paint fb (d ∷ ds) mem = paint fb ds (fbcputchar fb d.x d.y d.ch d.color mem)

pub tty_putc : FbInfo → ℕ → Tty × Memory → Tty × Memory
tty_putc fb c (t, mem) = (move t c, paint fb (strokes t c) mem)

pub tty_puts : FbInfo → List ℕ → Tty × Memory → Tty × Memory
tty_puts fb [] s = s
tty_puts fb (c ∷ cs) s = tty_puts fb cs (tty_putc fb c s)

abbrev pub home : Tty
home = record { cx = 0; cy = 0 }

pub tty_clear : FbInfo → Memory → Tty × Memory
tty_clear fb mem = (home, fb_fill fb bgc mem)

pub tty_init : ℕ → FbInfo → Memory → FbInfo × Tty × Memory
tty_init vbe fb mem = let fb' = fb_init vbe mem fb in (fb', home, fb_fill fb' bgc mem)
