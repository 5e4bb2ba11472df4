-- ===== src/Fbcon.antt =====
-- kernel/drivers/fbcon.c: characters on the framebuffer.
pub mod Glyphs
pub mod Cell
mod Tests
use Prim.Native.Char.{code}
use Prim.Native.String.{String}
use system.Common.{
  Bool, List, Option, [], get_or, if◌then◌else◌, none, some, suc, zero, ℕ, ◌%◌, ◌+◌, ◌==◌, ◌^◌, ◌∷◌,
}
use system.Fb.{FbInfo, Memory, fb_putpixel}
use system.Font.{basic8x8}
use system.Font.Entry.{Glyph}

abbrev pub char_w : ℕ
char_w = 9

abbrev pub char_h : ℕ
char_h = 16

abbrev pub codes : String → List ℕ
codes String.[] = []
codes (String.◌∷◌ c s) = code c ∷ codes s

-- The first entry of the table for the character.
pub find_glyph : List Glyph → ℕ → Option Glyph
find_glyph [] c = none
find_glyph (g ∷ gs) c = if g.ch == c then some g else find_glyph gs c

pub font_get : ℕ → Option Glyph
font_get c = find_glyph basic8x8 c

abbrev no_row : String
no_row = ""

-- `r[x] == '#'` and `f->rows[y]`.
pub dot : List String → (y x : ℕ) → Bool
dot rows y x = get_or (codes (get_or rows y no_row)) x 0 == b'#'

pub draw_row : FbInfo → List String → (px py color y n x : ℕ) → Memory → Memory
draw_row fb rows px py color y zero x mem = mem
draw_row fb rows px py color y (suc n) x mem =
    draw_row fb rows px py color y n (x + 1)
      (if dot rows y x then fb_putpixel fb (px + x) (py + y) color mem else mem)

pub draw_rows : FbInfo → List String → (px py color n y : ℕ) → Memory → Memory
draw_rows fb rows px py color zero y mem = mem
draw_rows fb rows px py color (suc n) y mem =
    draw_rows fb rows px py color n (y + 1) (draw_row fb rows px py color y char_w 0 mem)

-- The coordinates are 16-bit words.
pub fbcputchar : FbInfo → (px py c color : ℕ) → Memory → Memory
fbcputchar fb px py c color mem = elim (font_get c) [
  | none ↦ mem
  | some f ↦ draw_rows fb f.rows (px % 2 ^ 16) (py % 2 ^ 16) color char_h 0 mem
]

abbrev pub bgc : ℕ
bgc = 0

pub fbcstr : FbInfo → (x y : ℕ) → List ℕ → (color : ℕ) → Memory → Memory
fbcstr fb x y [] color mem = mem
fbcstr fb x y (c ∷ s) color mem =
    fbcstr fb ((x + 9) % 2 ^ 16) y s color
      (fbcputchar fb x y c (if c == b' ' then bgc else color) mem)
