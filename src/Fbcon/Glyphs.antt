-- ===== src/Fbcon/Glyphs.antt =====
-- The table of the font: which characters have a glyph, and that every glyph has the size that
-- `fbcputchar` reads.
use Prim.Native.String.{String}
use system.Common.{
  Bool, List, Option, [], all_below, all_below_sound, arith, false, leb, length, none, not, refl,
  some, true, ℕ, ◌&&◌, ◌<◌, ◌==◌, ◌||◌, ◌∷◌, ◌≡◌,
}
use system.Fbcon.{codes, find_glyph, font_get}
use system.Font.{basic8x8}
use system.Font.Entry.{Glyph}

pub rows_full : List String → Bool
rows_full [] = true
rows_full (r ∷ rs) = (length (codes r) == 9) && rows_full rs

-- 16 rows of nine dots.
pub is_full : Glyph → Bool
unfolding rows_full
is_full g = (length g.rows == 16) && rows_full g.rows

-- The printable ASCII characters and the backspace.
abbrev pub has_glyph : ℕ → Bool
has_glyph c = (c == 8) || (leb 32 c && leb c 126)

agrees : ℕ → Option Glyph → Bool
agrees c none = not (has_glyph c)
agrees c (some g) = has_glyph c && (g.ch == c) && is_full g

-- The table has an entry for these characters alone, and it is theirs and of the full size.
abbrev pub Covers : ℕ → Option Glyph → Type 0
Covers c none = has_glyph c ≡ false
Covers c (some g) = (has_glyph c ≡ true) × (g.ch ≡ c) × (is_full g ≡ true)

agrees-Covers : (c : ℕ) (o : Option Glyph) → agrees c o ≡ true → Covers c o
unfolding agrees
agrees-Covers c none h = ground arith
agrees-Covers c (some g) h = ground arith

table : all_below 256 (λ c. agrees c (font_get c)) ≡ true
unfolding all_below agrees is_full font_get find_glyph basic8x8
table = refl

-- `font_get` finds the glyph of every printable ASCII character and of the backspace, with 16 rows of
-- nine dots, and no glyph for any other byte.
pub font_get-Covers : (c : ℕ) → c < 256 → Covers c (font_get c)
font_get-Covers c h =
    agrees-Covers c (font_get c) (all_below_sound 256 (λ c. agrees c (font_get c)) c table h)
