-- ===== src/Fbcon/Cell.antt =====
-- `fbcputchar` draws inside its cell of 9 by 16 pixels.
use Prim.Native.String.{String}
use system.Common.{
  Bool, List, Option, arith, false, if◌then◌else◌, inl, inr, leb, ltb, none, refl, some, suc, true,
  zero, ℕ, ◌%◌, ◌&&◌, ◌+◌, ◌/◌, ◌<◌, ◌^◌, ◌∙◌, ◌≡◌, ◌≢◌, ◌≤◌, ◌⊎◌,
}
use system.Fb.{FbInfo, Memory, fb_putpixel, stride}
use system.Fb.Pixels.{Fits, base, fb_putpixel-other}
use system.Fbcon.{char_h, char_w, dot, draw_row, draw_rows, fbcputchar, font_get}
use system.Font.Entry.{Glyph}

-- The pixel (x, y) lies in the cell at (px, py).
abbrev pub in_cell : (px py x y : ℕ) → Bool
in_cell px py x y = leb px x && ltb x (px + char_w) && leb py y && ltb y (py + char_h)

module _ (fb : FbInfo) (f : Fits fb) (x y k : ℕ) (hx : x < fb.width)
    (hk : k < stride (fb.bpp / 8)) where
  draw_row-other :
      (rows : List String) (px py color j n i : ℕ) (mem : Memory)
      → (x < px + i) ⊎ (px + i + n ≤ x) ⊎ (py + j ≢ y)
      → draw_row fb rows px py color j n i mem (base fb x y + k) ≡ mem (base fb x y + k)
  unfolding draw_row
  draw_row-other rows px py color j zero i mem out = refl
  draw_row-other rows px py color j (suc n) i mem out =
      draw_row-other rows px py color j n (i + 1) _ further ∙ one (dot rows j i)
    where
      further : (x < px + (i + 1)) ⊎ (px + (i + 1) + n ≤ x) ⊎ (py + j ≢ y)
      further = omega arith

      other : (px + i ≢ x) ⊎ (py + j ≢ y)
      other = elim out [
        | inl lt ↦ inl (omega arith)
        | inr r ↦ (elim r [ inl ge ↦ inl (omega arith) | inr ne ↦ inr ne ])
      ]

      one :
          (b : Bool)
          → (if b then fb_putpixel fb (px + i) (py + j) color mem else mem) (base fb x y + k)
            ≡ mem (base fb x y + k)
      one true = fb_putpixel-other fb (px + i) (py + j) color x y k mem f hx other hk
      one false = refl

  draw_rows-other :
      (rows : List String) (px py color n j : ℕ) (mem : Memory)
      → (x < px) ⊎ (px + char_w ≤ x) ⊎ (y < py + j) ⊎ (py + j + n ≤ y)
      → draw_rows fb rows px py color n j mem (base fb x y + k) ≡ mem (base fb x y + k)
  unfolding draw_rows
  draw_rows-other rows px py color zero j mem out = refl
  draw_rows-other rows px py color (suc n) j mem out =
      draw_rows-other rows px py color n (j + 1) _ (omega arith)
      ∙ draw_row-other rows px py color j char_w 0 mem (omega arith)

  -- In a frame whose rows fit the pitch, a character drawn at 16-bit coordinates changes no pixel of
  -- the frame outside its cell.
  pub fbcputchar-other :
      (px py c color : ℕ) (mem : Memory)
      → px < 2 ^ 16
      → py < 2 ^ 16
      → in_cell px py x y ≡ false
      → fbcputchar fb px py c color mem (base fb x y + k) ≡ mem (base fb x y + k)
  unfolding fbcputchar
  fbcputchar-other px py c color mem hpx hpy out = by_glyph (font_get c)
    where
      e : px % 2 ^ 16 ≡ px
      e = omega arith

      e' : py % 2 ^ 16 ≡ py
      e' = omega arith

      outside : (x < px) ⊎ (px + char_w ≤ x) ⊎ (y < py + 0) ⊎ (py + 0 + 16 ≤ y)
      outside = ground arith

      by_glyph :
          (g : Option Glyph)
          → let m : Memory = elim g [
            | none ↦ mem
            | some f ↦ draw_rows fb f.rows (px % 2 ^ 16) (py % 2 ^ 16) color char_h 0 mem
          ] in
            m (base fb x y + k) ≡ mem (base fb x y + k)
      by_glyph none = refl
      by_glyph (some g) = rw (e, e') (draw_rows-other g.rows px py color 16 0 mem outside)
