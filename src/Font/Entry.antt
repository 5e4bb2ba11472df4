-- ===== src/Font/Entry.antt =====
-- `fontentry_t` of kernel/drivers/fbcon.c.
use Prim.Native.String.{String}
use system.Common.{List, ℕ}

pub record Glyph : Type 0 where
  pub ch : ℕ
  pub rows : List String

abbrev pub glyph : ℕ → List String → Glyph
glyph c r = record { ch = c; rows = r }
