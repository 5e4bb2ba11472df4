-- ===== src/Fb.antt =====
-- kernel/drivers/fb.c: the linear framebuffer. Memory is a function from addresses to bytes; `fb` is a
-- record, and a function that draws returns the new memory.
pub mod Pixels
pub mod Colour
pub mod Fill
mod Tests
use system.Common.{
  List, [], bit_and, bit_or, if◌then◌else◌, leb, suc, zero, ℕ, ◌%◌, ◌*◌, ◌+◌, ◌-◌, ◌/◌, ◌==◌, ◌^◌,
  ◌||◌, ◌∷◌,
}

pub record FbInfo : Type 0 where
  pub addr : ℕ
  pub width : ℕ
  pub height : ℕ
  pub pitch : ℕ
  pub bpp : ℕ

abbrev pub Memory : Type 0
Memory = ℕ → ℕ

abbrev pub store : Memory → ℕ → ℕ → Memory
store mem a v p = if p == a then v else mem p

-- The bytes of `xs` at `a` and behind it.
unfoldable pub store_bytes : Memory → ℕ → List ℕ → Memory
store_bytes mem a [] = mem
store_bytes mem a (v ∷ vs) = store_bytes (store mem a v) (a + 1) vs

-- The 16-bit colour of three bytes.
pub rgb565 : (r g b : ℕ) → ℕ
rgb565 r g b =
    bit_or (bit_or (bit_and b 0xF8 * 2 ^ 8) (bit_and g 0xFC * 2 ^ 3)) (r / 2 ^ 3) % 2 ^ 16

-- The bytes that a pixel of colour `c` is stored as, by `bpp / 8`. A wider store is low byte first.
unfoldable pub pixel : (bpp_bytes c : ℕ) → List ℕ
pixel bpp_bytes c =
    let c16 = rgb565 (c / 2 ^ 16 % 256) (c / 2 ^ 8 % 256) (c % 256) in
    if bpp_bytes == 4
    then (c % 256) ∷ (c / 2 ^ 8 % 256) ∷ (c / 2 ^ 16 % 256) ∷ (c / 2 ^ 24 % 256) ∷ []
    else if bpp_bytes == 3
    then (c % 256) ∷ (c / 2 ^ 8 % 256) ∷ (c / 2 ^ 16 % 256) ∷ []
    else if bpp_bytes == 2
    then (c16 % 256) ∷ (c16 / 256) ∷ []
    else (c % 256) ∷ []

-- How far apart the pixels of a row lie: 4, 3 or 2 bytes, and 1 for every other depth.
unfoldable pub stride : ℕ → ℕ
stride bpp_bytes =
    if bpp_bytes == 4 then 4 else if bpp_bytes == 3 then 3 else if bpp_bytes == 2 then 2 else 1

unfoldable pub fb_putpixel : FbInfo → (x y c : ℕ) → Memory → Memory
fb_putpixel fb x y c mem =
    if fb.addr == 0
    then mem
    else if leb fb.width x || leb fb.height y
    then mem
    else store_bytes mem (fb.addr + y * fb.pitch + x * stride (fb.bpp / 8)) (pixel (fb.bpp / 8) c)

-- A row of `fb_fill` from pixel `x` on, `n` pixels.
pub fill_row : (bpp_bytes row c n x : ℕ) → Memory → Memory
fill_row bpp_bytes row c zero x mem = mem
fill_row bpp_bytes row c (suc n) x mem =
    fill_row bpp_bytes row c n (x + 1)
      (store_bytes mem (row + x * stride bpp_bytes) (pixel bpp_bytes c))

pub fill_rows : FbInfo → (c n y : ℕ) → Memory → Memory
fill_rows fb c zero y mem = mem
fill_rows fb c (suc n) y mem =
    fill_rows fb c n (y + 1) (fill_row (fb.bpp / 8) (fb.addr + y * fb.pitch) c fb.width 0 mem)

pub fb_fill : FbInfo → ℕ → Memory → Memory
fb_fill fb color mem = if fb.addr == 0 then mem else fill_rows fb color fb.height 0 mem

pub rect_column : FbInfo → (colour x y n : ℕ) → Memory → Memory
rect_column fb colour x y zero mem = mem
rect_column fb colour x y (suc n) mem =
    rect_column fb colour x (y + 1) n (fb_putpixel fb (x % 2 ^ 32) (y % 2 ^ 32) colour mem)

pub rect_columns : FbInfo → (colour x y n m : ℕ) → Memory → Memory
rect_columns fb colour x y zero m mem = mem
rect_columns fb colour x y (suc n) m mem =
    rect_columns fb colour (x + 1) y n m (rect_column fb colour x y m mem)

-- The bounds `x2 - x1` and `y2 - y1` of the loops are differences of 32-bit words.
pub fb_rect : FbInfo → (x1 y1 x2 y2 colour : ℕ) → Memory → Memory
fb_rect fb x1 y1 x2 y2 colour mem =
    rect_columns fb colour x1 y1 ((x2 + 2 ^ 32 - x1) % 2 ^ 32) ((y2 + 2 ^ 32 - y1) % 2 ^ 32) mem

abbrev half_word : Memory → ℕ → ℕ
half_word mem a = mem a + 256 * mem (a + 1)

-- `fb_init` reads the mode info block at `vbe`. The pitch is kept in 16 bits.
pub fb_init : ℕ → Memory → FbInfo → FbInfo
fb_init vbe mem fb =
    let w = half_word mem (vbe + 0x12) in
    let h = half_word mem (vbe + 0x14) in
    let p = half_word mem (vbe + 0x10) in
    let depth = mem (vbe + 0x19) in
    let phys = half_word mem (vbe + 0x28) + 2 ^ 16 * half_word mem (vbe + 0x2a) in
    let bpp' = if depth == 0 then 32 else depth in
    let pitch' = if p == 0 then w * (bpp' / 8) % 2 ^ 16 else p in
    if vbe == 0
    then fb
    else if w == 0 || h == 0
    then fb
    else record { addr = phys; width = w; height = h; pitch = pitch'; bpp = bpp' }
