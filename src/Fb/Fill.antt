-- ===== src/Fb/Fill.antt =====
-- `fb_fill` against drawing every pixel by `fb_putpixel`.
use system.Common.{
  arith, false, leb, refl, suc, zero, ℕ, ◌*◌, ◌+◌, ◌/◌, ◌<◌, ◌==◌, ◌||◌, ◌≡◌, ◌≢◌, ◌≤◌,
}
use system.Fb.{
  FbInfo, Memory, fb_fill, fb_putpixel, fill_row, fill_rows, pixel, store_bytes, stride,
}

-- The pixels of a row, and of all rows, drawn one by one.
pub put_row : FbInfo → (c y n x : ℕ) → Memory → Memory
put_row fb c y zero x mem = mem
put_row fb c y (suc n) x mem = put_row fb c y n (x + 1) (fb_putpixel fb x y c mem)

pub put_rows : FbInfo → (c n y : ℕ) → Memory → Memory
put_rows fb c zero y mem = mem
put_rows fb c (suc n) y mem = put_rows fb c n (y + 1) (put_row fb c y fb.width 0 mem)

fill_row-put_row :
    (fb : FbInfo) (c y n x : ℕ) (mem : Memory)
    → fb.addr ≢ 0
    → y < fb.height
    → x + n ≤ fb.width
    → fill_row (fb.bpp / 8) (fb.addr + y * fb.pitch) c n x mem ≡ put_row fb c y n x mem
unfolding fill_row put_row fb_putpixel
fill_row-put_row fb c y zero x mem ne hy h = refl
fill_row-put_row fb c y (suc n) x mem ne hy h =
    let a : (fb.addr == 0) ≡ false = ground arith in
    let b : (leb fb.width x || leb fb.height y) ≡ false = ground arith in
    rw (a, b)
      (fill_row-put_row fb c y n (x + 1)
        (store_bytes mem (fb.addr + y * fb.pitch + x * stride (fb.bpp / 8)) (pixel (fb.bpp / 8) c))
        ne hy (omega arith))

fill_rows-put_rows :
    (fb : FbInfo) (c n y : ℕ) (mem : Memory)
    → fb.addr ≢ 0
    → y + n ≤ fb.height
    → fill_rows fb c n y mem ≡ put_rows fb c n y mem
unfolding fill_rows put_rows
fill_rows-put_rows fb c zero y mem ne h = refl
fill_rows-put_rows fb c (suc n) y mem ne h =
    rw (fill_row-put_row fb c y fb.width 0 mem ne (omega arith) (omega arith))
      (fill_rows-put_rows fb c n (y + 1) (put_row fb c y fb.width 0 mem) ne (omega arith))

-- Filling the screen is drawing every pixel of the frame, for every depth.
pub fb_fill-put_rows :
    (fb : FbInfo) (c : ℕ) (mem : Memory)
    → fb.addr ≢ 0
    → fb_fill fb c mem ≡ put_rows fb c fb.height 0 mem
unfolding fb_fill
fb_fill-put_rows fb c mem ne =
    let a : (fb.addr == 0) ≡ false = ground arith in
    rw a (fill_rows-put_rows fb c fb.height 0 mem ne (omega arith))
