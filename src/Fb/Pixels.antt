-- ===== src/Fb/Pixels.antt =====
-- `fb_putpixel`: which bytes it writes, that they lie in the frame, and that pixels do not overlap.
use native.Mathlib.Decide.{dec_lt, ℕ_discrete}
use system.Common.{
  List, [], arith, false, get_or, if◌then◌else◌, inl, inr, leb, length, ltb, suc, true, ℕ, ◌&&◌,
  ◌*◌, ◌+◌, ◌-◌, ◌/◌, ◌<◌, ◌==◌, ◌||◌, ◌∷◌, ◌≡◌, ◌≢◌, ◌≤◌, ◌⊎◌, ap,
}
use system.Fb.{FbInfo, Memory, fb_putpixel, pixel, store, store_bytes, stride}

pub length-pixel : (b c : ℕ) → length (pixel b c) ≡ stride b
unfolding pixel stride
length-pixel b c = ground arith

pub stride_pos : (b : ℕ) → 0 < stride b
unfolding stride
stride_pos b = ground arith

-- A store of several bytes, read back.
pub store_bytes_lem :
    (vs : List ℕ) (mem : Memory) (a p : ℕ)
    → store_bytes mem a vs p
      ≡ (if leb a p && ltb p (a + length vs) then get_or vs (p - a) 0 else mem p)
unfolding store_bytes
store_bytes_lem [] mem a p = ground arith
store_bytes_lem (v ∷ vs) mem a p =
    rw (store_bytes_lem vs (store mem a v) (a + 1) p) (cases (dec_lt a p))
  where
    cases :
        Dec (a < p)
        → (if leb (a + 1) p && ltb p (a + 1 + length vs)
            then get_or vs (p - (a + 1)) 0
            else store mem a v p)
          ≡ (if leb a p && ltb p (a + suc (length vs)) then get_or (v ∷ vs) (p - a) 0 else mem p)
    cases (yes lt) = let e : p - a ≡ suc (p - (a + 1)) = omega arith in rw e (ground arith)
    cases (no ge) = elim (ℕ_discrete p a) [
      | yes e ↦ let z : p - a ≡ 0 = omega arith in rw z (ground arith)
      | no ne ↦ ground arith
    ]

-- The address of a pixel.
abbrev pub base : FbInfo → ℕ → ℕ → ℕ
base fb x y = fb.addr + y * fb.pitch + x * stride (fb.bpp / 8)

-- In the frame a pixel's bytes become the colour, and every other byte of memory stays.
pub fb_putpixel_lem :
    (fb : FbInfo) (x y c : ℕ) (mem : Memory) (p : ℕ)
    → fb.addr ≢ 0
    → x < fb.width
    → y < fb.height
    → fb_putpixel fb x y c mem p ≡ (
        if leb (base fb x y) p && ltb p (base fb x y + stride (fb.bpp / 8))
        then get_or (pixel (fb.bpp / 8) c) (p - base fb x y) 0
        else mem p)
unfolding fb_putpixel
fb_putpixel_lem fb x y c mem p ne hx hy =
    let a : (fb.addr == 0) ≡ false = ground arith in
    let b : (leb fb.width x || leb fb.height y) ≡ false = ground arith in
    rw (
      a,
      b,
      store_bytes_lem (pixel (fb.bpp / 8) c) mem (base fb x y) p,
      length-pixel (fb.bpp / 8) c,
    )

-- Outside the frame, or with no framebuffer, nothing is drawn.
pub fb_putpixel-clipped :
    (fb : FbInfo) (x y c : ℕ) (mem : Memory)
    → (fb.addr ≡ 0) ⊎ (fb.width ≤ x) ⊎ (fb.height ≤ y)
    → fb_putpixel fb x y c mem ≡ mem
unfolding fb_putpixel
fb_putpixel-clipped fb x y c mem h = ground arith

-- A row holds its pixels.
abbrev pub Fits : FbInfo → Type 0
Fits fb = fb.width * stride (fb.bpp / 8) ≤ fb.pitch

row_end : (x w st pitch : ℕ) → x < w → w * st ≤ pitch → x * st + st ≤ pitch
row_end x w st pitch h f = grind arith

next_row : (y y' pitch : ℕ) → y < y' → y * pitch + pitch ≤ y' * pitch
next_row y y' pitch h = grind arith

next_pixel : (x x' st : ℕ) → x < x' → x * st + st ≤ x' * st
next_pixel x x' st h = grind arith

-- In a frame whose rows fit the pitch, no byte outside the frame is written.
pub fb_putpixel-inside :
    (fb : FbInfo) (x y c : ℕ) (mem : Memory) (p : ℕ)
    → Fits fb
    → (p < fb.addr) ⊎ (fb.addr + fb.height * fb.pitch ≤ p)
    → fb_putpixel fb x y c mem p ≡ mem p
fb_putpixel-inside fb x y c mem p f out = elim (dec_lt x fb.width) [
  | no hx ↦ rw (fb_putpixel-clipped fb x y c mem (inr (inl (omega arith))))
  | yes hx ↦ elim (dec_lt y fb.height) [
    | no hy ↦ rw (fb_putpixel-clipped fb x y c mem (inr (inr (omega arith))))
    | yes hy ↦ elim (ℕ_discrete fb.addr 0) [
      | yes z ↦ rw (fb_putpixel-clipped fb x y c mem (inl z))
      | no nz ↦ ground (
        arith,
        fb_putpixel_lem fb x y c mem p nz hx hy,
        row_end x fb.width (stride (fb.bpp / 8)) fb.pitch hx f,
        next_row y fb.height fb.pitch hy,
      )
    ]
  ]
]

-- The bytes of the pixel at (x, y) are those that colour `c` is stored as.
abbrev pub Stores : FbInfo → Memory → (x y c : ℕ) → Type 0
Stores fb mem x y c =
    (k : ℕ) → k < stride (fb.bpp / 8) → mem (base fb x y + k) ≡ get_or (pixel (fb.bpp / 8) c) k 0

-- A drawn pixel holds its colour.
pub fb_putpixel-Stores :
    (fb : FbInfo) (x y c : ℕ) (mem : Memory)
    → fb.addr ≢ 0
    → x < fb.width
    → y < fb.height
    → Stores fb (fb_putpixel fb x y c mem) x y c
fb_putpixel-Stores fb x y c mem ne hx hy k hk =
    let e : base fb x y + k - base fb x y ≡ k = omega arith in
    let b : (leb (base fb x y) (base fb x y + k)
          && ltb (base fb x y + k) (base fb x y + stride (fb.bpp / 8)))
        ≡ true =
      ground arith in
    rw (fb_putpixel_lem fb x y c mem (base fb x y + k) ne hx hy, b, e)

-- Two pixels of the frame share no byte.
apart :
    (fb : FbInfo) (x y x' y' k : ℕ)
    → Fits fb
    → x < fb.width
    → x' < fb.width
    → (x ≢ x') ⊎ (y ≢ y')
    → k < stride (fb.bpp / 8)
    → (base fb x' y' + k < base fb x y) ⊎ (base fb x y + stride (fb.bpp / 8) ≤ base fb x' y' + k)
apart fb x y x' y' k f hx hx' ne hk = elim (ℕ_discrete y y') [
  | yes e ↦ same_row e (elim ne [ inl d ↦ d | inr d ↦ absurd (d e) ])
  | no d ↦ elim (dec_lt y y') [
    | yes lt ↦ inr (
        omega (
          arith,
          row_end x fb.width (stride (fb.bpp / 8)) fb.pitch hx f,
          next_row y y' fb.pitch lt,
        ))
    | no ge ↦ inl (
        omega (
          arith,
          row_end x' fb.width (stride (fb.bpp / 8)) fb.pitch hx' f,
          next_row y' y fb.pitch (omega arith),
        ))
  ]
]
  where
    same_row :
        y ≡ y'
        → x ≢ x'
        → (base fb x' y' + k < base fb x y)
          ⊎ (base fb x y + stride (fb.bpp / 8) ≤ base fb x' y' + k)
    same_row e d =
        let r : y * fb.pitch ≡ y' * fb.pitch = ap (λ (t : ℕ). t * fb.pitch) e in
        elim (dec_lt x x') [
          | yes lt ↦ inr (omega (arith, next_pixel x x' (stride (fb.bpp / 8)) lt))
          | no ge ↦ inl (omega (arith, next_pixel x' x (stride (fb.bpp / 8)) (omega arith)))
        ]

-- In a frame whose rows fit the pitch, drawing one pixel leaves the bytes of every other pixel as
-- they were.
pub fb_putpixel-other :
    (fb : FbInfo) (x y c x' y' k : ℕ) (mem : Memory)
    → Fits fb
    → x' < fb.width
    → (x ≢ x') ⊎ (y ≢ y')
    → k < stride (fb.bpp / 8)
    → fb_putpixel fb x y c mem (base fb x' y' + k) ≡ mem (base fb x' y' + k)
fb_putpixel-other fb x y c x' y' k mem f hx' ne hk = elim (dec_lt x fb.width) [
  | no hx ↦ rw (fb_putpixel-clipped fb x y c mem (inr (inl (omega arith))))
  | yes hx ↦ elim (dec_lt y fb.height) [
    | no hy ↦ rw (fb_putpixel-clipped fb x y c mem (inr (inr (omega arith))))
    | yes hy ↦ elim (ℕ_discrete fb.addr 0) [
      | yes z ↦ rw (fb_putpixel-clipped fb x y c mem (inl z))
      | no nz ↦ ground (
        arith,
        fb_putpixel_lem fb x y c mem (base fb x' y' + k) nz hx hy,
        apart fb x y x' y' k f hx hx' ne hk,
      )
    ]
  ]
]
