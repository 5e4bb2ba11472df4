-- ===== src/Fb/Colour.antt =====
-- The colour of a pixel as a number, for each depth.
use system.Common.{
  List, [], ◌∷◌, ℕ, ◌≡◌, ◌+◌, ◌*◌, ◌/◌, ◌%◌, ◌<◌, ◌^◌, ◌==◌, all_below, all_below_sound, arith,
  bit_and, bit_or-apart, get_or, if◌then◌else◌, length, refl, suc, true, zero, ◌∙◌,
}
use system.Fb.{FbInfo, Memory, pixel, rgb565, stride}
use system.Fb.Pixels.{Stores, base, length-pixel}

-- The number that `n` bytes at `a` make up, low byte first.
abbrev pub number_at : Memory → (a n : ℕ) → ℕ
number_at mem a zero = 0
number_at mem a (suc n) = mem a + 256 * number_at mem (a + 1) n

abbrev number : List ℕ → ℕ
number [] = 0
number (v ∷ vs) = v + 256 * number vs

-- What stands for the colour 0xAARRGGBB in `bpp_bytes` bytes.
abbrev pub colour_number : (bpp_bytes c : ℕ) → ℕ
colour_number bpp_bytes c =
    if bpp_bytes == 4
    then c
    else if bpp_bytes == 3
    then c % 2 ^ 24
    else if bpp_bytes == 2
    then c % 2 ^ 8 / 2 ^ 3 * 2 ^ 11 + c / 2 ^ 8 % 2 ^ 8 / 2 ^ 2 * 2 ^ 5 + c / 2 ^ 16 % 2 ^ 8 / 2 ^ 3
    else c % 2 ^ 8

-- The bytes of the pixel at (x, y) make up the number that stands for colour `c`.
abbrev pub Shows : FbInfo → Memory → (x y c : ℕ) → Type 0
Shows fb mem x y c =
    number_at mem (base fb x y) (stride (fb.bpp / 8)) ≡ colour_number (fb.bpp / 8) c

five_table : all_below 256 (λ x. bit_and x 0xF8 == x / 8 * 8) ≡ true
unfolding all_below
five_table = refl

six_table : all_below 256 (λ x. bit_and x 0xFC == x / 4 * 4) ≡ true
unfolding all_below
six_table = refl

high_five : (x : ℕ) → x < 256 → bit_and x 0xF8 ≡ x / 8 * 8
high_five x h =
    ground (arith, all_below_sound 256 (λ x. bit_and x 0xF8 == x / 8 * 8) x five_table h)

high_six : (x : ℕ) → x < 256 → bit_and x 0xFC ≡ x / 4 * 4
high_six x h = ground (arith, all_below_sound 256 (λ x. bit_and x 0xFC == x / 4 * 4) x six_table h)

rgb565_lem :
    (r g b : ℕ)
    → r < 256
    → g < 256
    → b < 256
    → rgb565 r g b ≡ b / 8 * 2 ^ 11 + g / 4 * 2 ^ 5 + r / 8
unfolding rgb565
rgb565_lem r g b hr hg hb =
    let e1 : b / 8 * 8 * 2 ^ 8 ≡ b / 8 * 2 ^ 11 = omega arith in
    let e2 : g / 4 * 4 * 2 ^ 3 ≡ g / 4 * 2 ^ 5 = omega arith in
    let e3 : b / 8 * 2 ^ 11 + g / 4 * 2 ^ 5 ≡ (b / 8 * 2 ^ 6 + g / 4) * 2 ^ 5 = omega arith in
    rw
      (
        high_five b hb,
        high_six g hg,
        e1,
        e2,
        bit_or-apart 11 (b / 8) (g / 4 * 2 ^ 5) (omega arith),
        e3,
        bit_or-apart 5 (b / 8 * 2 ^ 6 + g / 4) (r / 8) (omega arith),
      )
      (omega arith)

number-pixel : (n c : ℕ) → c < 2 ^ 32 → number (pixel n c) ≡ colour_number n c
unfolding pixel
number-pixel n c h = ground (
  arith,
  rgb565_lem (c / 2 ^ 16 % 256) (c / 2 ^ 8 % 256) (c % 256) (omega arith) (omega arith)
      (omega arith),
)

number_at-number :
    (xs : List ℕ) (mem : Memory) (a : ℕ)
    → ((k : ℕ) → k < length xs → mem (a + k) ≡ get_or xs k 0)
    → number_at mem a (length xs) ≡ number xs
number_at-number [] mem a h = refl
number_at-number (v ∷ vs) mem a h =
    let z : a + 0 ≡ a = omega arith in
    let first : mem a ≡ v = rw z at (h 0 (omega arith)) in
    let rest = number_at-number vs mem (a + 1) (λ k lt.
      (let e : a + suc k ≡ a + 1 + k = omega arith in rw e at (h (suc k) (omega arith)))) in
    rw (first, rest) refl

-- A pixel that holds the bytes of a colour shows it.
pub Stores-Shows :
    (fb : FbInfo) (mem : Memory) (x y c : ℕ) → c < 2 ^ 32 → Stores fb mem x y c → Shows fb mem x y c
Stores-Shows fb mem x y c hc h =
    let l = length-pixel (fb.bpp / 8) c in
    rw l at (
      number_at-number (pixel (fb.bpp / 8) c) mem (base fb x y)
        (λ k lt. h k (omega (arith, l, lt))))
    ∙ number-pixel (fb.bpp / 8) c hc
