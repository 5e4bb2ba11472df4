-- ===== src/Rand/Mix.antt =====
-- The generator loses nothing: each of its steps can be undone.
use system.Common.{
  bit_xor, ℕ, ◌≢◌, ◌/◌, ◌^◌, ◌<◌, ◌≡◌, ◌≤◌, ◌∙◌, ap, sym, refl, arith, bit_xor-lt, bit_xor-shift,
  bit_xor-cancel, bit_xor_shifted-injective,
}
use system.Rand.{fold, fold_four, multiply, rand, srand, times_nine}

fold-lt : (a : ℕ) → a < 2 ^ 32 → fold a < 2 ^ 32
unfolding fold
fold-lt a ha =
    bit_xor-lt (bit_xor a 61) (a / 2 ^ 16) (bit_xor-lt a 61 ha (omega arith)) (omega arith)

fold-high : (a : ℕ) → a < 2 ^ 32 → fold a / 2 ^ 16 ≡ bit_xor (bit_xor (a / 2 ^ 16) 0) 0
unfolding fold
fold-high a ha =
    let z : a / 2 ^ 16 / 2 ^ 16 ≡ 0 = omega arith in
    bit_xor-shift 16 (bit_xor a 61) (a / 2 ^ 16) ∙ rw (bit_xor-shift 16 a 61, z) refl

fold-injective : (a b : ℕ) → a < 2 ^ 32 → b < 2 ^ 32 → fold a ≡ fold b → a ≡ b
unfolding fold
fold-injective a b ha hb e =
    let high = sym (fold-high a ha) ∙ ap (λ (k : ℕ). k / 2 ^ 16) e ∙ fold-high b hb in
    let h1 =
      bit_xor-cancel _ (bit_xor (a / 2 ^ 16) 0) (bit_xor (b / 2 ^ 16) 0) 0
        (below (bit_xor-lt (a / 2 ^ 16) 0 (omega arith) (omega arith)))
        (below (bit_xor-lt (b / 2 ^ 16) 0 (omega arith) (omega arith))) high in
    let h = bit_xor-cancel (2 ^ 32) (a / 2 ^ 16) (b / 2 ^ 16) 0 (omega arith) (omega arith) h1 in
    let l1 =
      bit_xor-cancel (2 ^ 32) (bit_xor a 61) (bit_xor b 61) (b / 2 ^ 16)
        (below (bit_xor-lt a 61 ha (omega arith))) (below (bit_xor-lt b 61 hb (omega arith)))
        (ap (bit_xor (bit_xor a 61)) (sym h) ∙ e) in
    bit_xor-cancel (2 ^ 32) a b 61 (omega arith) (omega arith) l1
  where
    below : {k : ℕ} → k < 2 ^ 32 → k ≤ 2 ^ 32
    below lt = omega arith

times_nine-injective : (a b : ℕ) → a < 2 ^ 32 → b < 2 ^ 32 → times_nine a ≡ times_nine b → a ≡ b
unfolding times_nine
times_nine-injective a b ha hb e = omega arith

fold_four-injective : (a b : ℕ) → a < 2 ^ 32 → b < 2 ^ 32 → fold_four a ≡ fold_four b → a ≡ b
unfolding fold_four
fold_four-injective a b ha hb e =
    bit_xor_shifted-injective (2 ^ 32) a b (omega arith) (omega arith) e

multiply-injective : (a b : ℕ) → a < 2 ^ 32 → b < 2 ^ 32 → multiply a ≡ multiply b → a ≡ b
unfolding multiply
multiply-injective a b ha hb e = omega arith

srand-equal : (a b : ℕ) → a < 2 ^ 32 → b < 2 ^ 32 → srand a ≡ srand b → a ≡ b
unfolding srand fold_four times_nine
srand-equal a b ha hb e = fold-injective a b ha hb (
    times_nine-injective (fold a) (fold b) (fold-lt a ha) (fold-lt b hb) (
      fold_four-injective (times_nine (fold a)) (times_nine (fold b)) (omega arith) (omega arith) (
        multiply-injective (fold_four (times_nine (fold a))) (fold_four (times_nine (fold b)))
          (bit_xor-lt _ _ (omega arith) (omega arith)) (bit_xor-lt _ _ (omega arith) (omega arith))
          e)))

-- Different seeds of 32 bits give different numbers.
pub srand-injective : (a b : ℕ) → a < 2 ^ 32 → b < 2 ^ 32 → a ≢ b → srand a ≢ srand b
srand-injective a b ha hb ne e = ne (srand-equal a b ha hb e)

-- `rand` is `srand` of the tick count: it has no state of its own.
pub rand-srand : (ticks : ℕ) → rand ticks ≡ srand ticks
unfolding rand srand
rand-srand ticks = refl
