-- ===== src/Common/Xor.antt =====
-- `^` of two numbers, digit by digit, and what it takes to undo it.
use Prim.Native.Nat.{
  ℕ, zero, suc, ◌+◌, ◌*◌, ◌/◌, ◌%◌, ◌^◌, ◌<◌, ◌≤◌, digits, differ, bit_xor, bit_xor-bitwise,
}
use mathlib.Core.Path.{◌≡◌, refl, ap, sym, ◌∙◌}
use native.Mathlib.Omega.{arith}
use native.Mathlib.Nat.{pow-suc, div-div-eq-div-mul}

abbrev xor_digits : ℕ → ℕ → ℕ → ℕ
xor_digits n a b = digits (λ b. b) differ n a b

differ_lem : (x y : ℕ) → x < 2 → y < 2 → differ x y ≡ (x + y) % 2
differ_lem zero y hx hy = omega arith
differ_lem (suc zero) zero hx hy = refl
differ_lem (suc zero) (suc zero) hx hy = refl
differ_lem (suc zero) (suc (suc y)) hx hy = absurd (omega arith)
differ_lem (suc (suc x)) y hx hy = absurd (omega arith)

-- The last digit, and the others, with any fuel that is enough.
xor_digits-last : (n a b : ℕ) → a ≤ n → xor_digits n a b % 2 ≡ (a + b) % 2
xor_digits-last zero a b le = let z : a ≡ 0 = omega arith in rw z (omega arith)
xor_digits-last (suc n) zero b le = omega arith
xor_digits-last (suc n) (suc a) b le =
    omega (arith, differ_lem (suc a % 2) (b % 2) (omega arith) (omega arith))

xor_digits-fuel : (n m a b : ℕ) → a ≤ n → a ≤ m → xor_digits n a b ≡ xor_digits m a b
xor_digits-fuel zero zero a b le le' = refl
xor_digits-fuel zero (suc m) zero b le le' = refl
xor_digits-fuel zero (suc m) (suc a) b le le' = absurd (omega arith)
xor_digits-fuel (suc n) zero zero b le le' = refl
xor_digits-fuel (suc n) zero (suc a) b le le' = absurd (omega arith)
xor_digits-fuel (suc n) (suc m) zero b le le' = refl
xor_digits-fuel (suc n) (suc m) (suc a) b le le' =
    rw (xor_digits-fuel n m (suc a / 2) (b / 2) (omega arith) (omega arith)) refl

xor_digits-half :
    (n m a b : ℕ) → a ≤ n → a / 2 ≤ m → xor_digits n a b / 2 ≡ xor_digits m (a / 2) (b / 2)
xor_digits-half zero m zero b le le' = xor_zero m (b / 2)
  where
    xor_zero : (m b : ℕ) → b ≡ xor_digits m (0 / 2) b
    xor_zero zero b = refl
    xor_zero (suc m) b = refl
xor_digits-half zero m (suc a) b le le' = absurd (omega arith)
xor_digits-half (suc n) m zero b le le' = xor_zero m (b / 2)
  where
    xor_zero : (m b : ℕ) → b ≡ xor_digits m (0 / 2) b
    xor_zero zero b = refl
    xor_zero (suc m) b = refl
xor_digits-half (suc n) m (suc a) b le le' =
    omega (arith, differ_lem (suc a % 2) (b % 2) (omega arith) (omega arith))
    ∙ xor_digits-fuel n m (suc a / 2) (b / 2) (omega arith) le'

pub bit_xor-last : (a b : ℕ) → bit_xor a b % 2 ≡ (a + b) % 2
bit_xor-last a b = ap (λ (t : ℕ). t % 2) (bit_xor-bitwise a b) ∙ xor_digits-last a a b (omega arith)

pub bit_xor-half : (a b : ℕ) → bit_xor a b / 2 ≡ bit_xor (a / 2) (b / 2)
bit_xor-half a b =
    ap (λ (t : ℕ). t / 2) (bit_xor-bitwise a b)
    ∙ xor_digits-half a (a / 2) a b (omega arith) (omega arith)
    ∙ sym (bit_xor-bitwise (a / 2) (b / 2))

-- `^` and a shift to the right.
pub bit_xor-shift : (w a b : ℕ) → bit_xor a b / 2 ^ w ≡ bit_xor (a / 2 ^ w) (b / 2 ^ w)
bit_xor-shift zero a b = let d = λ (t : ℕ). whole t in rw (d a, d b, d (bit_xor a b)) refl
  where
    whole : (t : ℕ) → t / 2 ^ 0 ≡ t
    whole t = omega arith
bit_xor-shift (suc w) a b =
    rw (one_more (bit_xor a b), one_more a, one_more b)
      (ap (λ (t : ℕ). t / 2 ^ w) (bit_xor-half a b) ∙ bit_xor-shift w (a / 2) (b / 2))
  where
    one_more : (t : ℕ) → t / 2 ^ suc w ≡ t / 2 / 2 ^ w
    one_more t =
        let d : 2 ^ suc w ≡ 2 * 2 ^ w = omega (arith, pow-suc 2 w) in
        ap (λ (k : ℕ). t / k) d ∙ sym (div-div-eq-div-mul t 2 (2 ^ w))

pub bit_xor-lt : (a b : ℕ) → a < 2 ^ 32 → b < 2 ^ 32 → bit_xor a b < 2 ^ 32
bit_xor-lt a b ha hb =
    let za : a / 2 ^ 32 ≡ 0 = omega arith in
    let zb : b / 2 ^ 32 ≡ 0 = omega arith in
    let h : bit_xor a b / 2 ^ 32 ≡ 0 = bit_xor-shift 32 a b ∙ rw (za, zb) refl in omega (arith, h)

-- One operand can be taken away.
pub bit_xor-cancel : (n a b t : ℕ) → a ≤ n → b ≤ n → bit_xor a t ≡ bit_xor b t → a ≡ b
bit_xor-cancel zero a b t ha hb e = omega arith
bit_xor-cancel (suc n) a b t ha hb e =
    let low : (a + t) % 2 ≡ (b + t) % 2 =
      sym (bit_xor-last a t) ∙ ap (λ (k : ℕ). k % 2) e ∙ bit_xor-last b t in
    let high : bit_xor (a / 2) (t / 2) ≡ bit_xor (b / 2) (t / 2) =
      sym (bit_xor-half a t) ∙ ap (λ (k : ℕ). k / 2) e ∙ bit_xor-half b t in
    let h = bit_xor-cancel n (a / 2) (b / 2) (t / 2) (omega arith) (omega arith) high in
    omega (arith, low, h)

-- A number is known from its `^` with itself shifted by four places.
pub bit_xor_shifted-injective :
    (n a b : ℕ) → a ≤ n → b ≤ n → bit_xor a (a / 16) ≡ bit_xor b (b / 16) → a ≡ b
bit_xor_shifted-injective zero a b ha hb e = omega arith
bit_xor_shifted-injective (suc n) a b ha hb e =
    let high : bit_xor (a / 16) (a / 16 / 16) ≡ bit_xor (b / 16) (b / 16 / 16) =
      sym (bit_xor-shift 4 a (a / 16)) ∙ ap (λ (k : ℕ). k / 16) e ∙ bit_xor-shift 4 b (b / 16) in
    let h = bit_xor_shifted-injective n (a / 16) (b / 16) (omega arith) (omega arith) high in
    bit_xor-cancel (suc n) a b (b / 16) ha hb (ap (bit_xor a) (sym h) ∙ e)
