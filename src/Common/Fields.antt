-- ===== src/Common/Fields.antt =====
-- `|` of numbers that share no digit.
use Prim.Native.Nat.{
  ℕ, zero, suc, ◌+◌, ◌*◌, ◌/◌, ◌^◌, ◌<◌, ◌≤◌, max, digits, bit_or, bit_or-bitwise,
}
use mathlib.Core.Path.{◌≡◌, refl, ap, ◌∙◌}
use native.Mathlib.Omega.{arith}
use native.Mathlib.Nat.{pow-suc}

-- A multiple of `2 ^ k` has no digit below place `k`. `n` is the count of digits to go.
digits-apart :
    (n k q a b : ℕ) → a ≤ n → a ≡ q * 2 ^ k → b < 2 ^ k → digits (λ b. b) max n a b ≡ a + b
digits-apart zero k q a b le e lt = omega arith
digits-apart (suc n) k q zero b le e lt = omega arith
digits-apart (suc n) zero q (suc a) b le e lt =
    let r =
      digits-apart n zero (suc a / 2) (suc a / 2) (b / 2) (omega arith) (omega arith)
        (omega arith) in
    ground (arith, r)
digits-apart (suc n) (suc k) q (suc a) b le e lt =
    let d : 2 ^ suc k ≡ 2 ^ k * 2 = pow-suc 2 k in
    let m : q * 2 ^ suc k ≡ 2 * (q * 2 ^ k) = omega (arith, ap (λ (t : ℕ). q * t) d) in
    let r =
      digits-apart n k q (suc a / 2) (b / 2) (omega arith) (omega (arith, e, m))
        (omega (arith, d)) in
    ground (arith, r, e, m)

pub bit_or-apart : (k q b : ℕ) → b < 2 ^ k → bit_or (q * 2 ^ k) b ≡ q * 2 ^ k + b
bit_or-apart k q b lt =
    bit_or-bitwise (q * 2 ^ k) b ∙ digits-apart (q * 2 ^ k) k q (q * 2 ^ k) b (omega arith) refl lt

-- The same with the lower number in front.
digits-below :
    (n k q a b : ℕ) → b ≤ n → a ≡ q * 2 ^ k → b < 2 ^ k → digits (λ b. b) max n b a ≡ a + b
digits-below zero k q a b le e lt = ground arith
digits-below (suc n) k q a zero le e lt = omega arith
digits-below (suc n) zero q a (suc b) le e lt = absurd (omega arith)
digits-below (suc n) (suc k) q a (suc b) le e lt =
    let d : 2 ^ suc k ≡ 2 ^ k * 2 = pow-suc 2 k in
    let m : q * 2 ^ suc k ≡ 2 * (q * 2 ^ k) = omega (arith, ap (λ (t : ℕ). q * t) d) in
    let r =
      digits-below n k q (a / 2) (suc b / 2) (omega arith) (omega (arith, e, m))
        (omega (arith, d)) in
    ground (arith, r, e, m)

pub bit_or-below : (k q b : ℕ) → b < 2 ^ k → bit_or b (q * 2 ^ k) ≡ q * 2 ^ k + b
bit_or-below k q b lt =
    bit_or-bitwise b (q * 2 ^ k) ∙ digits-below b k q (q * 2 ^ k) b (omega arith) refl lt
