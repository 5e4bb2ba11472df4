-- ===== src/Report/Digits.antt =====
-- The digits of the memory map: the loop of `mmp` prints the same as `puthex`.
use mathlib.Core.List.{append-nil}
use native.Mathlib.Nat.{div-div-eq-div-mul, pow-suc}
use system.Common.{
  List, [], ◌∷◌, ◌++◌, ap, arith, refl, sym, suc, zero, ℕ, ◌%◌, ◌*◌, ◌/◌, ◌<◌, ◌^◌, ◌∙◌, ◌≡◌,
}
use system.Format.{hex_digit, puthex, puthex_from}
use system.Format.Hex.{hex_value, puthex_lem}
use system.Report.{nibbles}

-- The digits behind those of `v / 16`.
nibbles-suc :
    (n v : ℕ) (buf : List ℕ)
    → nibbles (suc n) v ++ buf ≡ nibbles n (v / 16) ++ (hex_digit b'A' (v % 16) ∷ buf)
unfolding nibbles
nibbles-suc zero v buf = let e : v / 16 ^ 0 ≡ v = omega arith in rw e refl
nibbles-suc (suc n) v buf =
    let e : v / 16 ^ suc n ≡ v / 16 / 16 ^ n =
      ap (λ (k : ℕ). v / k) (power n) ∙ sym (div-div-eq-div-mul v 16 (16 ^ n)) in
    rw e (ap (◌∷◌ (hex_digit b'A' (v / 16 / 16 ^ n % 16))) (nibbles-suc n v buf))
  where
    power : (n : ℕ) → 16 ^ suc n ≡ 16 * 16 ^ n
    power n = grind (arith, pow-suc)

nibbles-puthex_from : (n v : ℕ) (buf : List ℕ) → nibbles n v ++ buf ≡ puthex_from n v buf
unfolding puthex_from nibbles
nibbles-puthex_from zero v buf = refl
nibbles-puthex_from (suc n) v buf =
    nibbles-suc n v buf ∙ nibbles-puthex_from n (v / 16) (hex_digit b'A' (v % 16) ∷ buf)

-- The loop by which `mmp` prints a word gives the same eight digits as `puthex`, and read as a number
-- they give the word back, where it has 32 bits.
pub nibbles-puthex :
    (v : ℕ) → v < 2 ^ 32 → (nibbles 8 v ≡ puthex v) × (hex_value 0 (nibbles 8 v) ≡ v)
unfolding puthex
nibbles-puthex v lt =
    let e = sym (append-nil (nibbles 8 v)) ∙ nibbles-puthex_from 8 v [] in
    (e, ap (hex_value 0) e ∙ (puthex_lem v lt).1)
