-- ===== src/Format/Hex.antt =====
-- Hexadecimal output: `puthex` shows all eight digits of a word.
use mathlib.Core.List.{reverse_aux}
use native.Mathlib.Nat.{pow-suc}
use system.Common.{
  List, [], ap, arith, if◌then◌else◌, length, ltb, suc, zero, ℕ, ◌%◌, ◌*◌, ◌+◌, ◌-◌, ◌/◌, ◌<◌, ◌^◌,
  ◌∙◌, ◌∷◌, ◌≡◌, Bool-cases, inl, inr, ◌==◌,
}
use system.Format.{hex_digit, puthex, puthex_from, tmp_hex, hex}

-- The value of a digit, upper or lower case.
abbrev pub digit_value : ℕ → ℕ
digit_value c = if ltb c b'A' then c - b'0' else if ltb c b'a' then c - b'A' + 10 else c - b'a' + 10

abbrev pub hex_value : ℕ → List ℕ → ℕ
hex_value k [] = k
hex_value k (c ∷ s) = hex_value (k * 16 + digit_value c) s

pub length-puthex_from :
    (n val : ℕ) (buf : List ℕ) → length (puthex_from n val buf) ≡ n + length buf
unfolding puthex_from
length-puthex_from zero val buf = omega arith
length-puthex_from (suc n) val buf =
    omega (arith, length-puthex_from n (val / 16) (hex_digit b'A' (val % 16) ∷ buf))

hex_value-puthex_from :
    (n val : ℕ) (buf : List ℕ)
    → val < 16 ^ n
    → hex_value 0 (puthex_from n val buf) ≡ hex_value val buf
unfolding puthex_from
hex_value-puthex_from zero val buf h = let e : val ≡ 0 = omega arith in rw e
hex_value-puthex_from (suc n) val buf h =
    hex_value-puthex_from n (val / 16) (hex_digit b'A' (val % 16) ∷ buf)
      (omega (arith, pow_sixteen n))
    ∙ ap (λ k. hex_value k buf) last
  where
    pow_sixteen : (n : ℕ) → 16 ^ suc n ≡ 16 * 16 ^ n
    pow_sixteen n = grind (arith, pow-suc)

    last : val / 16 * 16 + digit_value (hex_digit b'A' (val % 16)) ≡ val
    last = ground arith

-- `puthex` writes eight digits for a 32-bit word, and read as a number they give the word back.
pub puthex_lem :
    (val : ℕ) → val < 2 ^ 32 → (length (puthex val) ≡ 8) × (hex_value 0 (puthex val) ≡ val)
unfolding puthex
puthex_lem val h = (length-puthex_from 8 val [], hex_value-puthex_from 8 val [] h)

hex_value-tmp :
    (fuel val : ℕ) (acc : List ℕ)
    → val < 16 ^ fuel
    → hex_value 0 (reverse_aux (tmp_hex fuel val) acc) ≡ hex_value val acc
unfolding tmp_hex
hex_value-tmp zero val acc h = let e : val ≡ 0 = omega arith in rw e
hex_value-tmp (suc fuel) val acc h = elim (Bool-cases (val == 0)) [
  | inl z ↦ let e : val ≡ 0 = ground arith in rw (z, e)
  | inr nz ↦ rw nz (
      hex_value-tmp fuel (val / 16) (hex_digit b'a' (val % 16) ∷ acc)
        (omega (arith, pow_sixteen fuel))
      ∙ ap (λ k. hex_value k acc) last)
]
  where
    pow_sixteen : (n : ℕ) → 16 ^ suc n ≡ 16 * 16 ^ n
    pow_sixteen n = grind (arith, pow-suc)

    last : val / 16 * 16 + digit_value (hex_digit b'a' (val % 16)) ≡ val
    last = ground arith

-- The digits that `%x` prints for a 32-bit word, read as a number, give the word back.
pub hex_value-hex : (val : ℕ) → val < 2 ^ 32 → hex_value 0 (hex val) ≡ val
unfolding hex
hex_value-hex val h = elim (Bool-cases (val == 0)) [
  | inl z ↦ let e : val ≡ 0 = ground arith in rw (z, e)
  | inr nz ↦ rw nz (hex_value-tmp 9 val [] (omega arith))
]
