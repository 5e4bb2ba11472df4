-- ===== src/Format/Decimal.antt =====
-- Decimal output: `utoa` against `atoi`, and the size of the buffers.
use mathlib.Core.List.{reverse_aux, reverse}
use native.Mathlib.Nat.{pow-suc}
use system.Common.{
  Bool-cases, List, arith, inl, inr, suc, zero, ℕ, ◌%◌, ◌*◌, ◌+◌, ◌/◌, ◌<◌, ◌==◌, ◌^◌, ◌∙◌, ◌∷◌,
  ◌≡◌, [], ap, length, refl, some, true, ◌++◌, ◌≤◌,
}
use system.CString.{atoi_from, atoi}
use system.CString.Text.{atoi_from-digit, atoi_from-end, c_string}
use system.Format.{tmp_digits, utoa}

-- The digits in front of `acc`, first digit first.
shown : (fuel v : ℕ) → List ℕ → List ℕ
shown fuel v acc = reverse_aux (tmp_digits fuel v) acc

abbrev Room : ℕ → ℕ → Type 0
Room fuel v = v < 10 ^ fuel

pow_ten : (n : ℕ) → 10 ^ suc n ≡ 10 * 10 ^ n
pow_ten n = grind (arith, pow-suc)

-- Reading digits after `0` is reading the rest after the number that they show.
atoi_from-shown :
    (fuel v : ℕ) (acc : List ℕ)
    → Room fuel v
    → v < 2 ^ 32
    → atoi_from 0 (shown fuel v acc) ≡ atoi_from v acc
unfolding shown tmp_digits
atoi_from-shown zero v acc h lt = let e : v ≡ 0 = omega arith in rw e
atoi_from-shown (suc fuel) v acc h lt = elim (Bool-cases (v == 0)) [
  | inl z ↦ let e : v ≡ 0 = ground arith in rw (z, e)
  | inr nz ↦ rw nz (
      atoi_from-shown fuel (v / 10) ((b'0' + v % 10) ∷ acc) (omega (arith, pow_ten fuel))
        (omega arith)
      ∙ step)
]
  where
    step : atoi_from (v / 10) ((b'0' + v % 10) ∷ acc) ≡ atoi_from v acc
    step =
        atoi_from-digit (v / 10) (v % 10) acc (omega arith) (omega arith)
        ∙ ap (λ k. atoi_from k acc) (omega arith)

length-tmp_digits : (fuel n v : ℕ) → Room n v → length (tmp_digits fuel v) ≤ n
unfolding tmp_digits
length-tmp_digits zero n v h = omega arith
length-tmp_digits (suc fuel) zero v h = let z : (v == 0) ≡ true = ground arith in rw z (omega arith)
length-tmp_digits (suc fuel) (suc n) v h = elim (Bool-cases (v == 0)) [
  | inl z ↦ rw z (omega arith)
  | inr nz ↦ rw nz (omega (arith, length-tmp_digits fuel n (v / 10) (omega (arith, pow_ten n))))
]

reverse_lem : (xs : List ℕ) → reverse xs ≡ reverse_aux xs []
reverse_lem xs = refl

reverse_aux-append : (xs ys zs : List ℕ) → reverse_aux xs ys ++ zs ≡ reverse_aux xs (ys ++ zs)
reverse_aux-append [] ys zs = refl
reverse_aux-append (x ∷ xs) ys zs = reverse_aux-append xs (x ∷ ys) zs

length-reverse_aux : (xs ys : List ℕ) → length (reverse_aux xs ys) ≡ length xs + length ys
length-reverse_aux [] ys = omega arith
length-reverse_aux (x ∷ xs) ys = omega (arith, length-reverse_aux xs (x ∷ ys))

-- The decimal text of a 32-bit word has at most ten digits, and `atoi` reads the word back from it.
pub atoi-utoa :
    (v : ℕ) (rest : List ℕ)
    → v < 2 ^ 32
    → (atoi (c_string (utoa v) rest) ≡ some v) × (length (utoa v) ≤ 10)
unfolding atoi utoa shown
atoi-utoa v rest h = elim (Bool-cases (v == 0)) [
  | inl z ↦
      let e : v ≡ 0 = ground arith in
      rw (z, e)
        (
          atoi_from-digit 0 0 (0 ∷ rest) (omega arith) (omega arith) ∙ atoi_from-end 0 rest,
          omega arith,
        )
  | inr nz ↦
      rw (nz, reverse_aux-append (tmp_digits 12 v) [] (0 ∷ rest))
        (
          read_back,
          omega (
            arith,
            length-reverse_aux (tmp_digits 12 v) [],
            length-tmp_digits 12 10 v (omega arith),
          ),
        )
]
  where
    read_back : atoi_from 0 (reverse_aux (tmp_digits 12 v) (0 ∷ rest)) ≡ some v
    read_back = atoi_from-shown 12 v (0 ∷ rest) (omega arith) h ∙ atoi_from-end v rest
