-- ===== src/CString/Text.antt =====
-- The strings that a buffer holds, and `strlen`.
use system.Common.{
  All, List, [], arith, false, length, refl, some, ℕ, ◌++◌, ◌<◌, ◌==◌, ◌∷◌, ◌≡◌, ltb, true, ◌%◌,
  ◌*◌, ◌+◌, ◌-◌, ◌^◌,
}
use system.CString.{strlen, atoi_from, widen}

-- The bytes of a text before its terminator.
abbrev pub IsText : List ℕ → Type 0
IsText s = All (λ c. 0 < c) s

-- A buffer that holds the text, its terminator and more bytes.
abbrev pub c_string : List ℕ → List ℕ → List ℕ
c_string s rest = s ++ (0 ∷ rest)

-- `strlen` counts the bytes before the terminator, whatever stands behind it.
pub strlen-c_string : (s rest : List ℕ) → IsText s → strlen (c_string s rest) ≡ some (length s)
unfolding strlen
strlen-c_string [] rest t = refl
strlen-c_string (c ∷ s) rest t =
    let e : (c == 0) ≡ false = ground (arith, t.0) in rw (e, strlen-c_string s rest t.1)

-- A decimal digit moves the number that `atoi` has read up by one place, while it fits 32 bits.
pub atoi_from-digit :
    (k d : ℕ) (s : List ℕ)
    → d < 10
    → k * 10 + d < 2 ^ 32
    → atoi_from k ((b'0' + d) ∷ s) ≡ atoi_from (k * 10 + d) s
unfolding atoi_from widen
atoi_from-digit k d s hd h =
    let z : (b'0' + d == 0) ≡ false = ground arith in
    let w : ltb (b'0' + d) 128 ≡ true = ground arith in
    let e : (k * 2 ^ 3 + k * 2 + (b'0' + d) + 2 ^ 32 - b'0') % 2 ^ 32 ≡ k * 10 + d = omega arith in
    rw (z, w, e)

-- `atoi` ends at the terminator.
pub atoi_from-end : (k : ℕ) (rest : List ℕ) → atoi_from k (0 ∷ rest) ≡ some k
unfolding atoi_from
atoi_from-end k rest = refl
