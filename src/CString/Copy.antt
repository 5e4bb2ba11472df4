-- ===== src/CString/Copy.antt =====
-- `strcpy` and `strncpy`: what they write, and when they leave the destination.
use system.Common.{
  List, [], arith, drop, false, length, none, refl, replicate, some, suc, take, zero, ℕ, ◌++◌, ◌-◌,
  ◌<◌, ◌==◌, ◌∷◌, ◌≡◌, ◌≤◌, ◌%◌,
}
use system.CString.{pad, strcpy, strncpy, memcpy, memset}
use system.CString.Text.{IsText, c_string}

-- With room for the text and its terminator, both are copied and the rest of the destination stays.
pub strcpy-fits :
    (s rest dest : List ℕ)
    → IsText s
    → length s < length dest
    → strcpy dest (c_string s rest) ≡ some (c_string s (drop (suc (length s)) dest))
unfolding strcpy
strcpy-fits [] rest [] t h = absurd (omega arith)
strcpy-fits [] rest (d ∷ dest) t h = refl
strcpy-fits (c ∷ s) rest [] t h = absurd (omega arith)
strcpy-fits (c ∷ s) rest (d ∷ dest) t h =
    let e : (c == 0) ≡ false = ground (arith, t.0) in
    rw (e, strcpy-fits s rest dest t.1 (omega arith))

-- A text with no shorter length than the destination is written behind its end.
pub strcpy-overflows :
    (s rest dest : List ℕ)
    → IsText s
    → length dest ≤ length s
    → strcpy dest (c_string s rest) ≡ none
unfolding strcpy
strcpy-overflows [] rest [] t h = refl
strcpy-overflows [] rest (d ∷ dest) t h = absurd (omega arith)
strcpy-overflows (c ∷ s) rest [] t h = refl
strcpy-overflows (c ∷ s) rest (d ∷ dest) t h =
    let e : (c == 0) ≡ false = ground (arith, t.0) in
    rw (e, strcpy-overflows s rest dest t.1 (omega arith))

pad_lem :
    (dest : List ℕ) (n : ℕ) → n ≤ length dest → pad dest n ≡ some (replicate n 0 ++ drop n dest)
unfolding pad
pad_lem dest zero h = refl
pad_lem [] (suc n) h = absurd (omega arith)
pad_lem (d ∷ dest) (suc n) h = rw (pad_lem dest n (omega arith))

-- Where the destination has `n` bytes, exactly `n` bytes are written: the text cut to `n` bytes, and
-- zeros if it is shorter. A text of `n` bytes or more is left without a terminator.
pub strncpy_lem :
    (s rest dest : List ℕ) (n : ℕ)
    → IsText s
    → n ≤ length dest
    → strncpy dest (c_string s rest) n
      ≡ some (take n s ++ (replicate (n - length s) 0 ++ drop n dest))
unfolding strncpy
strncpy_lem [] rest dest zero t h = refl
strncpy_lem (c ∷ s) rest dest zero t h = let z : 0 - suc (length s) ≡ 0 = omega arith in rw z
strncpy_lem s rest [] (suc n) t h = absurd (omega arith)
strncpy_lem [] rest (d ∷ dest) (suc n) t h =
    let z : suc n - 0 ≡ suc n = omega arith in rw z (pad_lem (d ∷ dest) (suc n) h)
strncpy_lem (c ∷ s) rest (d ∷ dest) (suc n) t h =
    let e : (c == 0) ≡ false = ground (arith, t.0) in
    let m : suc n - suc (length s) ≡ n - length s = omega arith in
    rw (e, strncpy_lem s rest dest n t.1 (omega arith), m)

-- `memcpy` puts the first `n` bytes of `src` over those of `dest`, if both are that long.
pub memcpy_lem :
    (dest src : List ℕ) (n : ℕ)
    → n ≤ length dest
    → n ≤ length src
    → memcpy dest src n ≡ some (take n src ++ drop n dest)
unfolding memcpy
memcpy_lem dest src zero h k = refl
memcpy_lem [] src (suc n) h k = absurd (omega arith)
memcpy_lem (d ∷ dest) [] (suc n) h k = absurd (omega arith)
memcpy_lem (d ∷ dest) (c ∷ src) (suc n) h k = rw (memcpy_lem dest src n (omega arith) (omega arith))

-- `memset` fills the first `n` bytes of `dest` with the low byte of `val`.
pub memset_lem :
    (dest : List ℕ) (val n : ℕ)
    → n ≤ length dest
    → memset dest val n ≡ some (replicate n (val % 256) ++ drop n dest)
unfolding memset
memset_lem dest val zero h = refl
memset_lem [] val (suc n) h = absurd (omega arith)
memset_lem (d ∷ dest) val (suc n) h = rw (memset_lem dest val n (omega arith))

-- A shorter `dest` is overrun.
pub memset-overruns : (dest : List ℕ) (val n : ℕ) → length dest < n → memset dest val n ≡ none
unfolding memset
memset-overruns dest val zero h = absurd (omega arith)
memset-overruns [] val (suc n) h = refl
memset-overruns (d ∷ dest) val (suc n) h = rw (memset-overruns dest val n (omega arith))
