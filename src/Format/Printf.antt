-- ===== src/Format/Printf.antt =====
-- `printf`: signed numbers, and formats.
use mathlib.Core.Option
use system.Common.{
  All, Bool-cases, List, [], arith, false, if◌then◌else◌, inl, inr, ltb, refl, some, ℕ, ◌%◌, ◌+◌,
  ◌-◌, ◌<◌, ◌==◌, ◌^◌, ◌∷◌, ◌≡◌, ◌≢◌, Option, length, none, ◌++◌,
}
use system.Format.{Arg, Float, decimal, expand, utoa, directive, printf}

-- The number that a 32-bit pattern stands for, by its sign and its size.
abbrev pub magnitude : ℕ → ℕ
magnitude num = if ltb num (2 ^ 31) then num else 2 ^ 32 - num

-- `%d` prints a sign exactly for a negative 32-bit number, and then its size, the least number
-- included.
pub decimal_lem :
    (num : ℕ)
    → num < 2 ^ 32
    → decimal num ≡ (if ltb num (2 ^ 31) then utoa (magnitude num) else b'-' ∷ utoa (magnitude num))
unfolding decimal
decimal_lem num h = elim (Bool-cases (ltb num (2 ^ 31))) [
  | inl t ↦ rw t
  | inr f ↦
      let e : ((2 ^ 32 - (num + 1) % 2 ^ 32) % 2 ^ 32 + 1) % 2 ^ 32 ≡ 2 ^ 32 - num = ground arith in
      rw (f, e)
]

module _ (fpu : Float) where
  -- A format with no `%` is printed as it stands, if it fits the buffer.
  expand-plain :
      (format : List ℕ) (args : List (Arg fpu))
      → All (λ c. c ≢ b'%') format
      → expand fpu format args ≡ some format
  unfolding expand
  expand-plain [] args h = refl
  expand-plain (c ∷ []) args h = let e : (c == b'%') ≡ false = ground (arith, h.0) in rw e
  expand-plain (c ∷ p ∷ format) args h =
      let e : (c == b'%') ≡ false = ground (arith, h.0) in
      rw (e, expand-plain (p ∷ format) args h.1)

  expand-pre :
      (pre : List ℕ) (p : ℕ) (post : List ℕ) (args : List (Arg fpu)) (o : Option (List ℕ))
      → All (λ c. c ≢ b'%') pre
      → expand fpu (b'%' ∷ p ∷ post) args ≡ o
      → expand fpu (pre ++ (b'%' ∷ p ∷ post)) args ≡ Option.map (λ out. pre ++ out) o
  unfolding expand
  expand-pre [] p post args none h e = e
  expand-pre [] p post args (some out) h e = e
  expand-pre (c ∷ []) p post args o h e =
      let z : (c == b'%') ≡ false = ground (arith, h.0) in rw (z, e)
  expand-pre (c ∷ d ∷ pre) p post args o h e =
      let z : (c == b'%') ≡ false = ground (arith, h.0) in
      rw (z, expand-pre (d ∷ pre) p post args o h.1 e) (both o)
    where
      both :
          (o : Option (List ℕ))
          → Option.map (◌∷◌ c) (Option.map (λ out. d ∷ (pre ++ out)) o)
            ≡ Option.map (λ out. c ∷ d ∷ (pre ++ out)) o
      both none = refl
      both (some out) = refl

  expand-special :
      (p : ℕ) (post : List ℕ) (args rest : List (Arg fpu)) (out more : List ℕ)
      → directive fpu p args ≡ some (out, rest)
      → expand fpu post rest ≡ some more
      → expand fpu (b'%' ∷ p ∷ post) args ≡ some (out ++ more)
  unfolding expand
  expand-special p post args rest out more d e = rw (d, e)

  -- A directive behind plain text prints the text, what it shows of its argument, and the rest.
  pub expand-directive :
      (pre : List ℕ) (p : ℕ) (post : List ℕ) (args rest : List (Arg fpu)) (out more : List ℕ)
      → All (λ c. c ≢ b'%') pre
      → directive fpu p args ≡ some (out, rest)
      → expand fpu post rest ≡ some more
      → expand fpu (pre ++ (b'%' ∷ p ∷ post)) args ≡ some (pre ++ (out ++ more))
  expand-directive pre p post args rest out more h d e =
      expand-pre pre p post args (some (out ++ more)) h
        (expand-special p post args rest out more d e)

  -- A format of plain text is printed as it stands, if it fits the buffer of 1024 bytes, and
  -- overflows it otherwise.
  pub printf-plain :
      (format : List ℕ) (args : List (Arg fpu))
      → All (λ c. c ≢ b'%') format
      → printf fpu format args ≡ (if ltb (length format) 1024 then some format else none)
  unfolding printf
  printf-plain format args h = rw (expand-plain format args h, printf)
