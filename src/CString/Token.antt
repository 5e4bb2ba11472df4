-- ===== src/CString/Token.antt =====
-- `strtok` with one delimiter, as the shell calls it: the first word of a line.
use system.Common.{
  All, List, Option, [], ap, arith, false, get_or, if◌then◌else◌, inl, inr, length, none, refl, set,
  some, true, ℕ, ◌%◌, ◌++◌, ◌+◌, ◌<◌, ◌==◌, ◌∷◌, ◌≡◌, ◌≢◌, ◌⊎◌,
}
use system.CString.{cut, strchr, strtok, token_length}
use system.CString.Text.{c_string}

-- Neither the terminator nor the delimiter.
abbrev pub IsWord : ℕ → List ℕ → Type 0
IsWord delim w = All (λ c. (0 < c) × (c ≢ delim) × (c < 256)) w

one_delim :
    (delim a : ℕ)
    → 0 < delim
    → delim < 256
    → a < 256
    → strchr (delim ∷ 0 ∷ []) a ≡ some (if delim == a then some 0 else none)
unfolding strchr
one_delim delim a p lt la = let e : a % 256 ≡ a = omega arith in rw e (ground arith)

token_length-word :
    (w rest : List ℕ) (delim stop : ℕ)
    → 0 < delim
    → delim < 256
    → IsWord delim w
    → (stop ≡ 0) ⊎ (stop ≡ delim)
    → token_length (w ++ (stop ∷ rest)) (delim ∷ 0 ∷ []) ≡ some (length w)
unfolding token_length
token_length-word [] rest delim stop p lt h (inl e) = rw e
token_length-word [] rest delim stop p lt h (inr e) =
    let z : (delim == 0) ≡ false = ground arith in
    let d : (delim == delim) ≡ true = ground arith in rw (e, z, one_delim delim delim p lt lt, d)
token_length-word (c ∷ w) rest delim stop p lt h e =
    let z : (c == 0) ≡ false = ground (arith, h.0.0) in
    let d : (delim == c) ≡ false = ground (arith, h.0.1) in
    rw (z, one_delim delim c p lt h.0.2, d, token_length-word w rest delim stop p lt h.1 e)

get_or-word : (w rest : List ℕ) (stop : ℕ) → get_or (w ++ (stop ∷ rest)) (length w) 0 ≡ stop
get_or-word [] rest stop = refl
get_or-word (c ∷ w) rest stop = get_or-word w rest stop

set-word : (w rest : List ℕ) (stop v : ℕ) → set (w ++ (stop ∷ rest)) (length w) v ≡ w ++ (v ∷ rest)
set-word [] rest stop v = refl
set-word (c ∷ w) rest stop v = ap (◌∷◌ c) (set-word w rest stop v)

-- On a line that starts with a word and a delimiter, the delimiter becomes a terminator, and the
-- next token starts behind it.
pub strtok-word :
    (w rest : List ℕ) (delim : ℕ) (old : Option ℕ)
    → 0 < delim
    → delim < 256
    → IsWord delim w
    → strtok (some 0) (delim ∷ 0 ∷ []) (record { buffer = w ++ (delim ∷ rest); next = old })
      ≡ some (some 0, record { buffer = c_string w rest; next = some (length w + 1) })
unfolding strtok cut
strtok-word w rest delim old p lt h =
    let z : (delim == 0) ≡ false = ground arith in
    let e : 0 + length w ≡ length w = omega arith in
    rw (
      token_length-word w rest delim delim p lt h (inr refl),
      e,
      get_or-word w rest delim,
      z,
      set-word w rest delim 0,
    )

-- On a line of one word nothing is written, and there is no next token. So a second call on the same
-- line finds the first word again.
pub strtok-last :
    (w rest : List ℕ) (delim : ℕ) (old : Option ℕ)
    → 0 < delim
    → delim < 256
    → IsWord delim w
    → strtok (some 0) (delim ∷ 0 ∷ []) (record { buffer = c_string w rest; next = old })
      ≡ some (some 0, record { buffer = c_string w rest; next = none })
unfolding strtok cut
strtok-last w rest delim old p lt h =
    let e : 0 + length w ≡ length w = omega arith in
    rw (token_length-word w rest delim 0 p lt h (inl refl), e, get_or-word w rest 0)
