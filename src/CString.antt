-- ===== src/CString.antt =====
-- kernel/lib/string.c and kernel/lib/memory.c. A string argument is the bytes of its buffer from the
-- pointer on, with the terminator among them. `none` is a fault: an access behind the buffer.
pub mod Text
pub mod Compare
pub mod Copy
pub mod Token
mod Tests
use mathlib.Core.Option
use system.Common.{
  List, Option, [], drop, get_or, if◌then◌else◌, ltb, none, not, set, some, sub_ℕ, suc, zero, ℕ, ℤ,
  ◌%◌, ◌&&◌, ◌*◌, ◌+◌, ◌-◌, ◌==◌, ◌^◌, ◌∷◌,
}

pub strlen : List ℕ → Option ℕ
strlen [] = none
strlen (c ∷ s) = if c == 0 then some 0 else Option.map suc (strlen s)

-- The difference of the first two bytes that differ, or of the terminators.
unfoldable pub strcmp : List ℕ → List ℕ → Option ℤ
strcmp [] t = none
strcmp (a ∷ s) [] = none
strcmp (a ∷ s) (b ∷ t) = if not (a == 0) && (a == b) then strcmp s t else some (sub_ℕ a b)

-- `dest` after the copy.
unfoldable pub strcpy : (dest src : List ℕ) → Option (List ℕ)
strcpy dest [] = none
strcpy [] (c ∷ src) = none
strcpy (d ∷ dest) (c ∷ src) =
    if c == 0 then some (0 ∷ dest) else Option.map (◌∷◌ c) (strcpy dest src)

-- `for (; i < n; i++) d[i] = 0;`
pub pad : List ℕ → ℕ → Option (List ℕ)
pad dest zero = some dest
pad [] (suc n) = none
pad (d ∷ dest) (suc n) = Option.map (◌∷◌ 0) (pad dest n)

pub strncpy : (dest src : List ℕ) → ℕ → Option (List ℕ)
strncpy dest src zero = some dest
strncpy dest [] (suc n) = none
strncpy [] (c ∷ src) (suc n) = none
strncpy (d ∷ dest) (c ∷ src) (suc n) =
    if c == 0 then pad (d ∷ dest) (suc n) else Option.map (◌∷◌ c) (strncpy dest src n)

-- The offset of the first occurrence before the terminator; the inner `none` is NULL. The character
-- is cast to `char`.
unfoldable pub strchr : List ℕ → ℕ → Option (Option ℕ)
strchr [] c = none
strchr (a ∷ s) c =
    if a == 0
    then some none
    else if a == c % 256
    then some (some 0)
    else Option.map (Option.map suc) (strchr s c)

-- The loop of `strtok`: how many bytes it passes, up to a delimiter or the terminator.
unfoldable pub token_length : (s delim : List ℕ) → Option ℕ
token_length [] delim = none
token_length (a ∷ s) delim = if a == 0 then some 0 else (elim (strchr delim a) [
  | none ↦ none
  | some none ↦ Option.map suc (token_length s delim)
  | some (some i) ↦ some 0
])

-- The buffer and the static `next`, an offset in it or `none` for NULL.
pub record Tokens : Type 0 where
  pub buffer : List ℕ
  pub next : Option ℕ

-- The part of `strtok` behind the test of `next`: the token starts at `start`.
unfoldable pub cut : (buffer : List ℕ) → (start : ℕ) → (len : ℕ) → Tokens
cut buffer start len =
    if get_or buffer (start + len) 0 == 0
    then record { buffer = buffer; next = none }
    else record { buffer = set buffer (start + len) 0; next = some (start + len + 1) }

-- `str` is the offset of a new string in the buffer, or `none` for NULL.
unfoldable pub strtok : (str : Option ℕ) → (delim : List ℕ) → Tokens → Option (Option ℕ × Tokens)
strtok str delim s =
    let begin : Option ℕ = elim str [ none ↦ s.next | some p ↦ some p ] in
    elim begin [
      | none ↦ some (none, record s { next = none })
      | some start ↦
          Option.map (λ len. (some start, cut s.buffer start len))
            (token_length (drop start s.buffer) delim)
    ]

-- A byte as the word that a signed `char` is widened to.
pub widen : ℕ → ℕ
widen c = if ltb c 128 then c else c + 2 ^ 32 - 256

-- `k` is a 32-bit word.
pub atoi_from : ℕ → List ℕ → Option ℕ
atoi_from k [] = none
atoi_from k (c ∷ s) =
    if c == 0 then some k else atoi_from ((k * 2 ^ 3 + k * 2 + widen c + 2 ^ 32 - b'0') % 2 ^ 32) s

unfoldable pub atoi : List ℕ → Option ℕ
atoi s = atoi_from 0 s

-- `memcpy` and `memset` on buffers; the rest of `dest` is kept.
pub memcpy : (dest src : List ℕ) → ℕ → Option (List ℕ)
memcpy dest src zero = some dest
memcpy [] src (suc n) = none
memcpy (d ∷ dest) [] (suc n) = none
memcpy (d ∷ dest) (c ∷ src) (suc n) = Option.map (◌∷◌ c) (memcpy dest src n)

pub memset : (dest : List ℕ) → (val n : ℕ) → Option (List ℕ)
memset dest val zero = some dest
memset [] val (suc n) = none
memset (d ∷ dest) val (suc n) = Option.map (◌∷◌ (val % 256)) (memset dest val n)
