-- ===== src/Shell/Choice.antt =====
-- Which command a line calls, and where its argument is found.
use native.Mathlib.Decide.{ℕ_discrete}
use system.Common.{
  List, [], ◌∷◌, ◌++◌, ℕ, ◌≡◌, arith, some, none, true, Bool, pos, negsuc, ℤ, ◌↔◌, Option, All,
  drop, false, if◌then◌else◌, refl, ◌==◌,
}
use system.CString.{strtok}
use system.CString.Compare.{IsZero, strcmp-IsZero_iff}
use system.CString.Text.{IsText, c_string}
use system.CString.Token.{IsWord, strtok-word, strtok-last}
use system.Fbcon.{codes}
use system.Shell.{cmd_comp, is_zero, Command, blank, choose, commands, unknown, version}

-- A line that starts with the word `w`, which a space or the terminator ends.
pub data Starts (w rest : List ℕ) : List ℕ → Type 0 where
  by_space : Starts w rest (w ++ (b' ' ∷ rest))
  by_end : Starts w rest (w ++ (0 ∷ rest))

IsWord-IsText : (w : List ℕ) → IsWord (b' ') w → IsText w
IsWord-IsText [] h = tt
IsWord-IsText (c ∷ w) h = (h.0.0, IsWord-IsText w h.1)

is_zero_iff : (z : ℤ) → (is_zero z ≡ true) ↔ IsZero z
unfolding is_zero
is_zero_iff (pos d) = ground arith
is_zero_iff (negsuc d) = ground arith

-- One test of the chain: it cuts the line behind its first word, and compares that word.
cmd_comp_lem :
    (w rest name chars : List ℕ)
    → IsWord (b' ') w
    → IsText name
    → Starts w rest chars
    → (b : Bool) × (cmd_comp chars (c_string name []) ≡ some (b, c_string w rest))
      × ((b ≡ true) ↔ (w ≡ name))
unfolding cmd_comp
cmd_comp_lem w rest name chars hw hn starts =
    let s = strcmp-IsZero_iff w name rest [] (IsWord-IsText w hw) hn in
    let i = is_zero_iff s.0 in
    (is_zero s.0, rw ((strtok_starts starts).1, s.1), (λ t. s.2.0 (i.0 t), λ e. i.1 (s.2.1 e)))
  where
    strtok_starts :
        {cs : List ℕ}
        → Starts w rest cs
        → (t : Option ℕ) × (strtok (some 0) (b' ' ∷ 0 ∷ []) (record { buffer = cs; next = none })
            ≡ some (some 0, record { buffer = c_string w rest; next = t }))
    strtok_starts by_space = (_, strtok-word w rest (b' ') none (omega arith) (omega arith) hw)
    strtok_starts by_end = (_, strtok-last w rest (b' ') none (omega arith) (omega arith) hw)

text_discrete : Discrete (List ℕ)
text_discrete = hlevel ℕ_discrete

-- The first command of that name.
unfoldable pub named : List (List ℕ × Command) → List ℕ → Command
unfolding text_discrete
named [] [] = blank
named [] (c ∷ w) = unknown
named ((name, command) ∷ names) w = elim (text_discrete w name) [
  | yes e ↦ command
  | no d ↦ named names w
]

abbrev AreTexts : List (List ℕ × Command) → Type 0
AreTexts = All (λ n. IsText n.0)

choose_tail :
    (names : List (List ℕ × Command)) (w rest : List ℕ)
    → AreTexts names
    → IsWord (b' ') w
    → choose names (c_string w rest) ≡ some (named names w, c_string w rest)
unfolding choose named
choose_tail [] [] rest hn hw = refl
choose_tail [] (c ∷ w) rest hn hw = let f : (c == 0) ≡ false = ground (arith, hw.0.0) in rw f
choose_tail ((name, command) ∷ names) w rest hn hw =
    let t = cmd_comp_lem w rest name (c_string w rest) hw hn.0 by_end in
    rw t.1 (by_test t.0 (text_discrete w name) t.2 (choose_tail names w rest hn.1 hw))
  where
    by_test :
        (b : Bool) (d : Dec (w ≡ name))
        → (b ≡ true) ↔ (w ≡ name)
        → choose names (c_string w rest) ≡ some (named names w, c_string w rest)
        → (if b then some (command, c_string w rest) else choose names (c_string w rest))
          ≡ some (elim d [ yes e ↦ command | no d ↦ named names w ], c_string w rest)
    by_test true (yes e) i ih = refl
    by_test true (no d) i ih = absurd (d (i.0 refl))
    by_test false (yes e) i ih = cc (i.1 e)
    by_test false (no d) i ih = ih

-- A line calls the command that its first word names; a line that is empty or starts with a space
-- calls none. The space behind the word becomes a terminator, so that the rest of the line is a text
-- of its own.
pub choose-named :
    (w rest chars : List ℕ)
    → IsWord (b' ') w
    → Starts w rest chars
    → choose commands chars ≡ some (named commands w, c_string w rest)
unfolding choose named
choose-named w rest chars hw starts =
    let t = cmd_comp_lem w rest (codes "version") chars hw first_text starts in
    rw t.1 (
      by_test t.0 (text_discrete w (codes "version")) t.2
        (choose_tail (drop 1 commands) w rest other_texts hw))
  where
    first_text : IsText (codes "version")
    first_text = omega arith

    other_texts : AreTexts (drop 1 commands)
    other_texts = omega arith

    by_test :
        (b : Bool) (d : Dec (w ≡ codes "version"))
        → (b ≡ true) ↔ (w ≡ codes "version")
        → choose (drop 1 commands) (c_string w rest)
          ≡ some (named (drop 1 commands) w, c_string w rest)
        → (if b
            then some (version, c_string w rest)
            else choose (drop 1 commands) (c_string w rest))
          ≡ some (elim d [ yes e ↦ version | no d ↦ named (drop 1 commands) w ], c_string w rest)
    by_test true (yes e) i ih = refl
    by_test true (no d) i ih = absurd (d (i.0 refl))
    by_test false (yes e) i ih = cc (i.1 e)
    by_test false (no d) i ih = ih
