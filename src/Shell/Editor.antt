-- ===== src/Shell/Editor.antt =====
-- The line editor against a text that grows at its end.
use mathlib.Core.List.{append_assoc}
use mathlib.Core.Path.{subst}
use system.Common.{
  List, [], ◌∷◌, ◌++◌, ℕ, length, take, drop, set, ◌≡◌, ◌≤◌, ◌<◌, arith, Option, ap, if◌then◌else◌,
  leb, none, refl, some, suc, ◌-◌, ◌==◌, ==_iff, All-append, Bool-cases, drop-append, false, inl,
  inr, length-append, length-set, length-take, ltb, sym, take-append, true, zero, ◌+◌, ◌∙◌,
}
use system.CString.Text.{IsText, c_string}
use system.Shell.{Line, fresh, Editing, complete, key, more, Entered, read_line}

-- The text typed so far; a backspace takes its last character away.
abbrev pub shorter : List ℕ → List ℕ
shorter text = take (length text - 1) text

pub data Typing : Type 0 where
  goes_on : List ℕ → Typing
  ends : List ℕ → Typing

-- One key. At 127 characters any other key ends the line, and is lost.
unfoldable pub type_key : ℕ → List ℕ → Typing
type_key c text =
    if c == 8
    then goes_on (shorter text)
    else if leb 127 (length text)
    then ends text
    else if c == 10
    then ends text
    else goes_on (text ++ (c ∷ []))

unfoldable pub type_line : List ℕ → List ℕ → Option (List ℕ × List ℕ)
type_line [] text = none
type_line (c ∷ keys) text = elim (type_key c text) [
  | goes_on text' ↦ type_line keys text'
  | ends text' ↦ some (text', keys)
]

-- The buffer holds the text in its first `i` bytes.
pub record Holds (l : Line) (text : List ℕ) : Type 0 where
  pub buffer : length l.chars ≡ 128
  pub count : l.i ≡ length text
  pub room : length text ≤ 127
  pub typed : take (length text) l.chars ≡ text
  pub no_zero : IsText text

-- A complete line holds the text and its terminator.
abbrev pub HoldsLine : List ℕ → List ℕ → Type 0
HoldsLine chars text =
    (length chars ≡ 128) × (chars ≡ c_string text (drop (suc (length text)) chars)) × IsText text

set-at :
    (xs text : List ℕ) (v : ℕ)
    → length text < length xs
    → take (length text) xs ≡ text
    → set xs (length text) v ≡ text ++ (v ∷ drop (suc (length text)) xs)
set-at [] text v h e = absurd (omega arith)
set-at (x ∷ xs) [] v h e = refl
set-at (x ∷ xs) (t ∷ text) v h e =
    let e1 : x ≡ t = cc in
    let e2 : take (length text) xs ≡ text = cc in
    rw e1 (ap (◌∷◌ t) (set-at xs text v (omega arith) e2))

Holds-fresh : Holds fresh []
unfolding fresh
Holds-fresh = record { buffer = refl; count = refl; room = omega arith; typed = refl; no_zero = tt }

take-take : (m n : ℕ) (xs : List ℕ) → n ≤ m → take n (take m xs) ≡ take n xs
take-take m zero xs h = refl
take-take zero (suc n) xs h = absurd (omega arith)
take-take (suc m) (suc n) [] h = refl
take-take (suc m) (suc n) (x ∷ xs) h = ap (◌∷◌ x) (take-take m n xs (omega arith))

IsText-take : (n : ℕ) (text : List ℕ) → IsText text → IsText (take n text)
IsText-take zero text h = tt
IsText-take (suc n) [] h = tt
IsText-take (suc n) (c ∷ text) h = (h.0, IsText-take n text h.1)

length-shorter : (text : List ℕ) → length (shorter text) ≡ length text - 1
length-shorter text = omega (arith, length-take (length text - 1) text)

abbrev pub Matches : Editing → Typing → Type 0
Matches (more l) (goes_on text) = Holds l text
Matches (complete chars) (ends text) = HoldsLine chars text
Matches (more l) (ends text) = ⊥
Matches (complete chars) (goes_on text) = ⊥

module _ (l : Line) (text : List ℕ) (v : Holds l text) where
  back_Holds : Holds (record l { i = l.i - 1 }) (shorter text)
  back_Holds = record {
    buffer = v.buffer;
    count = omega (arith, v.count, length-shorter text);
    room = omega (arith, v.room, length-shorter text);
    typed =
        ap (λ n. take n l.chars) (length-shorter text)
        ∙ sym (take-take (length text) (length text - 1) l.chars (omega arith))
        ∙ ap (take (length text - 1)) v.typed;
    no_zero = IsText-take (length text - 1) text v.no_zero;
  }

  empty_Holds : l.i ≡ 0 → Holds l (shorter text)
  empty_Holds z = subst (Holds l) (sym (nothing text (sym v.count ∙ z))) v
    where
      nothing : (t : List ℕ) → length t ≡ 0 → shorter t ≡ t
      nothing [] h = refl
      nothing (c ∷ t) h = absurd (omega arith)

  set_i :
      (xs : List ℕ) (c : ℕ)
      → length xs ≡ 128
      → take (length text) xs ≡ text
      → set xs l.i c ≡ text ++ (c ∷ drop (suc (length text)) xs)
  set_i xs c b e = ap (λ n. set xs n c) v.count ∙ set-at xs text c (omega (arith, v.room)) e

  typed_Holds :
      (c : ℕ)
      → 0 < c
      → length text < 127
      → Holds (record l { chars = set l.chars l.i c; i = l.i + 1 }) (text ++ (c ∷ []))
  typed_Holds c pos_c lt = record {
    buffer = length-set l.chars l.i c ∙ v.buffer;
    count = omega (arith, v.count, longer);
    room = omega (arith, longer);
    typed =
        ap (take (length (text ++ (c ∷ [])))) (
          set_i l.chars c v.buffer v.typed
          ∙ sym (append_assoc text (c ∷ []) (drop (suc (length text)) l.chars)))
        ∙ take-append (text ++ (c ∷ [])) (drop (suc (length text)) l.chars)
            (length (text ++ (c ∷ []))) refl;
    no_zero = All-append (λ c. 0 < c) text (c ∷ []) v.no_zero (pos_c, tt);
  }
    where
      longer : length (text ++ (c ∷ [])) ≡ length text + 1
      longer = omega (arith, length-append text (c ∷ []))

  end_HoldsLine :
      (xs : List ℕ) → length xs ≡ 128 → take (length text) xs ≡ text → HoldsLine (set xs l.i 0) text
  end_HoldsLine xs b e = (
    length-set xs l.i 0 ∙ b,
    at_end
        ∙ ap (c_string text) (sym (drop_end (set xs l.i 0) (drop (suc (length text)) xs) at_end)),
    v.no_zero,
  )
    where
      at_end : set xs l.i 0 ≡ c_string text (drop (suc (length text)) xs)
      at_end = set_i xs 0 b e

      drop_end : (ys rest : List ℕ) → ys ≡ c_string text rest → drop (suc (length text)) ys ≡ rest
      drop_end ys rest q =
          ap (drop (suc (length text))) (q ∙ sym (append_assoc text (0 ∷ []) rest))
          ∙ drop-append (text ++ (0 ∷ [])) rest (suc (length text))
              (omega (arith, length-append text (0 ∷ [])))

  newline_typed : take (length text) (set l.chars l.i 10) ≡ text
  newline_typed =
      ap (take (length text)) (set_i l.chars 10 v.buffer v.typed)
      ∙ take-append text (10 ∷ drop (suc (length text)) l.chars) (length text) refl

  -- One key does to the buffer what it does to the text.
  pub key-Matches : (c : ℕ) → 0 < c → Matches (key c l).0 (type_key c text)
  unfolding key type_key
  key-Matches c pos_c = elim (Bool-cases (c == 8)) [
    | inl back ↦ elim (Bool-cases (ltb 0 l.i)) [
      | inl some_text ↦ rw (back, some_text) back_Holds
      | inr no_text ↦ rw (back, no_text) (empty_Holds (ground arith))
    ]
    | inr other ↦ elim (Bool-cases (leb 127 l.i)) [
      | inl full ↦
          let full' : leb 127 (length text) ≡ true = rw v.count at full in
          rw (other, full, full') (end_HoldsLine l.chars v.buffer v.typed)
      | inr free ↦
          let free' : leb 127 (length text) ≡ false = rw v.count at free in
          elim (Bool-cases (c == 10)) [
            | inl newline ↦
                let e : c ≡ 10 = (==_iff c 10).0 newline in
                rw (other, free, free', newline)
                  (subst (λ d. HoldsLine (set (set l.chars l.i d) l.i 0) text) (sym e)
                    (end_HoldsLine (set l.chars l.i 10) (length-set l.chars l.i 10 ∙ v.buffer)
                      newline_typed))
            | inr plain ↦ rw (other, free, free', plain) (typed_Holds c pos_c (ground arith))
          ]
    ]
  ]

abbrev pub LineMatches : Option Entered → Option (List ℕ × List ℕ) → Type 0
LineMatches none none = Unit
LineMatches (some e) (some (text, keys)) = HoldsLine e.line text × (e.keys ≡ keys)
LineMatches none (some r) = ⊥
LineMatches (some e) none = ⊥

-- Read into a buffer that holds the text so far, the keys leave the line that the text becomes by
-- them, in a terminated buffer of 128 bytes, and the same keys behind it.
pub read_line-LineMatches :
    (keys : List ℕ) (l : Line) (text echo : List ℕ)
    → IsText keys
    → Holds l text
    → LineMatches (read_line keys l echo) (type_line keys text)
unfolding read_line type_line
read_line-LineMatches [] l text echo ks v = tt
read_line-LineMatches (c ∷ keys) l text echo ks v =
    by_key (key c l).0 (type_key c text) (key-Matches l text v c ks.0)
      (λ l' text' v'. read_line-LineMatches keys l' text' (echo ++ (key c l).1) ks.1 v')
  where
    by_key :
        (e : Editing) (t : Typing)
        → Matches e t
        → ((l' : Line) (text' : List ℕ)
            → Holds l' text'
            → LineMatches (read_line keys l' (echo ++ (key c l).1)) (type_line keys text'))
        → LineMatches
            (elim e [
              | more l' ↦ read_line keys l' (echo ++ (key c l).1)
              | complete chars ↦
                  some (record { line = chars; echo = echo ++ (key c l).1; keys = keys })
            ])
            (elim t [ goes_on text' ↦ type_line keys text' | ends text' ↦ some (text', keys) ])
    by_key (more l') (goes_on text') m rest = rest l' text' m
    by_key (complete chars) (ends text') m rest = (m, refl)
    by_key (more l') (ends text') m rest = absurd m
    by_key (complete chars) (goes_on text') m rest = absurd m

-- The line that the shell reads from its fresh buffer is the text that the keys type, ended by the
-- enter key or by the first key but a backspace behind 127 characters; the buffer of 128 bytes holds
-- it with its terminator.
pub read_line-type_line :
    (keys : List ℕ) → IsText keys → LineMatches (read_line keys fresh []) (type_line keys [])
read_line-type_line keys ks = read_line-LineMatches keys fresh [] [] ks Holds-fresh
