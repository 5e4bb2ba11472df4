-- ===== src/Vga/Cursor.antt =====
-- The cursor stays on the screen, and a text lies in its cells.
use native.Mathlib.Decide.{dec_lt}
use system.Common.{
  List, refl, ℕ, Bool-cases, arith, false, inl, inr, leb, length, length-set, set, suc, zero, ◌*◌,
  ◌+◌, ◌<◌, ◌==◌, ◌∙◌, ◌≡◌, ◌≢◌, All, [], get_or, if◌then◌else◌, ltb, ◌%◌, ◌&&◌, ◌-◌, ◌/◌, ◌∷◌,
  get_or-set,
}
use system.Vga.{Vga, eputchar, clear_cells, eclear, next_cell, put_cell, eprintf, placed, within}

pub record IsOnScreen (s : Vga) : Type 0 where
  pub bytes : length s.video ≡ 4000
  pub column : s.cursor_x < 80
  pub row : s.cursor_y < 25

length-clear_cells :
    (n : ℕ) (video : List ℕ) (i : ℕ) → length (clear_cells video n i) ≡ length video
unfolding clear_cells
length-clear_cells zero video i = refl
length-clear_cells (suc n) video i =
    length-clear_cells n (set (set video i b' ') (i + 1) 0x07) (i + 2)
    ∙ length-set (set video i b' ') (i + 1) 0x07
    ∙ length-set video i b' '

length-put_cell : (c : ℕ) (s : Vga) → length (put_cell c s).video ≡ length s.video
unfolding put_cell
length-put_cell c s = length-set (set s.video _ c) _ 0x07 ∙ length-set s.video _ c

placed-inside :
    (c : ℕ) (s : Vga)
    → IsOnScreen s
    → (length (placed c s).video ≡ 4000) × ((placed c s).cursor_x < 80)
unfolding placed next_cell
placed-inside c s on = elim (Bool-cases (c == 10)) [
  | inl e ↦ rw e (on.bytes, omega arith)
  | inr e ↦
      let len = length-put_cell c s ∙ on.bytes in
      elim (Bool-cases (leb 80 ((put_cell c s).cursor_x + 1))) [
        | inl w ↦ rw (e, w) (len, omega arith)
        | inr w ↦ rw (e, w) (len, ground arith)
      ]
]

within-IsOnScreen : (s : Vga) → length s.video ≡ 4000 → s.cursor_x < 80 → IsOnScreen (within s).0
unfolding within eclear
within-IsOnScreen s len x = elim (Bool-cases (leb 25 s.cursor_y)) [
  | inl e ↦ rw e (record {
    bytes = length-clear_cells 2000 s.video 0 ∙ len;
    column = omega arith;
    row = omega arith;
  })
  | inr e ↦ rw e (record { bytes = len; column = x; row = ground arith })
]

-- Every character leaves the cursor and the bytes of the screen inside it, also a character in the
-- last cell and a line break in the last row.
pub eputchar-IsOnScreen : (c : ℕ) (s : Vga) → IsOnScreen s → IsOnScreen (eputchar c s).0
unfolding eputchar
eputchar-IsOnScreen c s on = let p = placed-inside c s on in within-IsOnScreen (placed c s) p.0 p.1

-- The number of the cursor's cell.
abbrev pub cell : Vga → ℕ
cell s = s.cursor_y * 80 + s.cursor_x

eputchar-plain :
    (c : ℕ) (s : Vga)
    → IsOnScreen s
    → c ≢ 10
    → cell s < 1999
    → ((eputchar c s).0.video ≡ set (set s.video (cell s * 2) c) (cell s * 2 + 1) 0x07)
      × (cell (eputchar c s).0 ≡ cell s + 1)
unfolding eputchar placed within put_cell next_cell
eputchar-plain c s on ne lt =
    let f : (c == 10) ≡ false = ground arith in
    elim (Bool-cases (leb 80 (s.cursor_x + 1))) [
      | inl e ↦
          let l : leb 25 (s.cursor_y + 1) ≡ false = ground (arith, on.column, on.row) in
          rw (f, e, l) (refl, ground (arith, on.column))
      | inr e ↦
          let l : leb 25 s.cursor_y ≡ false = ground (arith, on.row) in
          rw (f, e, l) (refl, omega arith)
    ]

-- A byte of the screen, with the first character in its cell.
cell_byte :
    (p c : ℕ) (text video : List ℕ) (j : ℕ)
    → p * 2 + 1 < length video
    → (if leb (2 * (p + 1)) j && ltb j (2 * (p + 1 + length text))
        then if j % 2 == 0 then get_or text (j / 2 - (p + 1)) 0 else 7
        else get_or (set (set video (p * 2) c) (p * 2 + 1) 7) j 0)
      ≡ (if leb (2 * p) j && ltb j (2 * (p + suc (length text)))
          then if j % 2 == 0 then get_or (c ∷ text) (j / 2 - p) 0 else 7
          else get_or video j 0)
cell_byte p c text video j h =
    rw
      (
        get_or-set (set video (p * 2) c) (p * 2 + 1) j 7 0
            (omega (arith, length-set video (p * 2) c)),
        get_or-set video (p * 2) j c 0 (omega arith),
      )
      (elim (dec_lt j (2 * (p + 1))) [
        | yes l ↦ elim (dec_lt j (2 * p)) [
          | yes l2 ↦ ground arith
          | no nl2 ↦ let z : j / 2 - p ≡ 0 = omega arith in rw z (ground arith)
        ]
        | no nl ↦ let e : j / 2 - p ≡ suc (j / 2 - (p + 1)) = omega arith in rw e (ground arith)
      ])

-- A text without line breaks that ends before the last cell is in the cells from the cursor on, each
-- with the attribute 7; every other byte of the screen is kept, and the cursor is behind the text.
pub eprintf-cells :
    (text : List ℕ) (s : Vga)
    → IsOnScreen s
    → All (λ c. c ≢ 10) text
    → cell s + length text < 2000
    → (cell (eprintf text s) ≡ cell s + length text)
      × ((j : ℕ)
          → get_or (eprintf text s).video j 0 ≡ (
              if leb (2 * cell s) j && ltb j (2 * (cell s + length text))
              then if j % 2 == 0 then get_or text (j / 2 - cell s) 0 else 7
              else get_or s.video j 0))
unfolding eprintf
eprintf-cells [] s on plain lt = (omega arith, λ j. ground arith)
eprintf-cells (c ∷ text) s on plain lt =
    let first = eputchar-plain c s on plain.0 (omega arith) in
    let rest =
      eprintf-cells text (eputchar c s).0 (eputchar-IsOnScreen c s on) plain.1
        (omega (arith, first.1)) in
    (
      omega (arith, rest.0, first.1),
      λ j.
          rest.1 j
          ∙ rw (first.1, first.0) (cell_byte (cell s) c text s.video j (omega (arith, on.bytes))),
    )
