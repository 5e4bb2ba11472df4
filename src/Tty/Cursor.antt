-- ===== src/Tty/Cursor.antt =====
-- The cursor of tty.c: where it may stand, and how it moves over the 160 by 50 cells of the screen.
use system.Common.{
  All, Bool, arith, not, true, ℕ, ◌%◌, ◌*◌, ◌+◌, ◌-◌, ◌/◌, ◌<◌, ◌==◌, ◌||◌, ◌↔◌, ◌≡◌, ◌≤◌, List, [],
  ap, length, ◌∷◌,
}
use system.Fb.{FbInfo, Memory}
use system.Fbcon.{char_h, char_w}
use system.Tty.{
  Draw, Tty, backspace, move, new_line, screen_height, screen_width, strokes, tab, wrap_at, paint,
  tty_putc, tty_puts,
}

pub record IsValid (t : Tty) : Type 0 where
  pub in_width : t.cx < screen_width
  pub in_height : t.cy < screen_height
  pub column : t.cx % char_w ≡ 0
  pub line : t.cy % char_h ≡ 0

-- A character that is drawn as a glyph and moves the cursor by one cell.
abbrev pub is_plain : ℕ → Bool
is_plain c = not (c == 10 || c == 8 || c == 9 || c == 13)

-- The number of the cell under the cursor, row by row.
abbrev pub cell : Tty → ℕ
cell t = t.cy / char_h * 160 + t.cx / char_w

abbrev pub cells : ℕ
cells = 8000

-- A cursor on a cell of the screen is on a cell after any character.
pub move-IsValid : (t : Tty) (c : ℕ) → IsValid t → IsValid (move t c)
unfolding move new_line wrap_at backspace tab
move-IsValid t c v = ground arith

-- What a character draws at a cursor on a cell starts on a cell of the screen, or just right of its
-- last column.
pub strokes-OnScreen :
    (t : Tty) (c : ℕ)
    → IsValid t
    → All (λ (d : Draw). (d.x ≤ screen_width) × (d.y + char_h ≤ screen_height)) (strokes t c)
unfolding strokes
strokes-OnScreen t c v = ground (arith, move-IsValid t c v)

-- A plain character moves on by one cell, from the last cell to the first.
pub cell-move_plain :
    (t : Tty) (c : ℕ) → IsValid t → is_plain c ≡ true → cell (move t c) ≡ (cell t + 1) % cells
unfolding move new_line wrap_at
cell-move_plain t c v p = ground arith

-- A newline goes to the start of the next row, from the last row to the first.
pub cell-move_newline : (t : Tty) → IsValid t → cell (move t 10) ≡ (cell t / 160 + 1) % 50 * 160
unfolding move new_line
cell-move_newline t v = ground arith

-- A backspace goes back by one cell, and stays on the first.
pub cell-move_backspace : (t : Tty) → IsValid t → cell (move t 8) ≡ cell t - 1
unfolding move backspace
cell-move_backspace t v = ground arith

-- A backspace undoes a plain character, unless the cursor was on the last cell.
pub backspace-move_plain :
    (t : Tty) (c : ℕ) → IsValid t → is_plain c ≡ true → cell t + 1 < cells → move (move t c) 8 ≡ t
unfolding move new_line wrap_at backspace
backspace-move_plain t c v p h = ground arith

-- With the cursor on a cell, a tab leaves it where it is exactly where the pixel column is 4 modulo
-- 5.
pub tab-stuck_iff : (t : Tty) → IsValid t → (move t 9 ≡ t) ↔ (t.cx % 5 ≡ 4)
unfolding move tab wrap_at new_line
tab-stuck_iff t v = (
  λ e. let f : (move t 9).cx ≡ t.cx = ap (λ (u : Tty). u.cx) e in ground arith,
  λ e. ground arith,
)

abbrev pub AllPlain : List ℕ → Type 0
AllPlain cs = All (λ c. is_plain c ≡ true) cs

-- Printing a text of plain characters moves a cursor on a cell by its length, round the screen, and
-- leaves it on a cell.
pub tty_puts_plain :
    (fb : FbInfo) (cs : List ℕ) (t : Tty) (mem : Memory)
    → IsValid t
    → AllPlain cs
    → IsValid (tty_puts fb cs (t, mem)).0
      × (cell (tty_puts fb cs (t, mem)).0 ≡ (cell t + length cs) % cells)
unfolding tty_puts tty_putc
tty_puts_plain fb [] t mem v p = (v, omega (arith, v.column, v.line, v.in_width, v.in_height))
tty_puts_plain fb (c ∷ cs) t mem v p =
    let f = tty_puts_plain fb cs (move t c) (paint fb (strokes t c) mem) (move-IsValid t c v) p.1 in
    (f.0, omega (arith, f.1, cell-move_plain t c v p.0))
