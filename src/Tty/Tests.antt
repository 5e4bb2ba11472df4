-- ===== src/Tty/Tests.antt =====
-- Tests of the terminal, and its theorems at concrete cursors.
use system.Common.{[], arith, refl, ◌%◌, ◌*◌, ◌+◌, ◌/◌, ◌∷◌, ◌≡◌}
use system.Fb.{FbInfo}
use system.Fbcon.{bgc}
use system.Tty.{
  Tty, move, new_line, strokes, tab, tty_puts, wrap_at, draw, paint, tty_clear, tty_init, tty_putc,
  home,
}
use system.Tty.Cursor.{IsValid, cell, cell-move_newline, cells, tty_puts_plain}

abbrev start : Tty
start = record { cx = 0; cy = 0 }

-- The last cell of the first row.
abbrev corner : Tty
corner = record { cx = 1431; cy = 0 }

abbrev second : Tty
second = record { cx = 9; cy = 16 }

abbrev small : FbInfo
small = record { addr = 4096; width = 20; height = 20; pitch = 80; bpp = 32 }

corner_wraps : move corner b'x' ≡ record { cx = 0; cy = 16 }
unfolding move wrap_at new_line
corner_wraps = refl

second_tab : move second 9 ≡ second
unfolding move tab wrap_at
second_tab = refl

corner-IsValid : IsValid corner
corner-IsValid = omega arith

second-IsValid : IsValid second
second-IsValid = omega arith

cell-move_newline_example : cell (move second 10) ≡ (cell second / 160 + 1) % 50 * 160
cell-move_newline_example = cell-move_newline second second-IsValid

tty_puts_plain_example :
    IsValid (tty_puts small (b'h' ∷ b'i' ∷ []) (corner, λ _. 0)).0
    × (cell (tty_puts small (b'h' ∷ b'i' ∷ []) (corner, λ _. 0)).0 ≡ (cell corner + 2) % cells)
tty_puts_plain_example =
    tty_puts_plain small (b'h' ∷ b'i' ∷ []) corner (λ _. 0) corner-IsValid (refl, (refl, tt))

clears : (tty_clear small (λ _. 0)).0 ≡ home
unfolding tty_clear
clears = refl

initialises : (tty_init 0 small (λ _. 0)).1 ≡ home
unfolding tty_init
initialises = refl

-- The return only draws the cursor.
paints :
    (tty_putc small 13 (corner, λ _. 0)).1
    ≡ paint small (draw 1431 0 8 bgc ∷ draw 1440 0 b'_' 0xFFFFFFFF ∷ []) (λ _. 0)
unfolding tty_putc paint strokes
paints = refl
