-- ===== src/Vga.antt =====
-- kernel/drivers/vga.c and kernel/drivers/tty_vtm.c: the text screen at 0xb8000, and
-- a terminal on it. The screen is its 4000 bytes; what goes to the ports of the cursor is the list of
-- writes. A write behind the list's end changes nothing; the modules show where the code stays inside.
pub mod Cursor
pub mod Queue
mod Tests
use system.Common.{
  Option, none, some, pos, List, ℕ, [], if◌then◌else◌, leb, set, suc, zero, ◌%◌, ◌*◌, ◌++◌, ◌+◌,
  ◌/◌, ◌==◌, ◌^◌, ◌∷◌, get_or, ltb, negsuc, replicate, ℤ, ◌-◌,
}
use system.CString.{widen}
use system.Interrupts.{PortWrite, out}

abbrev pub vga_width : ℕ
vga_width = 80

abbrev pub vga_height : ℕ
vga_height = 25

pub record Vga : Type 0 where
  pub video : List ℕ
  pub cursor_x : ℕ
  pub cursor_y : ℕ

-- The writes that place the cursor. The position is a 16-bit number.
pub ecursorsync : Vga → List PortWrite
ecursorsync s =
    let at_ = (s.cursor_y * vga_width + s.cursor_x) % 2 ^ 16 in
    out 0x3D4 0x0F ∷ out 0x3D5 (at_ % 2 ^ 8) ∷ out 0x3D4 0x0E ∷ out 0x3D5 (at_ / 2 ^ 8 % 2 ^ 8) ∷ []

-- `n` cells from byte `i` on.
pub clear_cells : List ℕ → (n i : ℕ) → List ℕ
clear_cells video zero i = video
clear_cells video (suc n) i = clear_cells (set (set video i b' ') (i + 1) 0x07) n (i + 2)

pub eclear : Vga → Vga
eclear s = record {
  video = clear_cells s.video (vga_width * vga_height) 0;
  cursor_x = 0;
  cursor_y = 0;
}

-- The cursor behind a character.
pub next_cell : Vga → Vga
next_cell s =
    if leb vga_width (s.cursor_x + 1)
    then record s { cursor_x = 0; cursor_y = s.cursor_y + 1 }
    else record s { cursor_x = s.cursor_x + 1 }

pub put_cell : ℕ → Vga → Vga
put_cell c s =
    let i = (s.cursor_y * vga_width + s.cursor_x) * 2 in
    record s { video = set (set s.video i c) (i + 1) 0x07 }

-- The character and the cursor, before the test for the last row.
pub placed : ℕ → Vga → Vga
placed c s =
    if c == 10
    then record s { cursor_x = 0; cursor_y = s.cursor_y + 1 }
    else next_cell (put_cell c s)

-- The screen, and the writes of `ecursorsync`, which come once more where the screen is cleared.
pub within : Vga → Vga × List PortWrite
within s =
    if leb vga_height s.cursor_y
    then (eclear s, ecursorsync (eclear s) ++ ecursorsync (eclear s))
    else (s, ecursorsync s)

pub eputchar : ℕ → Vga → Vga × List PortWrite
eputchar c s = within (placed c s)

-- A string is its characters in front of the terminator.
pub eprintf : List ℕ → Vga → Vga
eprintf [] s = s
eprintf (c ∷ cs) s = eprintf cs (eputchar c s).0

abbrev pub max_buf : ℕ
max_buf = 128

-- `tty_dev`. The field `l` is 1, or -1 when the device is closed.
pub record TtyDev : Type 0 where
  pub l : ℤ
  pub input_buf : List ℕ
  pub output_buf : List ℕ
  pub input_pos : ℕ
  pub output_pos : ℕ

pub l_init : TtyDev
l_init = record {
  l = pos 1;
  input_buf = replicate max_buf 0;
  output_buf = replicate max_buf 0;
  input_pos = 0;
  output_pos = 0;
}

-- The loop from `rw` on, `n` bytes in front of `len`: the device, the screen and the count.
pub write_from : (c : List ℕ) → (n rw : ℕ) → TtyDev → Vga → ℕ × TtyDev × Vga
write_from c zero rw td s = (rw, td, s)
write_from c (suc n) rw td s =
    let h = get_or c rw 0 in
    let td' = record td {
      output_buf = set td.output_buf td.output_pos h;
      output_pos = td.output_pos + 1;
    } in
    let rest = write_from c n (rw + 1) td' (eputchar h s).0 in
    if ltb td.output_pos max_buf then rest else (rw, td, s)

pub l_write : TtyDev → (c : List ℕ) → (len : ℕ) → Vga → ℕ × TtyDev × Vga
l_write td c len s = write_from c len 0 td s

-- The loop that moves `n` bytes forward, from byte `i` on.
pub move_from : List ℕ → (n i : ℕ) → List ℕ
move_from buf zero i = buf
move_from buf (suc n) i = move_from (set buf i (get_or buf (i + 1) 0)) n (i + 1)

-- The byte that is returned is widened to a word; an empty queue gives 1.
pub l_read : TtyDev → ℕ × TtyDev
l_read td = if td.input_pos == 0 then (1, td) else (
  widen (get_or td.input_buf 0 0),
  record td {
    input_buf = move_from td.input_buf (td.input_pos - 1) 0;
    input_pos = td.input_pos - 1;
  },
)

pub l_close : TtyDev → TtyDev
l_close td = record td { l = negsuc 0 }

-- 0x0720 in each of 2000 words, low byte first.
pub l_clear : Vga → Vga
l_clear s = record s { video = clear_cells s.video (80 * 25) 0 }

pub l_set_cur_p : (r d : ℕ) → List PortWrite
l_set_cur_p r d =
    let at_ = (r * 80 + d) % 2 ^ 16 in
    out 0x3D4 0x0F ∷ out 0x3D5 (at_ % 2 ^ 8) ∷ out 0x3D4 0x0E ∷ out 0x3D5 (at_ / 2 ^ 8 % 2 ^ 8) ∷ []

pub l_hide_cur : List PortWrite
l_hide_cur = out 0x3D4 0x0A ∷ out 0x3D5 0x20 ∷ []

pub l_show_cur : List PortWrite
l_show_cur = out 0x3D4 0x0A ∷ out 0x3D5 0x0E ∷ out 0x3D4 0x0B ∷ out 0x3D5 0x0F ∷ []

-- The static `l_mode`, which nothing reads: the result and the new value.
pub l_set_raw : (l_mode : ℕ) → ℤ × ℕ
l_set_raw l_mode = (pos 0, 1)

pub l_restore : (l_mode : ℕ) → ℤ × ℕ
l_restore l_mode = (pos 0, 0)

-- The wait for input: `input_pos k` is what read number `k` of the field gives, with an interrupt between
-- two reads. `none` where the fuel is out.
pub l_wait : (input_pos : ℕ → ℕ) → (fuel k : ℕ) → Option ℤ
l_wait input_pos zero k = none
l_wait input_pos (suc fuel) k =
    let rest = l_wait input_pos fuel (k + 1) in if input_pos k == 0 then rest else some (pos 0)
