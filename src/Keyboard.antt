-- ===== src/Keyboard.antt =====
-- kernel/drivers/keyboard.c: the keyboard interrupt handler and the ring of typed characters that it
-- shares with `get_key`. What the handler reads from the ports 0x64 and 0x60 is its arguments.
pub mod Ring
pub mod Queue
mod Tests
use system.Common.{
  Bool, List, Option, bit_and, false, get_or, if◌then◌else◌, none, not, replicate, set, some, true,
  ℕ, ◌%◌, ◌+◌, ◌==◌, ◌||◌, ◌∷◌,
}

abbrev pub kbdbuf : ℕ
kbdbuf = 256

-- The two tables have 128 entries; those that the initialiser leaves out are 0.
pub kbdus : List ℕ
kbdus =
    0
    ∷ 27
    ∷ b'1'
    ∷ b'2'
    ∷ b'3'
    ∷ b'4'
    ∷ b'5'
    ∷ b'6'
    ∷ b'7'
    ∷ b'8'
    ∷ b'9'
    ∷ b'0'
    ∷ b'-'
    ∷ b'='
    ∷ 8
    ∷ 9
    ∷ b'q'
    ∷ b'w'
    ∷ b'e'
    ∷ b'r'
    ∷ b't'
    ∷ b'y'
    ∷ b'u'
    ∷ b'i'
    ∷ b'o'
    ∷ b'p'
    ∷ b'['
    ∷ b']'
    ∷ 10
    ∷ 0
    ∷ b'a'
    ∷ b's'
    ∷ b'd'
    ∷ b'f'
    ∷ b'g'
    ∷ b'h'
    ∷ b'j'
    ∷ b'k'
    ∷ b'l'
    ∷ b';'
    ∷ 39
    ∷ b'`'
    ∷ 0
    ∷ 92
    ∷ b'z'
    ∷ b'x'
    ∷ b'c'
    ∷ b'v'
    ∷ b'b'
    ∷ b'n'
    ∷ b'm'
    ∷ b','
    ∷ b'.'
    ∷ b'/'
    ∷ 0
    ∷ b'*'
    ∷ 0
    ∷ b' '
    ∷ 0
    ∷ replicate 69 0

pub kbdus_shift : List ℕ
kbdus_shift =
    0
    ∷ 27
    ∷ b'!'
    ∷ b'@'
    ∷ b'#'
    ∷ b'$'
    ∷ b'%'
    ∷ b'^'
    ∷ b'&'
    ∷ b'*'
    ∷ b'('
    ∷ b')'
    ∷ b'_'
    ∷ b'+'
    ∷ 8
    ∷ 9
    ∷ b'Q'
    ∷ b'W'
    ∷ b'E'
    ∷ b'R'
    ∷ b'T'
    ∷ b'Y'
    ∷ b'U'
    ∷ b'I'
    ∷ b'O'
    ∷ b'P'
    ∷ b'{'
    ∷ b'}'
    ∷ 10
    ∷ 0
    ∷ b'A'
    ∷ b'S'
    ∷ b'D'
    ∷ b'F'
    ∷ b'G'
    ∷ b'H'
    ∷ b'J'
    ∷ b'K'
    ∷ b'L'
    ∷ b':'
    ∷ 34
    ∷ b'~'
    ∷ 0
    ∷ b'|'
    ∷ b'Z'
    ∷ b'X'
    ∷ b'C'
    ∷ b'V'
    ∷ b'B'
    ∷ b'N'
    ∷ b'M'
    ∷ b'<'
    ∷ b'>'
    ∷ b'?'
    ∷ 0
    ∷ b'*'
    ∷ 0
    ∷ b' '
    ∷ 0
    ∷ replicate 69 0

-- The statics of the file.
pub record Keyboard : Type 0 where
  pub kbd_buffer : List ℕ
  pub kbd_head : ℕ
  pub kbd_tail : ℕ
  pub shift : Bool

-- The end of the handler: a character goes into the ring unless it is 0 or the ring is full.
pub put : Keyboard → ℕ → Keyboard
put k c =
    let next = (k.kbd_head + 1) % kbdbuf in
    if c == 0
    then k
    else if next == k.kbd_tail
    then k
    else record k { kbd_buffer = set k.kbd_buffer k.kbd_head c; kbd_head = next }

pub keyboardirqh : (status sc : ℕ) → Keyboard → Keyboard
keyboardirqh status sc k =
    if bit_and status 1 == 0
    then k
    else if sc == 0x2A || sc == 0x36
    then record k { shift = true }
    else if sc == 0xAA || sc == 0xB6
    then record k { shift = false }
    else if not (bit_and sc 0x80 == 0)
    then k
    else put k (if k.shift then get_or kbdus_shift sc 0 else get_or kbdus sc 0)

-- The character that goes through the pointer, or `none` where the function returns 0.
pub get_key : Keyboard → Option ℕ × Keyboard
get_key k = if k.kbd_head == k.kbd_tail then (none, k) else (
  some (get_or k.kbd_buffer k.kbd_tail 0),
  record k { kbd_tail = (k.kbd_tail + 1) % kbdbuf },
)

-- The statics are zero when the kernel starts.
abbrev pub boot : Keyboard
boot = record { kbd_buffer = replicate 256 0; kbd_head = 0; kbd_tail = 0; shift = false }
