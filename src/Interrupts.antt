-- ===== src/Interrupts.antt =====
-- kernel/int/interrupts.c: the interrupt table, the masks of the two interrupt controllers, the timer's
-- divisor, and the handlers. A write to a port is a pair of port and value; what a port gives is an
-- argument. The assembly stubs are their addresses.
pub mod Gates
pub mod Masks
pub mod Timer
pub mod Entry
mod Tests
use system.Common.{
  List, [], bit_and, if◌then◌else◌, leb, ltb, set, suc, zero, ℕ, ℤ, ◌%◌, ◌*◌, ◌++◌, ◌+◌, ◌-◌, ◌/◌,
  ◌==◌, ◌^◌, ◌∷◌,
}
use system.Ata.{err_failed}
use system.Keyboard.{Keyboard, keyboardirqh}

-- `idt_entry_t`.
pub record Gate : Type 0 where
  pub offset_low : ℕ
  pub selector : ℕ
  pub zero_byte : ℕ
  pub type_attr : ℕ
  pub offset_high : ℕ

pub record PortWrite : Type 0 where
  pub port : ℕ
  pub value : ℕ

abbrev pub out : (port value : ℕ) → PortWrite
out port value = record { port = port; value = value }

-- The statics of the file.
pub record Interrupts : Type 0 where
  pub idt : List Gate
  pub limit : ℕ
  pub base : ℕ
  pub master_mask : ℕ
  pub slave_mask : ℕ
  pub ticks : ℕ

-- The addresses of the stubs, and of the table.
pub record Stubs : Type 0 where
  pub default_stub : ℕ
  pub isr0_stub : ℕ
  pub irq0_stub : ℕ
  pub irq1_stub : ℕ
  pub syscall_stub : ℕ
  pub idt_address : ℕ

abbrev pub idt_size : ℕ
idt_size = 256

abbrev pub pic1_cmd : ℕ
pic1_cmd = 0x20

abbrev pub pic1_data : ℕ
pic1_data = 0x21

abbrev pub pic2_cmd : ℕ
pic2_cmd = 0xA0

abbrev pub pic2_data : ℕ
pic2_data = 0xA1

-- What `pitsetfreq` writes; the divisor is a `uint16_t`.
pub pitsetfreq : ℕ → List PortWrite
pitsetfreq hz =
    let div = 1193182 / hz % 2 ^ 16 in
    if hz == 0 then [] else out 0x43 0x36 ∷ out 0x40 (div % 256) ∷ out 0x40 (div / 2 ^ 8 % 256) ∷ []

-- `a1` and `a2` are the masks that the controllers had.
pub pic_remap : (offset1 offset2 a1 a2 : ℕ) → Interrupts → Interrupts × List PortWrite
pic_remap offset1 offset2 a1 a2 s = (
  record s { master_mask = a1; slave_mask = a2 },
  out pic1_cmd 0x11
      ∷ out pic2_cmd 0x11
      ∷ out pic1_data offset1
      ∷ out pic2_data offset2
      ∷ out pic1_data 4
      ∷ out pic2_data 2
      ∷ out pic1_data 0x01
      ∷ out pic2_data 0x01
      ∷ out pic1_data a1
      ∷ out pic2_data a2
      ∷ [],
)

pub pic_setm : (mask1 mask2 : ℕ) → Interrupts → Interrupts × List PortWrite
pic_setm mask1 mask2 s = (
  record s { master_mask = mask1; slave_mask = mask2 },
  out pic1_data mask1 ∷ out pic2_data mask2 ∷ [],
)

-- The low byte of `~(1 << k)` has no bit clear from 8 on.
pub pic_unm : ℕ → Interrupts → Interrupts × List PortWrite
pic_unm irq s =
    let mask1 = bit_and s.master_mask (255 - 2 ^ irq % 256) in
    let mask2 = bit_and s.slave_mask (255 - 2 ^ (irq - 8) % 256) in
    if ltb irq 8
    then (record s { master_mask = mask1 }, out pic1_data mask1 ∷ [])
    else (record s { slave_mask = mask2 }, out pic2_data mask2 ∷ [])

pub pic_eoi : ℕ → List PortWrite
pic_eoi irq =
    if leb 8 irq then out pic2_cmd 0x20 ∷ out pic1_cmd 0x20 ∷ [] else out pic1_cmd 0x20 ∷ []

pub gate : ℕ → Gate
gate handler = record {
  offset_low = handler % 2 ^ 16;
  selector = 0x08;
  zero_byte = 0;
  type_attr = 0x8E;
  offset_high = handler / 2 ^ 16 % 2 ^ 16;
}

-- `n` is a `uint8_t`.
pub setgate : (n handler : ℕ) → List Gate → List Gate
setgate n handler idt = set idt (n % 256) (gate handler)

-- The first loop of `int_init`: `n` gates from gate `i` on.
pub set_gates : (handler n i : ℕ) → List Gate → List Gate
set_gates handler zero i idt = idt
set_gates handler (suc n) i idt = set_gates handler n (i + 1) (setgate i handler idt)

pub set_table : Stubs → List Gate → List Gate
set_table stubs idt = setgate 0x80 stubs.syscall_stub (
    setgate 0x21 stubs.irq1_stub (
      setgate 0x20 stubs.irq0_stub
        (setgate 0x00 stubs.isr0_stub (set_gates stubs.default_stub idt_size 0 idt))))

pub int_init : Stubs → (a1 a2 : ℕ) → Interrupts → Interrupts × List PortWrite
int_init stubs a1 a2 s =
    let (s1, writes1) = pic_remap 0x20 0x28 a1 a2 s in
    let (s2, writes2) = pic_setm 0xFC 0xFF s1 in
    (
      record s2 { idt = set_table stubs s.idt; limit = 8 * idt_size - 1; base = stubs.idt_address },
      writes1 ++ writes2,
    )

-- The timer and the keyboard interrupt. `ticks` is a 32-bit word.
pub irq0h : Interrupts → Interrupts × List PortWrite
irq0h s = (record s { ticks = (s.ticks + 1) % 2 ^ 32 }, pic_eoi 0)

pub irq1h : (status sc : ℕ) → Keyboard → Keyboard × List PortWrite
irq1h status sc k = (keyboardirqh status sc k, pic_eoi 1)

-- The texts of `syscallh`.
pub data Notice : Type 0 where
  just_a_test another_test : Notice

-- What it prints, and what it returns; the cases fall through.
pub syscallh : ℕ → List Notice × ℤ
syscallh num =
    if num == 0
    then (just_a_test ∷ another_test ∷ [], err_failed)
    else if num == 1
    then (another_test ∷ [], err_failed)
    else ([], err_failed)
