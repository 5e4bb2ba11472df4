-- ===== src/Interrupts/Tests.antt =====
-- Tests of the interrupt set-up, and its theorems at concrete values.
use system.Common.{List, [], ◌∷◌, replicate, refl, ◌≡◌, arith, false, get_or, ◌↔◌, ◌≤◌}
use system.Interrupts.{
  Interrupts, Stubs, int_init, irq0h, irq1h, out, pic_eoi, syscallh, another_test, just_a_test,
  pic_remap, pic_setm, pic_unm,
}
use system.Interrupts.Gates.{int_init-stubs, no_gate, IsInterruptGate, handler_of}
use system.Interrupts.Masks.{
  calls-Agrees, pic_unm-is_masked, is_masked, remap, setm, unm, Agrees, MaskCall, calls,
}
use system.Interrupts.Timer.{Loads, pitsetfreq-Loads_iff}
use system.Keyboard.{boot}

abbrev cold : Interrupts
cold = record {
  idt = replicate 256 no_gate;
  limit = 0;
  base = 0;
  master_mask = 0xFF;
  slave_mask = 0xFF;
  ticks = 0xFFFFFFFF;
}

abbrev stubs : Stubs
stubs = record {
  default_stub = 0x10100;
  isr0_stub = 0x10104;
  irq0_stub = 0x10110;
  irq1_stub = 0x10120;
  syscall_stub = 0x10130;
  idt_address = 0x20000;
}

int_init-stubs_example :
    (handler_of (get_or (int_init stubs 0 0 cold).0.idt 0x21 no_gate) ≡ 0x10120)
    × IsInterruptGate (get_or (int_init stubs 0 0 cold).0.idt 0x21 no_gate)
int_init-stubs_example =
    int_init-stubs stubs 0 0 0x21 cold refl
      (omega arith, omega arith, omega arith, omega arith, omega arith) (omega arith)

-- Only the timer and the keyboard are unmasked.
masks_set : (int_init stubs 0 0 cold).0.master_mask ≡ 0xFC
unfolding int_init pic_remap pic_setm
masks_set = refl

pic_unm-is_masked_example : is_masked (pic_unm 12 cold).0 12 ≡ false
pic_unm-is_masked_example =
    pic_unm-is_masked 12 12 cold (omega arith) (omega arith) (omega arith, omega arith)

abbrev some_calls : List MaskCall
some_calls = remap 0x20 0x28 0xB8 0x8E ∷ setm 0xFC 0xFF ∷ unm 14 ∷ []

calls-Agrees_example : Agrees cold (calls some_calls cold)
calls-Agrees_example = calls-Agrees some_calls cold

pitsetfreq-Loads_iff_example : Loads 1000 1193 ↔ (19 ≤ 1000)
pitsetfreq-Loads_iff_example = pitsetfreq-Loads_iff 1000 (omega arith)

ticks_wrap : (irq0h cold).0.ticks ≡ 0
unfolding irq0h
ticks_wrap = refl

-- The slave controller is told first.
ends_both : pic_eoi 12 ≡ out 0xA0 0x20 ∷ out 0x20 0x20 ∷ []
unfolding pic_eoi
ends_both = refl

keyboard_ends : (irq1h 1 0x1E boot).1 ≡ out 0x20 0x20 ∷ []
unfolding irq1h pic_eoi
keyboard_ends = refl

-- The first call prints the text of the second too.
falls_through : (syscallh 0).0 ≡ just_a_test ∷ another_test ∷ []
unfolding syscallh
falls_through = refl
