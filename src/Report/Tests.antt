-- ===== src/Report/Tests.antt =====
-- A word in the memory map, and a line of it.
use system.Common.{[], ◌∷◌, ◌++◌, ◌≡◌, refl}
use system.Fbcon.{codes}
use system.Format.{ts, utoa, tmp_digits, klog}
use system.Pmm.Init.{E820Entry}
use system.Report.{entry_line, nibbles, type_name}

abbrev usable : E820Entry
usable = record {
  base_low = 0x100000;
  base_high = 0;
  length_low = 0xFE000;
  length_high = 0;
  kind = 1;
}

usable_line :
    entry_line 1234 0 usable
    ≡ b' '
      ∷ b'['
      ∷ b' '
      ∷ 9
      ∷ (codes "1.234] 0: base=0x00100000 len=0x000FE000 type=RAM" ++ (10 ∷ []))
unfolding entry_line klog ts utoa tmp_digits nibbles type_name
usable_line = refl
