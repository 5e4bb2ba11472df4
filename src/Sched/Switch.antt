-- ===== src/Sched/Switch.antt =====
-- kernel/core/switch.s: `swtch(&old, new)` stores four registers on the stack that it leaves, the stack
-- pointer in `old`, and loads those from the stack that it goes to.
pub mod Frames
pub mod Resume
mod Tests
use system.Common.{List, [], ◌∷◌}
use system.Cpu.{
  Instr, load_arg, popl, pushl, r_eax, r_ebp, r_ebx, r_edi, r_edx, r_esi, ret, set_esp, store_esp,
}

pub swtch : List Instr
swtch =
    load_arg 4 r_eax
    ∷ load_arg 8 r_edx
    ∷ pushl r_ebp
    ∷ pushl r_ebx
    ∷ pushl r_esi
    ∷ pushl r_edi
    ∷ store_esp r_eax
    ∷ set_esp r_edx
    ∷ popl r_edi
    ∷ popl r_esi
    ∷ popl r_ebx
    ∷ popl r_ebp
    ∷ ret
    ∷ []
