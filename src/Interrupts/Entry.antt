-- ===== src/Interrupts/Entry.antt =====
-- The stubs of kernel/int/interrupts.c, by which the processor enters the handlers. A handler is what it
-- does to the registers and the memory, up to its return. That of `isr0_stub` ends in a panic and does not
-- return, so that no more is said of it than its call.
pub mod Resume
pub mod Syscall
mod Tests
use system.Common.{List, [], ℕ, ◌∷◌}
use system.Cpu.{
  Cpu, Instr, add_esp, call, iret, popa, popl, pusha, pushl, r_eax, r_ebp, r_ebx, r_ecx, r_edi,
  r_edx, r_esi, push_number,
}

pub isr_default_stub : List Instr
isr_default_stub = pusha ∷ popa ∷ iret ∷ []

pub isr0_stub : (return_to : ℕ) → (handler : Cpu → Cpu) → List Instr
isr0_stub return_to handler =
    pusha ∷ push_number 0 ∷ call return_to handler ∷ add_esp 4 ∷ popa ∷ iret ∷ []

pub irq0_stub : (return_to : ℕ) → (handler : Cpu → Cpu) → List Instr
irq0_stub return_to handler = pusha ∷ call return_to handler ∷ popa ∷ iret ∷ []

pub irq1_stub : (return_to : ℕ) → (handler : Cpu → Cpu) → List Instr
irq1_stub return_to handler = pusha ∷ call return_to handler ∷ popa ∷ iret ∷ []

pub syscall_stub : (return_to : ℕ) → (handler : Cpu → Cpu) → List Instr
syscall_stub return_to handler =
    pushl r_ebp
    ∷ pushl r_edi
    ∷ pushl r_esi
    ∷ pushl r_edx
    ∷ pushl r_ecx
    ∷ pushl r_ebx
    ∷ pushl r_eax
    ∷ call return_to handler
    ∷ add_esp 16
    ∷ popl r_esi
    ∷ popl r_edi
    ∷ popl r_ebp
    ∷ iret
    ∷ []
