-- ===== src/Interrupts/Entry/Tests.antt =====
-- A program interrupted at its stack's second page, by handlers that return at once.
use system.Common.{
  List, [], ◌∷◌, ℕ, get_or, refl, ap, arith, length, ◌++◌, ◌+◌, ◌∙◌, ◌≡◌, ◌≤◌, if◌then◌else◌, ◌==◌,
}
use system.Cpu.{
  step, push, push_all, pop_all, pop, assign, return_from, enter, Cpu, drop_word, execute,
}
use system.Cpu.Calls.{CDecl, Within}
use system.Cpu.Stack.{Holds, drop_word-Holds}
use system.Interrupts.Entry.{isr0_stub, syscall_stub}
use system.Interrupts.Entry.Syscall.{Answered, syscall-Answered}

-- A handler that leaves its result and returns.
abbrev quick : (ℕ → ℕ) → Cpu → Cpu
quick answer c = record (drop_word c) { eax = answer (c.memory (c.esp + 4)) }

quick-Holds :
    (answer : ℕ → ℕ) (c : Cpu) (e return_to : ℕ) (ws : List ℕ)
    → Holds c e (return_to ∷ ws)
    → Holds (quick answer c) (e + 4) ws
unfolding drop_word
quick-Holds answer c e return_to ws h =
    let r = (drop_word-Holds c e return_to ws h).1 in
    record { pointer = r.pointer; words = r.words; below = r.below }

echo-CDecl : CDecl 0x4000 0x10000 4 (λ args. get_or args 0 0) (quick (λ first. first))
unfolding drop_word
echo-CDecl = record {
  returns = λ c e return_to args ws len low top h. (
    (args, len, quick-Holds (λ first. first) c e return_to (args ++ ws) h),
    first args ws len c e return_to h,
    refl,
    refl,
    refl,
    refl,
  );
}
  where
    first :
        (args ws : List ℕ)
        → length args ≡ 4
        → (c : Cpu) (e return_to : ℕ) → Holds c e (return_to ∷ (args ++ ws))
        → c.memory (c.esp + 4) ≡ get_or args 0 0
    first [] ws len c e return_to h = absurd (omega arith)
    first (a ∷ args) ws len c e return_to h =
        ap (λ (b : ℕ). c.memory (b + 4)) h.pointer ∙ h.words.1.0

abbrev program : Cpu
program = record {
  eax = 1;
  ecx = 2;
  edx = 3;
  ebx = 4;
  esp = 0x8000;
  ebp = 5;
  esi = 6;
  edi = 7;
  eip = 0x1234;
  cs = 8;
  eflags = 0x202;
  memory = λ a. a;
}

program-Within : (n : ℕ) → n ≤ 0x4000 → Within 0x4000 0x10000 n program (0x8000 ∷ 0x8004 ∷ [])
program-Within n le = (
  omega arith,
  omega arith,
  record { pointer = refl; words = (refl, (refl, tt)); below = omega arith },
)

-- A handler that notes its argument at address 0.
abbrev noting : Cpu → Cpu
noting c = record c { memory = λ a. if a == 0 then c.memory (c.esp + 4) + 5 else c.memory a }

isr0_argument : (execute (isr0_stub 0x100 noting) (enter 0x200 program)).memory 0 ≡ 5
unfolding execute isr0_stub step enter push push_all pop_all pop assign drop_word return_from
isr0_argument = refl

syscall-Answered_example :
    Answered program
      (execute (syscall_stub 0x100 (quick (λ first. first))) (enter 0x200 program))
      1
      (0x8000 ∷ 0x8004 ∷ [])
syscall-Answered_example =
    syscall-Answered 0x4000 0x10000 (λ args. get_or args 0 0) (quick (λ first. first)) 0x100 0x200
      program (0x8000 ∷ 0x8004 ∷ []) echo-CDecl (program-Within 44 (omega arith))
