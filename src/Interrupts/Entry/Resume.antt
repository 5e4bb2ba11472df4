-- ===== src/Interrupts/Entry/Resume.antt =====
-- The stubs of the interrupts: the program that was interrupted goes on as if nothing had been.
use system.Common.{◌-◌, List, arith, ℕ, ◌∷◌, ◌≡◌}
use system.Cpu.{push_all, Cpu, enter}
use system.Cpu.Calls.{Within}
use system.Cpu.Stack.{enter-Holds, push_all-Holds, Holds, saved}

-- The program goes on where it was, with its registers and the words `ws` of its stack.
pub record Resumes (c c' : Cpu) (ws : List ℕ) : Type 0 where
  pub eax : c'.eax ≡ c.eax
  pub ecx : c'.ecx ≡ c.ecx
  pub edx : c'.edx ≡ c.edx
  pub ebx : c'.ebx ≡ c.ebx
  pub ebp : c'.ebp ≡ c.ebp
  pub esi : c'.esi ≡ c.esi
  pub edi : c'.edi ≡ c.edi
  pub place : (c'.eip ≡ c.eip) × (c'.cs ≡ c.cs) × (c'.eflags ≡ c.eflags)
  pub stack : Holds c' c.esp ws

module _ (stack_low stack_top : ℕ) (result : List ℕ → ℕ) (handler : Cpu → Cpu)
    (return_to at_stub : ℕ) (c : Cpu) (ws : List ℕ) where
  stored :
      Within stack_low stack_top 52 c ws
      → Holds
          (push_all (enter at_stub c))
          (c.esp - 44)
          (saved (enter at_stub c) (c.eip ∷ c.cs ∷ c.eflags ∷ ws))
  stored h =
      push_all-Holds _ (c.esp - 12) (c.esp - 44) _ (omega (arith, h.0))
        (enter-Holds c at_stub c.esp (c.esp - 12) ws (omega (arith, h.0)) h.2)
