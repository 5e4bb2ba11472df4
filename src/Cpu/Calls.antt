-- ===== src/Cpu/Calls.antt =====
-- What a compiled C function promises its caller.
use system.Common.{arith, length-append, ◌%◌, ◌^◌, List, length, ℕ, ◌*◌, ◌++◌, ◌+◌, ◌∷◌, ◌≡◌, ◌≤◌}
use system.Cpu.{Cpu}
use system.Cpu.Stack.{Holds, Words-rest}

-- The 32-bit calling convention, for a function with `n` words of arguments that runs on a stack that
-- ends at `stack_top` and needs the stack from `stack_low` on: it returns to its caller, leaves the words
-- behind its arguments and the registers that it must keep, and lets its result in `eax` be `result` of
-- the arguments. Of the other registers, and of the memory outside of the stack, nothing is said.
pub record CDecl (stack_low stack_top n : ℕ) (result : List ℕ → ℕ) (f : Cpu → Cpu) : Type 0 where
  pub returns :
      (c : Cpu) (e return_to : ℕ) (args ws : List ℕ)
      → length args ≡ n
      → stack_low ≤ e
      → e + 4 + 4 * n + 4 * length ws ≤ stack_top
      → Holds c e (return_to ∷ (args ++ ws))
      → ((left : List ℕ) × (length left ≡ n) × Holds (f c) (e + 4) (left ++ ws))
        × ((f c).eax ≡ result args)
        × ((f c).ebx ≡ c.ebx)
        × ((f c).esi ≡ c.esi)
        × ((f c).edi ≡ c.edi)
        × ((f c).ebp ≡ c.ebp)

-- What is left when the caller takes away the arguments.
pub drop_args :
    (left ws : List ℕ) (c : Cpu) (e n : ℕ)
    → 4 * length left ≡ n
    → Holds c e (left ++ ws)
    → Holds (record c { esp = (c.esp + n) % 2 ^ 32 }) (e + n) ws
drop_args left ws c e n d h = record {
  pointer = omega (arith, h.pointer, h.below, length-append left ws);
  words = Words-rest left ws c.memory e (e + n) (omega arith) h.words;
  below = omega (arith, h.below, length-append left ws);
}

-- The stack from `stack_low` to `stack_top` holds `ws` on its top, and there is room for `needed` bytes
-- more.
abbrev pub Within : (stack_low stack_top needed : ℕ) → Cpu → List ℕ → Type 0
Within stack_low stack_top needed c ws =
    (stack_low + needed ≤ c.esp) × (c.esp + 4 * length ws ≤ stack_top) × Holds c c.esp ws
