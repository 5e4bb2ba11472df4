-- ===== src/Interrupts/Entry/Syscall.antt =====
-- The stub of the system calls: the registers that are the arguments, and those that are kept.
use system.Common.{ap, ◌∙◌, ◌-◌, ◌%◌, ◌^◌, List, [], arith, refl, ℕ, ◌+◌, ◌∷◌, ◌≡◌}
use system.Cpu.{
  pop, assign, drop_word, value, execute, step, Cpu, enter, r_ebp, r_edi, r_esi, return_from, push,
}
use system.Cpu.Calls.{CDecl, drop_args, Within}
use system.Cpu.Stack.{word_lem, enter-Holds, push-Holds, Holds, Words-rest}
use system.Interrupts.Entry.{syscall_stub}

-- A system call: the program goes on behind it with the result in `eax`, and with the registers and the
-- stack that a call keeps.
pub record Answered (c c' : Cpu) (answer : ℕ) (ws : List ℕ) : Type 0 where
  pub eax : c'.eax ≡ answer
  pub ebx : c'.ebx ≡ c.ebx
  pub ebp : c'.ebp ≡ c.ebp
  pub esi : c'.esi ≡ c.esi
  pub edi : c'.edi ≡ c.edi
  pub place : (c'.eip ≡ c.eip) × (c'.cs ≡ c.cs) × (c'.eflags ≡ c.eflags)
  pub stack : Holds c' c.esp ws

-- The end of `syscall_stub`.
restore :
    (c : Cpu) (e si di bp ip sel flags : ℕ) (ws : List ℕ)
    → Holds c e (si ∷ di ∷ bp ∷ ip ∷ sel ∷ flags ∷ ws)
    → return_from (pop r_ebp (pop r_edi (pop r_esi c)))
      ≡ record c { esp = e + 24; ebp = bp; esi = si; edi = di; eip = ip; cs = sel; eflags = flags }
unfolding pop assign drop_word return_from
restore c e si di bp ip sel flags ws h =
    let w = λ (i : ℕ). word_lem (si ∷ di ∷ bp ∷ ip ∷ sel ∷ flags ∷ ws) c.memory e i h.words in
    let w0 : c.memory c.esp ≡ si = ap c.memory h.pointer ∙ h.words.0 in
    let w1 : c.memory (e + 4) ≡ di = w 1 (omega arith) in
    let w2 : c.memory (e + 8) ≡ bp = w 2 (omega arith) in
    let w3 : c.memory (e + 12) ≡ ip = w 3 (omega arith) in
    let w4 : c.memory (e + 16) ≡ sel = w 4 (omega arith) in
    let w5 : c.memory (e + 20) ≡ flags = w 5 (omega arith) in
    let p1 : (c.esp + 4) % 2 ^ 32 ≡ e + 4 = omega (arith, h.pointer, h.below) in
    let p2 : (e + 4 + 4) % 2 ^ 32 ≡ e + 8 = omega (arith, h.below) in
    let p3 : (e + 8 + 4) % 2 ^ 32 ≡ e + 12 = omega (arith, h.below) in
    let p4 : (e + 12 + 4) % 2 ^ 32 ≡ e + 16 = omega (arith, h.below) in
    let p5 : (e + 16 + 4) % 2 ^ 32 ≡ e + 20 = omega (arith, h.below) in
    let p6 : (e + 20 + 4) % 2 ^ 32 ≡ e + 24 = omega (arith, h.below) in
    rw (w0, p1, w1, p2, w2, p3, w3, p4, w4, p5, w5, p6) refl

module _ (stack_low stack_top : ℕ) (result : List ℕ → ℕ) (handler : Cpu → Cpu)
    (return_to at_stub : ℕ) (c : Cpu) (ws : List ℕ) where
  args_stored :
      Within stack_low stack_top 44 c ws
      → Holds
          (push c.eax (
            push c.ebx
              (push c.ecx (push c.edx (push c.esi (push c.edi (push c.ebp (enter at_stub c))))))))
          (c.esp - 40)
          (c.eax ∷ c.ebx ∷ c.ecx ∷ c.edx ∷ c.esi ∷ c.edi ∷ c.ebp ∷ c.eip ∷ c.cs ∷ c.eflags ∷ ws)
  args_stored h = push-Holds _ (c.esp - 36) (c.esp - 40) c.eax _ (omega (arith, h.0)) (
      push-Holds _ (c.esp - 32) (c.esp - 36) c.ebx _ (omega (arith, h.0)) (
        push-Holds _ (c.esp - 28) (c.esp - 32) c.ecx _ (omega (arith, h.0)) (
          push-Holds _ (c.esp - 24) (c.esp - 28) c.edx _ (omega (arith, h.0)) (
            push-Holds _ (c.esp - 20) (c.esp - 24) c.esi _ (omega (arith, h.0)) (
              push-Holds _ (c.esp - 16) (c.esp - 20) c.edi _ (omega (arith, h.0)) (
                push-Holds _ (c.esp - 12) (c.esp - 16) c.ebp _ (omega (arith, h.0))
                  (enter-Holds c at_stub c.esp (c.esp - 12) ws (omega (arith, h.0)) h.2)))))))

  -- The handler gets the number and the three arguments from `eax`, `ebx`, `ecx` and `edx`, in this
  -- order, and the program gets its result in `eax`. `ebx`, `esi`, `edi`, `ebp`, the stack and the flags
  -- are as before; of `ecx` and `edx` nothing is promised. The handler keeps the calling convention, and
  -- there is room on the stack.
  pub syscall-Answered :
      CDecl stack_low stack_top 4 result handler
      → Within stack_low stack_top 44 c ws
      → Answered c
          (execute (syscall_stub return_to handler) (enter at_stub c))
          (result (c.eax ∷ c.ebx ∷ c.ecx ∷ c.edx ∷ []))
          ws
  unfolding syscall_stub execute step value enter push
  syscall-Answered f h =
      let p =
        push-Holds _ (c.esp - 40) (c.esp - 44) return_to _ (omega (arith, h.0)) (args_stored h) in
      let r =
        f.returns _ (c.esp - 44) return_to (c.eax ∷ c.ebx ∷ c.ecx ∷ c.edx ∷ []) _ refl
          (omega (arith, h.0)) (omega (arith, h.0, h.1)) p in
      let e : c.esp - 44 + 4 + 16 ≡ c.esp - 24 = omega (arith, h.0) in
      let held = rw e at (drop_args r.0.0 _ _ _ 16 (omega (arith, r.0.1)) r.0.2) in
      rw (restore _ (c.esp - 24) _ _ _ _ _ _ ws held) (record {
        eax = r.1;
        ebx = r.2;
        ebp = refl;
        esi = refl;
        edi = refl;
        place = (refl, refl, refl);
        stack = record {
          pointer = omega (arith, h.0);
          words =
              Words-rest (c.esi ∷ c.edi ∷ c.ebp ∷ c.eip ∷ c.cs ∷ c.eflags ∷ []) ws _ (c.esp - 24)
                c.esp (omega (arith, h.0)) held.words;
          below = h.2.below;
        };
      })
