-- ===== src/Cpu.antt =====
-- The instructions of the kernel's assembly: the stubs in kernel/int/interrupts.c and `swtch` in
-- kernel/core/switch.s. The stack's words are read and written at their addresses, four bytes apart. A
-- list of instructions runs from its head; `eip` is where the processor goes on after the list, and
-- what an `addl` does to the flags is left out, since an `iret` loads them.
pub mod Stack
pub mod Calls
use system.Common.{
  List, [], ◌∷◌, if◌then◌else◌, bit_and, ℕ, ◌%◌, ◌+◌, ◌-◌, ◌==◌, ◌^◌, Bool, leb, ◌&&◌, ◌||◌,
}

pub record Cpu : Type 0 where
  pub eax : ℕ
  pub ecx : ℕ
  pub edx : ℕ
  pub ebx : ℕ
  pub esp : ℕ
  pub ebp : ℕ
  pub esi : ℕ
  pub edi : ℕ
  pub eip : ℕ
  pub cs : ℕ
  pub eflags : ℕ
  pub memory : ℕ → ℕ

-- The registers that are pushed or popped by name.
pub data Register : Type 0 where
  r_eax r_ecx r_edx r_ebx r_ebp r_esi r_edi : Register

pub data Instr : Type 0 where
  pusha popa iret ret : Instr
  pushl popl : Register → Instr
  push_number : ℕ → Instr
  add_esp : ℕ → Instr
  -- A call of a C function; the list goes on where the function returns to.
  call : (return_to : ℕ) → (Cpu → Cpu) → Instr
  -- `movl n(%esp), %r`, `movl %esp, (%r)` and `movl %r, %esp`.
  load_arg : ℕ → Register → Instr
  store_esp : Register → Instr
  set_esp : Register → Instr

unfoldable pub value : Register → Cpu → ℕ
value r_eax c = c.eax
value r_ecx c = c.ecx
value r_edx c = c.edx
value r_ebx c = c.ebx
value r_ebp c = c.ebp
value r_esi c = c.esi
value r_edi c = c.edi

unfoldable pub assign : Register → ℕ → Cpu → Cpu
assign r_eax v c = record c { eax = v }
assign r_ecx v c = record c { ecx = v }
assign r_edx v c = record c { edx = v }
assign r_ebx v c = record c { ebx = v }
assign r_ebp v c = record c { ebp = v }
assign r_esi v c = record c { esi = v }
assign r_edi v c = record c { edi = v }

unfoldable pub push : ℕ → Cpu → Cpu
push v c =
    let e = (c.esp + 2 ^ 32 - 4) % 2 ^ 32 in
    record c { esp = e; memory = λ a. if a == e then v else c.memory a }

-- The word at the top of the stack, and what is left.
abbrev pub top_word : Cpu → ℕ
top_word c = c.memory c.esp

unfoldable pub drop_word : Cpu → Cpu
drop_word c = record c { esp = (c.esp + 4) % 2 ^ 32 }

unfoldable pub pop : Register → Cpu → Cpu
pop r c = assign r (top_word c) (drop_word c)

-- `pusha` stores the `esp` that it found, and `popa` passes over that word.
unfoldable pub push_all : Cpu → Cpu
push_all c =
    push c.edi
      (push c.esi (push c.ebp (push c.esp (push c.ebx (push c.edx (push c.ecx (push c.eax c)))))))

unfoldable pub pop_all : Cpu → Cpu
pop_all c =
    pop r_eax (pop r_ecx (pop r_edx (pop r_ebx (drop_word (pop r_ebp (pop r_esi (pop r_edi c)))))))

-- `iret` to a place of the same privilege.
unfoldable pub return_from : Cpu → Cpu
return_from c =
    let c1 = record (drop_word c) { eip = top_word c } in
    let c2 = record (drop_word c1) { cs = top_word c1 } in
    record (drop_word c2) { eflags = top_word c2 }

unfoldable pub step : Instr → Cpu → Cpu
step pusha c = push_all c
step popa c = pop_all c
step iret c = return_from c
step ret c = record (drop_word c) { eip = top_word c }
step (pushl r) c = push (value r c) c
step (popl r) c = pop r c
step (push_number n) c = push n c
step (add_esp n) c = record c { esp = (c.esp + n) % 2 ^ 32 }
step (call return_to f) c = f (push return_to c)
step (load_arg n r) c = assign r (c.memory ((c.esp + n) % 2 ^ 32)) c
step (store_esp r) c = record c { memory = λ a. if a == value r c then c.esp else c.memory a }
step (set_esp r) c = record c { esp = value r c }

unfoldable pub execute : List Instr → Cpu → Cpu
execute [] c = c
execute (i ∷ is) c = execute is (step i c)

-- What the processor does at an interrupt through a gate of type 0x8E with selector 8, before it stores
-- an error code if the vector has one: it stores the flags and the place where the program stands, and
-- clears the interrupt flag.
unfoldable pub enter : (handler : ℕ) → Cpu → Cpu
enter handler c = record (push c.eip (push c.cs (push c.eflags c))) {
  eip = handler;
  cs = 8;
  eflags = bit_and c.eflags (2 ^ 32 - 1 - 2 ^ 9);
}

-- The exceptions at which the processor stores an error code, too, on top of the place.
unfoldable pub has_error_code : (vector : ℕ) → Bool
has_error_code vector = vector == 8 || (leb 10 vector && leb vector 14) || vector == 17

-- An interrupt with its vector.
unfoldable pub raise : (vector error handler : ℕ) → Cpu → Cpu
raise vector error handler c =
    let entered = enter handler c in if has_error_code vector then push error entered else entered
