-- ===== src/Interrupts/Gates.antt =====
-- The table that `int_init` leaves.
use native.Mathlib.Decide.{ℕ_discrete}
use system.Common.{
  List, length, get_or, suc, zero, ℕ, ◌<◌, ◌≤◌, ◌+◌, ◌^◌, ◌≡◌, ◌==◌, if◌then◌else◌, arith,
  get_or-set, length-set, ◌*◌, ◌∙◌, false, refl, true, ◌%◌,
}
use system.Interrupts.{
  Gate, Interrupts, Stubs, gate, int_init, set_gates, set_table, setgate, pic_remap, pic_setm,
}

abbrev pub no_gate : Gate
no_gate = record { offset_low = 0; selector = 0; zero_byte = 0; type_attr = 0; offset_high = 0 }

-- The address that the processor takes from a gate, and whether it is a present 32-bit interrupt
-- gate of ring 0 in the kernel's code segment.
abbrev pub handler_of : Gate → ℕ
handler_of g = g.offset_low + g.offset_high * 2 ^ 16

abbrev pub IsInterruptGate : Gate → Type 0
IsInterruptGate g = (g.selector ≡ 0x08) × (g.type_attr ≡ 0x8E) × (g.zero_byte ≡ 0)

length-setgate : (n handler : ℕ) (idt : List Gate) → length (setgate n handler idt) ≡ length idt
unfolding setgate
length-setgate n handler idt = length-set idt (n % 256) (gate handler)

length-set_gates :
    (handler n i : ℕ) (idt : List Gate) → length (set_gates handler n i idt) ≡ length idt
unfolding set_gates
length-set_gates handler zero i idt = refl
length-set_gates handler (suc n) i idt =
    length-set_gates handler n (i + 1) (setgate i handler idt) ∙ length-setgate i handler idt

setgate_lem :
    (n handler v : ℕ) (idt : List Gate)
    → length idt ≡ 256
    → n < 256
    → get_or (setgate n handler idt) v no_gate
      ≡ (if n == v then gate handler else get_or idt v no_gate)
unfolding setgate
setgate_lem n handler v idt l h =
    let e : n % 256 ≡ n = omega arith in
    rw e (get_or-set idt n v (gate handler) no_gate (omega arith))

set_gates_lem :
    (handler n i v : ℕ) (idt : List Gate)
    → length idt ≡ 256
    → i + n ≤ 256
    → i ≤ v
    → v < i + n
    → get_or (set_gates handler n i idt) v no_gate ≡ gate handler
unfolding set_gates
set_gates_lem handler zero i v idt l h lo hi = absurd (omega arith)
set_gates_lem handler (suc n) i v idt l h lo hi = elim (ℕ_discrete i v) [
  | yes e ↦ kept e
  | no d ↦
      set_gates_lem handler n (i + 1) v (setgate i handler idt) (length-setgate i handler idt ∙ l)
        (omega arith) (omega arith) (omega arith)
]
  where
    below :
        (n i : ℕ) (idt : List Gate)
        → length idt ≡ 256
        → i + n ≤ 256
        → v < i
        → get_or (set_gates handler n i idt) v no_gate ≡ get_or idt v no_gate
    below zero i idt l h lt = refl
    below (suc n) i idt l h lt =
        let f : (i == v) ≡ false = ground arith in
        below n (i + 1) (setgate i handler idt) (length-setgate i handler idt ∙ l) (omega arith)
          (omega arith)
        ∙ setgate_lem i handler v idt l (omega arith)
        ∙ rw f

    kept :
        i ≡ v
        → get_or (set_gates handler n (i + 1) (setgate i handler idt)) v no_gate ≡ gate handler
    kept e =
        let t : (i == v) ≡ true = ground arith in
        below n (i + 1) (setgate i handler idt) (length-setgate i handler idt ∙ l) (omega arith)
          (omega arith)
        ∙ setgate_lem i handler v idt l (omega arith)
        ∙ rw t

-- A gate holds its handler's 32-bit address.
handler_of-gate : (h : ℕ) → h < 2 ^ 32 → handler_of (gate h) ≡ h
unfolding gate
handler_of-gate h lt = omega arith

gate-IsInterruptGate : (h : ℕ) → IsInterruptGate (gate h)
unfolding gate
gate-IsInterruptGate h = (refl, refl, refl)

-- The stub that vector `v` is meant for.
abbrev pub stub_for : Stubs → ℕ → ℕ
stub_for stubs v =
    if v == 0
    then stubs.isr0_stub
    else if v == 0x20
    then stubs.irq0_stub
    else if v == 0x21
    then stubs.irq1_stub
    else if v == 0x80
    then stubs.syscall_stub
    else stubs.default_stub

abbrev pub AreAddresses : Stubs → Type 0
AreAddresses stubs =
    (stubs.default_stub < 2 ^ 32)
    × (stubs.isr0_stub < 2 ^ 32)
    × (stubs.irq0_stub < 2 ^ 32)
    × (stubs.irq1_stub < 2 ^ 32)
    × (stubs.syscall_stub < 2 ^ 32)

module _ (stubs : Stubs) (idt : List Gate) (l : length idt ≡ 256) where
  table0 : List Gate
  table0 = set_gates stubs.default_stub 256 0 idt

  set_table-gate :
      (v : ℕ) → v < 256 → get_or (set_table stubs idt) v no_gate ≡ gate (stub_for stubs v)
  unfolding set_table
  set_table-gate v lt =
      let t0 = set_gates stubs.default_stub 256 0 idt in
      let t1 = setgate 0 stubs.isr0_stub t0 in
      let t2 = setgate 0x20 stubs.irq0_stub t1 in
      let t3 = setgate 0x21 stubs.irq1_stub t2 in
      let l0 : length t0 ≡ 256 = length-set_gates stubs.default_stub 256 0 idt ∙ l in
      let l1 : length t1 ≡ 256 = length-setgate 0 stubs.isr0_stub t0 ∙ l0 in
      let l2 : length t2 ≡ 256 = length-setgate 0x20 stubs.irq0_stub t1 ∙ l1 in
      let l3 : length t3 ≡ 256 = length-setgate 0x21 stubs.irq1_stub t2 ∙ l2 in
      setgate_lem 0x80 stubs.syscall_stub v t3 l3 (omega arith)
      ∙ rw
          (
            setgate_lem 0x21 stubs.irq1_stub v t2 l2 (omega arith),
            setgate_lem 0x20 stubs.irq0_stub v t1 l1 (omega arith),
            setgate_lem 0 stubs.isr0_stub v t0 l0 (omega arith),
            set_gates_lem stubs.default_stub 256 0 v idt l (omega arith) (omega arith) lt,
          )
          (ground arith)

-- After `int_init` on a table of 256 gates, each vector's gate is a present interrupt gate that leads
-- to the stub meant for it: the exception, the timer, the keyboard and the system call at 0, 0x20,
-- 0x21 and 0x80, and the default stub at all others.
pub int_init-stubs :
    (stubs : Stubs) (a1 a2 v : ℕ) (s : Interrupts)
    → length s.idt ≡ 256
    → AreAddresses stubs
    → v < 256
    → (handler_of (get_or (int_init stubs a1 a2 s).0.idt v no_gate) ≡ stub_for stubs v)
      × IsInterruptGate (get_or (int_init stubs a1 a2 s).0.idt v no_gate)
unfolding int_init pic_remap pic_setm
int_init-stubs stubs a1 a2 v s l a lt =
    rw (set_table-gate stubs s.idt l v lt)
      (handler_of-gate (stub_for stubs v) (ground arith), gate-IsInterruptGate (stub_for stubs v))
