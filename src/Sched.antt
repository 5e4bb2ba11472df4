-- ===== src/Sched.antt =====
-- kernel/sched/sched.c: the process table, spawning, and the cooperative scheduler. The loop of
-- `m_scheduler` is taken apart where it switches to a process: it scans the table at some slot, or a
-- process runs until it yields.
pub mod Spawn
pub mod Switch
pub mod Invariant
pub mod Start
pub mod Fair
mod Tests
use system.Common.{
  Bool, List, Option, [], false, get_or, if◌then◌else◌, ltb, none, not, set, some, suc, true, zero,
  ℕ, ◌+◌,
}

pub data ProcState : Type 0 where
  unused runnable running : ProcState

-- `struct proc`. The stack is its 1024 words, and `context` is the index in it where the saved
-- registers start, in the order edi, esi, ebx, ebp, eip.
pub record Proc : Type 0 where
  pub state : ProcState
  pub context : ℕ
  pub stack : List ℕ

abbrev pub nproc : ℕ
nproc = 8

-- `ptable`: `current` is `none` for -1, and `sched_context` tells whether the pointer is set.
pub record Ptable : Type 0 where
  pub proc : List Proc
  pub current : Option ℕ
  pub sched_context : Bool

pub is_unused : ProcState → Bool
is_unused unused = true
is_unused runnable = false
is_unused running = false

pub is_runnable : ProcState → Bool
is_runnable unused = false
is_runnable runnable = true
is_runnable running = false

abbrev pub no_proc : Proc
no_proc = record { state = unused; context = 0; stack = [] }

abbrev pub state_at : List Proc → ℕ → ProcState
state_at ps i = (get_or ps i no_proc).state

pub set_state : List Proc → ℕ → ProcState → List Proc
set_state ps i st = set ps i (record (get_or ps i no_proc) { state = st })

-- The stack of a new process. From &stack[1023] two words are pushed, and then the pointer goes down
-- by sizeof(struct context) = 20 words.
pub frame : List ℕ → ℕ → List ℕ
frame stack fn =
    let pushed = set (set stack 1022 fn) 1021 0 in
    set (set (set (set (set pushed 1004 0) 1003 0) 1002 0) 1001 0) 1005 fn

pub start_proc : Proc → ℕ → Proc
start_proc p fn = record { state = runnable; context = 1001; stack = frame p.stack fn }

-- The first unused slot at or behind `i`, of `n` slots.
pub find_unused : List Proc → (n i : ℕ) → Option ℕ
find_unused ps zero i = none
find_unused ps (suc n) i =
    let rest = find_unused ps n (i + 1) in if is_unused (state_at ps i) then some i else rest

-- `none` is -1.
pub task_l_spawn : ℕ → Ptable → Option ℕ × Ptable
task_l_spawn fn t = elim (find_unused t.proc nproc 0) [
  | none ↦ (none, t)
  | some i ↦ (some i, record t { proc = set t.proc i (start_proc (get_or t.proc i no_proc) fn) })
]

pub clear_states : List Proc → (n i : ℕ) → List Proc
clear_states ps zero i = ps
clear_states ps (suc n) i = clear_states (set_state ps i unused) n (i + 1)

pub sched_init : Ptable → Ptable
sched_init t = record t {
  proc = clear_states t.proc nproc 0;
  current = none;
  sched_context = false;
}

-- Where the processor is: the scheduler looks at slot `p`, or the process of slot `p` runs.
pub data Control : Type 0 where
  scanning : ℕ → Control
  inside : ℕ → Control

pub record Machine : Type 0 where
  pub table : Ptable
  pub control : Control

-- The start of `m_scheduler`.
pub enter : Ptable → Machine
enter t = record { table = record t { sched_context = true }; control = scanning 0 }

-- The scheduler at slot `p`, up to its next switch or its next slot.
pub scan_slot : Ptable → ℕ → Machine
scan_slot t p =
    if not (ltb p nproc)
    then record { table = t; control = scanning 0 }
    else if not (is_runnable (state_at t.proc p))
    then record { table = t; control = scanning (p + 1) }
    else record {
      table = record t { current = some p; proc = set_state t.proc p running };
      control = inside p;
    }

-- The scheduler when a process switched back to it.
pub resume : Ptable → ℕ → Machine
resume t p = record {
  table = record t { proc = set_state t.proc p runnable; current = none };
  control = scanning (p + 1);
}

-- `yield` in the process of slot `p`: it returns at once if no process is current; else it marks the
-- current process and switches to the scheduler, which goes on behind its own switch.
pub yield : Ptable → ℕ → Machine
yield t p = elim t.current [
  | none ↦ record { table = t; control = inside p }
  | some c ↦ resume (record t { proc = set_state t.proc c runnable }) p
]

-- One step of the machine. A process may spawn and yield; what else it does leaves the table alone.
pub data Step : Machine → Machine → Type 0 where
  scan : (t : Ptable) (p : ℕ) → Step (record { table = t; control = scanning p }) (scan_slot t p)
  spawn :
      (t : Ptable) (p fn : ℕ)
      → Step
          (record { table = t; control = inside p })
          (record { table = (task_l_spawn fn t).1; control = inside p })
  yields : (t : Ptable) (p : ℕ) → Step (record { table = t; control = inside p }) (yield t p)

pub data Reach (m : Machine) : Machine → Type 0 where
  here : Reach m m
  next : {a b : Machine} → Reach m a → Step a b → Reach m b
