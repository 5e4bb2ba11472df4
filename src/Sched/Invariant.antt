-- ===== src/Sched/Invariant.antt =====
-- The invariant of the scheduler, over every sequence of steps: at most one process is marked RUNNING,
-- and it is the current one, exactly while a process runs.
use native.Mathlib.Decide.{dec_lt, ℕ_discrete}
use system.Common.{
  Bool, Bool-cases, List, ap, arith, false, get_or, get_or-set, if◌then◌else◌, inl, inr, length,
  length-set, ltb, none, refl, some, true, ℕ, ◌<◌, ◌==◌, ◌∙◌, ◌≡◌, ◌≢◌, ◌≤◌, Option, [], leb, suc,
  sym, zero, ◌&&◌, ◌+◌, ◌∷◌, ◌⊎◌,
}
use system.Keyboard.Queue.{run}
use system.Sched.{
  Control, Machine, Proc, ProcState, Ptable, inside, is_runnable, no_proc, nproc, running,
  scan_slot, scanning, set_state, state_at, Reach, Step, enter, here, is_unused, next, resume,
  runnable, scan, sched_init, spawn, start_proc, task_l_spawn, unused, yield, yields, clear_states,
}
use system.Sched.Spawn.{Spawned, task_l_spawn-Spawned}

-- What holds of the table while the processor is at some place.
abbrev pub Consistent : Ptable → Control → Type 0
Consistent t (scanning p) =
    (p ≤ nproc) × (t.current ≡ none) × ((i : ℕ) → state_at t.proc i ≢ running)
Consistent t (inside p) =
    (p < nproc)
    × (t.current ≡ some p)
    × (state_at t.proc p ≡ running)
    × ((i : ℕ) → i ≢ p → state_at t.proc i ≢ running)

pub record IsValid (m : Machine) : Type 0 where
  pub slots : length m.table.proc ≡ nproc
  pub consistent : Consistent m.table m.control

pub state_at-set_state :
    (ps : List Proc) (i j : ℕ) (st : ProcState)
    → i < length ps
    → state_at (set_state ps i st) j ≡ (if i == j then st else state_at ps j)
unfolding set_state
state_at-set_state ps i j st h =
    ap (λ (p : Proc). p.state)
      (get_or-set ps i j (record (get_or ps i no_proc) { state = st }) no_proc h)
    ∙ push_if (i == j)
  where
    push_if :
        (b : Bool)
        → (if b then record (get_or ps i no_proc) { state = st } else get_or ps j no_proc).state
          ≡ (if b then st else state_at ps j)
    push_if true = refl
    push_if false = refl

pub length-set_state :
    (ps : List Proc) (i : ℕ) (st : ProcState) → length (set_state ps i st) ≡ length ps
unfolding set_state
length-set_state ps i st = length-set ps i _

scan_slot-IsValid :
    (t : Ptable) (p : ℕ)
    → IsValid (record { table = t; control = scanning p })
    → IsValid (scan_slot t p)
unfolding scan_slot
scan_slot-IsValid t p v = elim (Bool-cases (ltb p nproc)) [
  | inr out ↦
      rw out
        (record { slots = v.slots; consistent = (omega arith, v.consistent.1, v.consistent.2) })
  | inl i ↦ rw i (elim (Bool-cases (is_runnable (state_at t.proc p))) [
    | inr f ↦
        rw f
          (record { slots = v.slots; consistent = (ground arith, v.consistent.1, v.consistent.2) })
    | inl r ↦ rw r (record {
      slots = length-set_state t.proc p running ∙ v.slots;
      consistent = (
        ground arith,
        refl,
        let e : (p == p) ≡ true = ground arith in
            rw (state_at-set_state t.proc p p running (in_table (ground arith)), e),
        λ j ne.
            let e : (p == j) ≡ false = ground arith in
            rw (state_at-set_state t.proc p j running (in_table (ground arith)), e)
              (v.consistent.2 j),
      );
    })
  ])
]
  where
    in_table : p < nproc → p < length t.proc
    in_table h = omega (arith, v.slots)

resume-IsValid :
    (t : Ptable) (p : ℕ)
    → length t.proc ≡ nproc
    → p < nproc
    → ((i : ℕ) → i ≢ p → state_at t.proc i ≢ running)
    → IsValid (resume t p)
unfolding resume
resume-IsValid t p h lt others = record {
  slots = length-set_state t.proc p runnable ∙ h;
  consistent = (
    omega arith,
    refl,
    λ i run. elim (ℕ_discrete p i) [
      | yes e ↦
          let b : (p == i) ≡ true = ground arith in
          let r : runnable ≡ running =
            rw (state_at-set_state t.proc p i runnable (omega arith), b) at run in
          cc
      | no ne ↦
          let b : (p == i) ≡ false = ground arith in
          others i (λ e. ne (sym e))
            (rw (state_at-set_state t.proc p i runnable (omega arith), b) at run)
    ],
  );
}

-- `yield` gives the processor back to the scheduler.
pub yield_lem :
    (t : Ptable) (p : ℕ)
    → t.current ≡ some p
    → yield t p ≡ resume (record t { proc = set_state t.proc p runnable }) p
unfolding yield
yield_lem t p e = rw e

yield-IsValid :
    (t : Ptable) (p : ℕ) → IsValid (record { table = t; control = inside p }) → IsValid (yield t p)
yield-IsValid t p v = rw (yield_lem t p v.consistent.1) (
    resume-IsValid (record t { proc = set_state t.proc p runnable }) p
      (length-set_state t.proc p runnable ∙ v.slots) v.consistent.0
      (λ i ne run.
        let b : (p == i) ≡ false = ground arith in
        v.consistent.3 i ne (
          rw (state_at-set_state t.proc p i runnable (omega (arith, v.slots, v.consistent.0)), b) at
            run)))

-- Spawning changes one unused slot to RUNNABLE, as far as the states go.
pub state_at-spawn :
    (fn : ℕ) (t : Ptable) (j : ℕ)
    → length t.proc ≡ nproc
    → is_unused (state_at t.proc j) ≡ false
    → state_at (task_l_spawn fn t).1.proc j ≡ state_at t.proc j
state_at-spawn fn t j h u = by_result (task_l_spawn fn t) (task_l_spawn-Spawned fn t h)
  where
    by_result : (r : Option ℕ × Ptable) → Spawned fn t r → state_at r.1.proc j ≡ state_at t.proc j
    by_result (none, t') s = rw s.1
    by_result (some i, t') s = elim (ℕ_discrete i j) [
      | yes e ↦ let w : is_unused (state_at t.proc j) ≡ true = rw e at s.1 in cc
      | no ne ↦
          let b : (i == j) ≡ false = ground arith in
          let e : get_or t'.proc j no_proc ≡ get_or t.proc j no_proc = s.3 j ∙ rw b in
          ap (λ (p : Proc). p.state) e
    ]

spawn_states :
    (fn : ℕ) (t : Ptable) (j : ℕ)
    → length t.proc ≡ nproc
    → (state_at (task_l_spawn fn t).1.proc j ≡ state_at t.proc j)
      ⊎ (state_at (task_l_spawn fn t).1.proc j ≡ runnable)
unfolding start_proc
spawn_states fn t j h = by_result (task_l_spawn fn t) (task_l_spawn-Spawned fn t h)
  where
    by_result :
        (r : Option ℕ × Ptable)
        → Spawned fn t r
        → (state_at r.1.proc j ≡ state_at t.proc j) ⊎ (state_at r.1.proc j ≡ runnable)
    by_result (none, t') s = inl (rw s.1)
    by_result (some i, t') s = elim (ℕ_discrete i j) [
      | yes e ↦
          let b : (i == j) ≡ true = ground arith in
          let f : get_or t'.proc j no_proc ≡ start_proc (get_or t.proc i no_proc) fn =
            s.3 j ∙ rw b in
          inr (ap (λ (p : Proc). p.state) f)
      | no ne ↦
          let b : (i == j) ≡ false = ground arith in
          let e : get_or t'.proc j no_proc ≡ get_or t.proc j no_proc = s.3 j ∙ rw b in
          inl (ap (λ (p : Proc). p.state) e)
    ]

pub spawn_rest :
    (fn : ℕ) (t : Ptable)
    → length t.proc ≡ nproc
    → (length (task_l_spawn fn t).1.proc ≡ nproc) × ((task_l_spawn fn t).1.current ≡ t.current)
spawn_rest fn t h = by_result (task_l_spawn fn t) (task_l_spawn-Spawned fn t h)
  where
    by_result :
        (r : Option ℕ × Ptable)
        → Spawned fn t r
        → (length r.1.proc ≡ nproc) × (r.1.current ≡ t.current)
    by_result (none, t') s = rw s.1 (h, refl)
    by_result (some i, t') s = (s.4 ∙ h, s.5)

pub spawn-IsValid :
    (fn : ℕ) (t : Ptable) (p : ℕ)
    → IsValid (record { table = t; control = inside p })
    → IsValid (record { table = (task_l_spawn fn t).1; control = inside p })
unfolding is_unused
spawn-IsValid fn t p v = record {
  slots = (spawn_rest fn t v.slots).0;
  consistent = (
    v.consistent.0,
    (spawn_rest fn t v.slots).1 ∙ v.consistent.1,
    state_at-spawn fn t p v.slots (rw v.consistent.2) ∙ v.consistent.2,
    λ i ne run. elim (spawn_states fn t i v.slots) [
      | inl e ↦ v.consistent.3 i ne (sym e ∙ run)
      | inr e ↦ cc
    ],
  );
}

pub Step-IsValid : {a b : Machine} → Step a b → IsValid a → IsValid b
Step-IsValid (scan t p) v = scan_slot-IsValid t p v
Step-IsValid (spawn t p fn) v = spawn-IsValid fn t p v
Step-IsValid (yields t p) v = yield-IsValid t p v

-- The invariant holds in every state that is reached from one where it holds, whatever the processes
-- spawn and whenever they yield: at most one process is RUNNING, it is the current one, and that
-- only while a process runs.
pub Reach-IsValid : {a b : Machine} → IsValid a → Reach a b → IsValid b
Reach-IsValid v here = v
Reach-IsValid v (next r s) = Step-IsValid s (Reach-IsValid v r)

state_at-clear_states :
    (n : ℕ) (ps : List Proc) (i j : ℕ)
    → i + n ≤ length ps
    → state_at (clear_states ps n i) j
      ≡ (if leb i j && ltb j (i + n) then unused else state_at ps j)
unfolding clear_states
state_at-clear_states zero ps i j h = ground arith
state_at-clear_states (suc n) ps i j h = ground (
  arith,
  state_at-clear_states n (set_state ps i unused) (i + 1) j,
  length-set_state ps i unused,
  state_at-set_state ps i j unused,
)

length-clear_states : (n : ℕ) (ps : List Proc) (i : ℕ) → length (clear_states ps n i) ≡ length ps
unfolding clear_states
length-clear_states zero ps i = refl
length-clear_states (suc n) ps i =
    length-clear_states n (set_state ps i unused) (i + 1) ∙ length-set_state ps i unused

-- On a table of eight slots `sched_init` frees every slot and sets no process current, and
-- `m_scheduler` entered on it starts in a valid state.
pub sched_init_lem :
    (t : Ptable)
    → length t.proc ≡ nproc
    → ((j : ℕ) → j < nproc → state_at (sched_init t).proc j ≡ unused)
      × ((sched_init t).current ≡ none)
      × IsValid (enter (sched_init t))
unfolding sched_init enter
sched_init_lem t h = (
  λ j lt.
      let b : (leb 0 j && ltb j (0 + nproc)) ≡ true = ground arith in
      rw (state_at-clear_states nproc t.proc 0 j (omega (arith, h)), b),
  refl,
  record {
    slots = length-clear_states nproc t.proc 0 ∙ h;
    consistent = (omega arith, refl, never);
  },
)
  where
    past : (j : ℕ) (ps : List Proc) → length ps ≤ j → state_at ps j ≡ unused
    past j [] le = refl
    past zero (x ∷ xs) le = absurd (omega arith)
    past (suc j) (x ∷ xs) le = past j xs (omega arith)

    never : (j : ℕ) → state_at (clear_states t.proc nproc 0) j ≢ running
    never j run = elim (dec_lt j nproc) [
      | yes lt ↦
          let b : (leb 0 j && ltb j (0 + nproc)) ≡ true = ground arith in
          let r : unused ≡ running =
            rw (state_at-clear_states nproc t.proc 0 j (omega (arith, h)), b) at run in
          cc
      | no ge ↦
          let r : unused ≡ running =
            rw
              (past j (clear_states t.proc nproc 0)
                (omega (arith, length-clear_states nproc t.proc 0, h)))
              at run in
          cc
    ]
