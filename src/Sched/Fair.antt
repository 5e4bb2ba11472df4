-- ===== src/Sched/Fair.antt =====
-- Round robin: a runnable process gets the processor after at most eight slots and one wrap, whatever
-- the processes before it spawn, as long as each of them yields.
use mathlib.Core.Path.{subst}
use native.Mathlib.Decide.{ℕ_discrete}
use system.Common.{
  List, [], ap, false, if◌then◌else◌, leb, ltb, refl, suc, zero, ℕ, ◌+◌, ◌-◌, ◌∙◌, ◌∷◌, ◌≡◌, arith,
  length, ◌<◌, ◌≢◌, Bool-cases, inl, inr, some, true, ltb→lt, ◌==◌, lt→ltb, sym, ◌≤◌,
}
use system.Sched.{
  Control, Machine, Ptable, Reach, inside, is_unused, next, nproc, runnable, scan_slot, scanning,
  spawn, state_at, task_l_spawn, yield, resume, running, set_state, yields, is_runnable, here, scan,
}
use system.Sched.Invariant.{
  IsValid, spawn-IsValid, state_at-spawn, Step-IsValid, length-set_state, state_at-set_state,
  yield_lem,
}

spawn_all : List ℕ → Ptable → Ptable
spawn_all [] t = t
spawn_all (fn ∷ fns) t = spawn_all fns (task_l_spawn fn t).1

-- Where the scheduler switched to a process, that process spawns `fns` and yields.
settle : List ℕ → Ptable → Control → Machine
settle fns t (scanning q) = record { table = t; control = scanning q }
settle fns t (inside q) = yield (spawn_all fns t) q

-- One slot of the scheduler's loop, with the run of the process in it.
unfoldable pub turn : List ℕ → Ptable → ℕ → Machine
unfolding settle spawn_all
turn fns t p = settle fns (scan_slot t p).table (scan_slot t p).control

abbrev pub slot_of : Control → ℕ
slot_of (scanning p) = p
slot_of (inside p) = p

-- `n` slots in a row; `acts n` is what the process spawns when `n` slots are left.
unfoldable pub turns : (ℕ → List ℕ) → ℕ → Ptable → ℕ → Machine
turns acts zero t p = record { table = t; control = scanning p }
turns acts (suc n) t p =
    turns acts n (turn (acts n) t p).table (slot_of (turn (acts n) t p).control)

abbrev pub next_slot : ℕ → ℕ
next_slot p = if ltb p nproc then p + 1 else 0

-- How many slots lie before slot `r`, from slot `p` on.
abbrev pub distance : ℕ → ℕ → ℕ
distance p r = if leb p r then r - p else r + 9 - p

-- A turn from slot `p` ends at the next slot, in a valid state that some steps reach, and leaves a
-- runnable process runnable.
record Turned (t : Ptable) (p r : ℕ) (m : Machine) : Type 0 where
  valid : IsValid m
  slot : m.control ≡ scanning (next_slot p)
  still : state_at m.table.proc r ≡ runnable
  steps : Reach (record { table = t; control = scanning p }) m

spawn_all-Reach :
    (fns : List ℕ) (t : Ptable) (q r : ℕ) {m : Machine}
    → IsValid (record { table = t; control = inside q })
    → is_unused (state_at t.proc r) ≡ false
    → Reach m (record { table = t; control = inside q })
    → IsValid (record { table = spawn_all fns t; control = inside q })
      × (state_at (spawn_all fns t).proc r ≡ state_at t.proc r)
      × Reach m (record { table = spawn_all fns t; control = inside q })
unfolding spawn_all
spawn_all-Reach [] t q r v u path = (v, refl, path)
spawn_all-Reach (fn ∷ fns) t q r v u path =
    let kept = state_at-spawn fn t r v.slots u in
    let rest =
      spawn_all-Reach fns (task_l_spawn fn t).1 q r (spawn-IsValid fn t q v) (ap is_unused kept ∙ u)
        (next path (spawn t q fn)) in
    (rest.0, rest.1 ∙ kept, rest.2)

-- A process that runs in slot `p` spawns and yields: every process that was not unused is RUNNABLE or
-- as it was.
run-Turned :
    (fns : List ℕ) (t : Ptable) (p r : ℕ) {m : Machine}
    → IsValid (record { table = t; control = inside p })
    → (p ≢ r → state_at t.proc r ≡ runnable)
    → r < nproc
    → Reach m (record { table = t; control = inside p })
    → IsValid (yield (spawn_all fns t) p)
      × ((yield (spawn_all fns t) p).control ≡ scanning (p + 1))
      × (state_at (yield (spawn_all fns t) p).table.proc r ≡ runnable)
      × Reach m (yield (spawn_all fns t) p)
unfolding is_unused resume
run-Turned fns t p r {m} v other lt path = (
  Step-IsValid (yields t2 p) f.0,
  ap (λ (m : Machine). m.control) back,
  ap (λ (m : Machine). state_at m.table.proc r) back ∙ state_end,
  next f.2 (yields t2 p),
)
  where
    state_now : is_unused (state_at t.proc r) ≡ false
    state_now = elim (ℕ_discrete p r) [
      | yes e ↦ let s : state_at t.proc r ≡ running = rw e at v.consistent.2 in rw s
      | no ne ↦ rw (other ne)
    ]

    t2 : Ptable
    t2 = spawn_all fns t

    f :
        IsValid (record { table = t2; control = inside p })
        × (state_at t2.proc r ≡ state_at t.proc r)
        × Reach m (record { table = t2; control = inside p })
    f = spawn_all-Reach fns t p r v state_now path

    back : yield t2 p ≡ resume (record t2 { proc = set_state t2.proc p runnable }) p
    back = yield_lem t2 p f.0.consistent.1

    in_table : p < length t2.proc
    in_table = omega (arith, f.0.slots, f.0.consistent.0)

    state_end : state_at (set_state (set_state t2.proc p runnable) p runnable) r ≡ runnable
    state_end = elim (ℕ_discrete p r) [
      | yes e ↦ ground (
        arith,
        state_at-set_state (set_state t2.proc p runnable) p r runnable,
        length-set_state t2.proc p runnable,
        in_table,
      )
      | no ne ↦ ground (
        arith,
        state_at-set_state (set_state t2.proc p runnable) p r runnable,
        length-set_state t2.proc p runnable,
        in_table,
        state_at-set_state t2.proc p r runnable,
        f.1,
        other ne,
      )
    ]

-- The slot that the scheduler looks at, in each of its three cases.
scan_wrap :
    (t : Ptable) (p : ℕ)
    → ltb p nproc ≡ false
    → scan_slot t p ≡ record { table = t; control = scanning 0 }
unfolding scan_slot
scan_wrap t p e = rw e

scan_skip :
    (t : Ptable) (p : ℕ)
    → ltb p nproc ≡ true
    → is_runnable (state_at t.proc p) ≡ false
    → scan_slot t p ≡ record { table = t; control = scanning (p + 1) }
unfolding scan_slot
scan_skip t p e f = rw (e, f)

abbrev dispatched : Ptable → ℕ → Ptable
dispatched t p = record t { current = some p; proc = set_state t.proc p running }

scan_dispatch :
    (t : Ptable) (p : ℕ)
    → ltb p nproc ≡ true
    → is_runnable (state_at t.proc p) ≡ true
    → scan_slot t p ≡ record { table = dispatched t p; control = inside p }
unfolding scan_slot
scan_dispatch t p e f = rw (e, f)

-- The step to the slot's outcome, once that is known.
slot-Reach :
    (t : Ptable) (p : ℕ) (m : Machine)
    → scan_slot t p ≡ m
    → IsValid (record { table = t; control = scanning p })
    → IsValid m × Reach (record { table = t; control = scanning p }) m
slot-Reach t p m e v = rw (← e) (Step-IsValid (scan t p) v, next here (scan t p))

turn_of :
    (fns : List ℕ) (t : Ptable) (p r : ℕ) (m : Machine)
    → scan_slot t p ≡ m
    → Turned t p r (settle fns m.table m.control)
    → Turned t p r (turn fns t p)
unfolding turn
turn_of fns t p r m e h = rw e h

turn-Turned :
    (fns : List ℕ) (t : Ptable) (p r : ℕ)
    → IsValid (record { table = t; control = scanning p })
    → state_at t.proc r ≡ runnable
    → r < nproc
    → Turned t p r (turn fns t p)
unfolding settle
turn-Turned fns t p r v s lt = elim (Bool-cases (ltb p nproc)) [
  | inr wrap ↦ turn_of fns t p r _ (scan_wrap t p wrap) (quiet 0 (scan_wrap t p wrap) (rw wrap))
  | inl i ↦ elim (Bool-cases (is_runnable (state_at t.proc p))) [
    | inr skip ↦
        turn_of fns t p r _ (scan_skip t p i skip) (quiet (p + 1) (scan_skip t p i skip) (rw i))
    | inl go ↦ turn_of fns t p r _ (scan_dispatch t p i go) (busy i (scan_dispatch t p i go))
  ]
]
  where
    quiet :
        (q : ℕ)
        → scan_slot t p ≡ record { table = t; control = scanning q }
        → q ≡ next_slot p
        → Turned t p r (record { table = t; control = scanning q })
    quiet q e same_slot = record {
      valid = (slot-Reach t p _ e v).0;
      slot = ap scanning same_slot;
      still = s;
      steps = (slot-Reach t p _ e v).1;
    }

    busy :
        ltb p nproc ≡ true
        → scan_slot t p ≡ record { table = dispatched t p; control = inside p }
        → Turned t p r (yield (spawn_all fns (dispatched t p)) p)
    busy i e =
        let f = slot-Reach t p (record { table = dispatched t p; control = inside p }) e v in
        let g =
          run-Turned fns (dispatched t p) p r f.0
            (λ ne.
              let b : (p == r) ≡ false = ground arith in
              rw
                (
                  state_at-set_state t.proc p r running (omega (arith, v.slots, ltb→lt p nproc i)),
                  b,
                )
                s)
            lt f.1 in
        record { valid = g.0; slot = rw i g.1; still = g.2; steps = g.3 }

Reach-trans : {a b c : Machine} → Reach a b → Reach b c → Reach a c
Reach-trans p here = p
Reach-trans p (next q s) = next (Reach-trans p q) s

-- A machine that scans some slot, written by its table and that slot.
by_slot :
    (P : Machine → Type 0) (m : Machine) (q : ℕ)
    → m.control ≡ scanning q
    → P m
    → P (record { table = m.table; control = scanning (slot_of m.control) })
by_slot P m q e h =
    subst (λ c. P (record { table = m.table; control = c }))
      (e ∙ sym (ap (λ c. scanning (slot_of c)) e)) h

turns-dispatch :
    (n : ℕ) (acts : ℕ → List ℕ) (t : Ptable) (p r : ℕ) {m : Machine}
    → IsValid (record { table = t; control = scanning p })
    → state_at t.proc r ≡ runnable
    → r < nproc
    → n ≡ distance p r
    → Reach m (record { table = t; control = scanning p })
    → ((turns acts n t p).control ≡ scanning r)
      × ((scan_slot (turns acts n t p).table r).control ≡ inside r)
      × Reach m (turns acts n t p)
unfolding turns is_runnable
turns-dispatch zero acts t p r v s lt e path =
    let here_now : p ≡ r = at_zero e in
    (
      ap scanning here_now,
      ap (λ (m : Machine). m.control) (scan_dispatch t r (lt→ltb r nproc lt) (rw s)),
      path,
    )
  where
    at_zero : 0 ≡ distance p r → p ≡ r
    at_zero h = ground arith
turns-dispatch (suc n) acts t p r v s lt e path =
    let f = turn-Turned (acts n) t p r v s lt in
    turns-dispatch n acts (turn (acts n) t p).table (slot_of (turn (acts n) t p).control) r
      (by_slot IsValid (turn (acts n) t p) (next_slot p) f.slot f.valid) f.still lt
      (nearer (slot_of (turn (acts n) t p).control) (ap slot_of f.slot))
      (by_slot (Reach _) (turn (acts n) t p) (next_slot p) f.slot (Reach-trans path f.steps))
  where
    nearer : (q : ℕ) → q ≡ next_slot p → n ≡ distance q r
    nearer q h = ground (arith, v.consistent.0)

-- From a valid state in which the scheduler is at slot `p`, a runnable process in slot `r` is
-- switched to after `distance p r` turns, at most eight, whatever the processes in between spawn;
-- the turns are steps of the machine.
pub dispatch_in_turn :
    (acts : ℕ → List ℕ) (t : Ptable) (p r : ℕ)
    → IsValid (record { table = t; control = scanning p })
    → state_at t.proc r ≡ runnable
    → r < nproc
    → ((turns acts (distance p r) t p).control ≡ scanning r)
      × ((scan_slot (turns acts (distance p r) t p).table r).control ≡ inside r)
      × Reach (record { table = t; control = scanning p }) (turns acts (distance p r) t p)
      × (distance p r ≤ 8)
dispatch_in_turn acts t p r v s lt =
    let f = turns-dispatch (distance p r) acts t p r v s lt refl here in
    (f.0, f.1, f.2, ground (arith, v.consistent.0))
