-- ===== src/Sched/Tests.antt =====
-- Tests of the scheduler, and its theorems at concrete tables.
use system.Common.{
  length, get_or, ◌<◌, [], arith, false, none, refl, replicate, some, suc, true, zero, ℕ, ◌∷◌, ◌≡◌,
  ◌≢◌, ◌≤◌,
}
use system.Sched.{
  frame, no_proc, Proc, Ptable, Reach, clear_states, find_unused, here, inside, is_unused, next,
  runnable, running, scan, scan_slot, scanning, sched_init, set_state, start_proc, state_at,
  task_l_spawn, unused,
}
use system.Sched.Fair.{dispatch_in_turn, distance, turns}
use system.Sched.Invariant.{IsValid, Reach-IsValid}
use system.Sched.Spawn.{Runs, task_l_spawn-Runs}

abbrev blank : Proc
blank = record { state = unused; context = 0; stack = replicate 1024 0 }

abbrev zeroed : Ptable
zeroed = record { proc = replicate 8 blank; current = some 0; sched_context = false }

-- The table as `kmain` leaves it before the scheduler starts: two processes.
abbrev task : ℕ → Proc
task fn = start_proc blank fn

abbrev two_tasks : Ptable
two_tasks = record {
  proc = task 0x11000 ∷ task 0x12000 ∷ replicate 6 blank;
  current = none;
  sched_context = true;
}

kmain_spawns : (task_l_spawn 0x12000 (task_l_spawn 0x11000 (sched_init zeroed)).1).0 ≡ some 1
unfolding task_l_spawn sched_init clear_states set_state find_unused is_unused start_proc
kmain_spawns = refl

two_tasks-IsValid : IsValid (record { table = two_tasks; control = scanning 0 })
unfolding start_proc
two_tasks-IsValid = record { slots = refl; consistent = (omega arith, refl, never) }
  where
    never : (i : ℕ) → state_at two_tasks.proc i ≢ running
    never zero e = cc
    never (suc zero) e = cc
    never (suc (suc zero)) e = cc
    never (suc (suc (suc zero))) e = cc
    never (suc (suc (suc (suc zero)))) e = cc
    never (suc (suc (suc (suc (suc zero))))) e = cc
    never (suc (suc (suc (suc (suc (suc zero)))))) e = cc
    never (suc (suc (suc (suc (suc (suc (suc zero))))))) e = cc
    never (suc (suc (suc (suc (suc (suc (suc (suc i)))))))) e = cc

second_runnable : state_at two_tasks.proc 1 ≡ runnable
unfolding start_proc
second_runnable = refl

two_tasks-stacks : (i : ℕ) → i < 8 → length (get_or two_tasks.proc i no_proc).stack ≡ 1024
unfolding start_proc frame
two_tasks-stacks zero lt = refl
two_tasks-stacks (suc zero) lt = refl
two_tasks-stacks (suc (suc zero)) lt = refl
two_tasks-stacks (suc (suc (suc zero))) lt = refl
two_tasks-stacks (suc (suc (suc (suc zero)))) lt = refl
two_tasks-stacks (suc (suc (suc (suc (suc zero))))) lt = refl
two_tasks-stacks (suc (suc (suc (suc (suc (suc zero)))))) lt = refl
two_tasks-stacks (suc (suc (suc (suc (suc (suc (suc zero))))))) lt = refl
two_tasks-stacks (suc (suc (suc (suc (suc (suc (suc (suc i)))))))) lt = absurd (omega arith)

task_l_spawn-Runs_example : Runs 0x13000 two_tasks (task_l_spawn 0x13000 two_tasks)
task_l_spawn-Runs_example = task_l_spawn-Runs 0x13000 two_tasks refl two_tasks-stacks

Reach-IsValid_example : IsValid (scan_slot two_tasks 0)
Reach-IsValid_example = Reach-IsValid two_tasks-IsValid (next here (scan two_tasks 0))

-- The first task spawns a third one and yields; then the second one runs.
dispatch_in_turn_example :
    ((turns (λ _. 0x13000 ∷ []) 1 two_tasks 0).control ≡ scanning 1)
    × ((scan_slot (turns (λ _. 0x13000 ∷ []) 1 two_tasks 0).table 1).control ≡ inside 1)
    × Reach
        (record { table = two_tasks; control = scanning 0 })
        (turns (λ _. 0x13000 ∷ []) 1 two_tasks 0)
    × (distance 0 1 ≤ 8)
dispatch_in_turn_example =
    dispatch_in_turn (λ _. 0x13000 ∷ []) two_tasks 0 1 two_tasks-IsValid second_runnable
      (omega arith)
