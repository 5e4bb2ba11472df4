-- ===== src/Sched/Start.antt =====
-- Two processes spawned on a fresh table, as `kmain` does.
use native.Mathlib.Decide.{dec_lt}
use system.Common.{
  Option, ap, arith, false, get_or, if◌then◌else◌, length, none, refl, some, true, ℕ, ◌<◌, ◌==◌,
  ◌∙◌, ◌≡◌,
}
use system.Sched.{
  Proc, Ptable, enter, inside, is_unused, is_runnable, no_proc, nproc, sched_init, scan_slot,
  start_proc, state_at, task_l_spawn, unused,
}
use system.Sched.Invariant.{IsValid, sched_init_lem}
use system.Sched.Spawn.{Spawned, task_l_spawn-Spawned}

-- A process is put into slot `k`, the first unused one.
record Takes (fn k : ℕ) (t t' : Ptable) : Type 0 where
  slots :
      (j : ℕ)
      → get_or t'.proc j no_proc
        ≡ (if k == j then start_proc (get_or t.proc k no_proc) fn else get_or t.proc j no_proc)
  count : length t'.proc ≡ length t.proc
  current : t'.current ≡ t.current

Spawned-Takes :
    (fn k : ℕ) (t : Ptable) (r : Option ℕ × Ptable)
    → Spawned fn t r
    → k < nproc
    → ((l : ℕ) → l < k → is_unused (state_at t.proc l) ≡ false)
    → is_unused (state_at t.proc k) ≡ true
    → Takes fn k t r.1
Spawned-Takes fn k t (none, t') s lt before clear = let f = s.0 k lt in cc
Spawned-Takes fn k t (some i, t') s lt before clear = elim (dec_lt i k) [
  | yes l ↦ let f = before i l in let g = s.1 in cc
  | no n ↦ elim (dec_lt k i) [
    | yes l ↦ let f = s.2 k l in cc
    | no m ↦
        let e : i ≡ k = omega arith in record { slots = rw e at s.3; count = s.4; current = s.5 }
  ]
]

enter_slots : (t : Ptable) → IsValid (enter t) → length t.proc ≡ nproc
unfolding enter
enter_slots t v = v.slots

is_free : (t : Ptable) (k : ℕ) → state_at t.proc k ≡ unused → is_unused (state_at t.proc k) ≡ true
unfolding is_unused
is_free t k e = rw e refl

started : (p : Proc) (fn : ℕ) (q : Proc) → q ≡ start_proc p fn → is_unused q.state ≡ false
unfolding start_proc is_unused
started p fn q e = rw e refl

first_scan :
    (t : Ptable) (p : Proc) (fn : ℕ)
    → get_or t.proc 0 no_proc ≡ start_proc p fn
    → (scan_slot (enter t).table 0).control ≡ inside 0
unfolding enter scan_slot start_proc is_runnable
first_scan t p fn e = rw e refl

-- The table with `task1` in slot 0, `sh` in slot 1 and no other process, and the scheduler's first turn.
pub record TwoTasks (task1 sh : ℕ) (t t' : Ptable) : Type 0 where
  pub first : get_or t'.proc 0 no_proc ≡ start_proc (get_or (sched_init t).proc 0 no_proc) task1
  pub second : get_or t'.proc 1 no_proc ≡ start_proc (get_or (sched_init t).proc 1 no_proc) sh
  pub others : (j : ℕ) → 1 < j → j < nproc → state_at t'.proc j ≡ unused
  pub none_current : t'.current ≡ none
  pub first_turn : (scan_slot (enter t').table 0).control ≡ inside 0

pub spawn-TwoTasks :
    (task1 sh : ℕ) (t : Ptable)
    → length t.proc ≡ nproc
    → TwoTasks task1 sh t (task_l_spawn sh (task_l_spawn task1 (sched_init t)).1).1
spawn-TwoTasks task1 sh t len = record {
  first = second_slot.slots 0 ∙ first_slot.slots 0;
  second = second_slot.slots 1 ∙ ap (λ (p : Proc). start_proc p sh) (first_slot.slots 1);
  others = λ j lo hi. (ap (λ (p : Proc). p.state) (behind j lo) ∙ fresh.0 j hi);
  none_current = second_slot.current ∙ first_slot.current ∙ fresh.1;
  first_turn = turn (second_slot.slots 0 ∙ first_slot.slots 0);
}
  where
    t1 : Ptable
    t1 = sched_init t

    t2 : Ptable
    t2 = (task_l_spawn task1 t1).1

    t3 : Ptable
    t3 = (task_l_spawn sh t2).1

    fresh :
        ((j : ℕ) → j < nproc → state_at t1.proc j ≡ unused)
        × (t1.current ≡ none)
        × IsValid (enter t1)
    fresh = sched_init_lem t len

    first_slot : Takes task1 0 t1 t2
    first_slot =
        Spawned-Takes task1 0 t1 (task_l_spawn task1 t1)
          (task_l_spawn-Spawned task1 t1 (enter_slots t1 fresh.2)) (omega arith)
          (λ l lt. absurd (omega arith)) (is_free t1 0 (fresh.0 0 (omega arith)))

    used_first : (l : ℕ) → l < 1 → is_unused (state_at t2.proc l) ≡ false
    used_first l lt =
        let e : l ≡ 0 = omega arith in
        rw e
          (started (get_or t1.proc 0 no_proc) task1 (get_or t2.proc 0 no_proc) (first_slot.slots 0))

    second_slot : Takes sh 1 t2 t3
    second_slot =
        Spawned-Takes sh 1 t2 (task_l_spawn sh t2)
          (task_l_spawn-Spawned sh t2 (first_slot.count ∙ enter_slots t1 fresh.2)) (omega arith)
          used_first
          (is_free t2 1 (ap (λ (p : Proc). p.state) (first_slot.slots 1) ∙ fresh.0 1 (omega arith)))

    behind : (j : ℕ) → 1 < j → get_or t3.proc j no_proc ≡ get_or t1.proc j no_proc
    behind j lo =
        let a : (1 == j) ≡ false = ground arith in
        let b : (0 == j) ≡ false = ground arith in
        second_slot.slots j ∙ rw a (first_slot.slots j ∙ rw b refl)

    turn :
        get_or t3.proc 0 no_proc ≡ start_proc (get_or t1.proc 0 no_proc) task1
        → (scan_slot (enter t3).table 0).control ≡ inside 0
    turn e = first_scan t3 (get_or t1.proc 0 no_proc) task1 e
