-- ===== src/Sched/Spawn.antt =====
-- `task_l_spawn`: which slot it takes, what the new process starts with, and when it refuses.
use native.Mathlib.Decide.{dec_lt}
use system.Common.{
  Bool-cases, List, Option, arith, false, get_or, if◌then◌else◌, inl, inr, leb, length, ltb, none,
  some, suc, true, zero, ℕ, ◌&&◌, ◌+◌, ◌<◌, ◌==◌, ◌||◌, ◌≡◌, ◌≤◌, get_or-set, length-set, set, ◌∙◌,
  refl, ◌≢◌, ap,
}
use system.Sched.{
  ProcState, unused, runnable, running, Proc, find_unused, frame, is_unused, start_proc, state_at,
  Ptable, no_proc, nproc, task_l_spawn,
}

-- The first unused slot from `i` on, among `n` slots.
abbrev pub FirstUnused : List Proc → (n i : ℕ) → Option ℕ → Type 0
FirstUnused ps n i none = (j : ℕ) → i ≤ j → j < i + n → is_unused (state_at ps j) ≡ false
FirstUnused ps n i (some j) =
    (i ≤ j)
    × (j < i + n)
    × (is_unused (state_at ps j) ≡ true)
    × ((l : ℕ) → i ≤ l → l < j → is_unused (state_at ps l) ≡ false)

pub find_unused-FirstUnused : (ps : List Proc) (n i : ℕ) → FirstUnused ps n i (find_unused ps n i)
unfolding find_unused
find_unused-FirstUnused ps zero i = λ j lo hi. absurd (omega arith)
find_unused-FirstUnused ps (suc n) i = elim (Bool-cases (is_unused (state_at ps i))) [
  | inl t ↦ rw t (omega arith, omega arith, t, λ l lo hi. absurd (omega arith))
  | inr f ↦ rw f (behind f (find_unused ps n (i + 1)) (find_unused-FirstUnused ps n (i + 1)))
]
  where
    used_from :
        is_unused (state_at ps i) ≡ false
        → (l : ℕ) → i ≤ l
        → ((i + 1 ≤ l) → is_unused (state_at ps l) ≡ false)
        → is_unused (state_at ps l) ≡ false
    used_from f l lo later = elim (dec_lt i l) [
      | yes lt ↦ later (omega arith)
      | no ge ↦ let e : l ≡ i = omega arith in rw e f
    ]

    behind :
        is_unused (state_at ps i) ≡ false
        → (r : Option ℕ) → FirstUnused ps n (i + 1) r
        → FirstUnused ps (suc n) i r
    behind f none g = λ j lo hi. used_from f j lo (λ h. g j h (omega arith))
    behind f (some j) g =
        (omega (arith, g.0), omega (arith, g.1), g.2, λ l lo hi. used_from f l lo (λ h. g.3 l h hi))

-- The registers that a switch to the process would load, and the words that spawning leaves alone.
pub record Frame (old : List ℕ) (p : Proc) (fn : ℕ) : Type 0 where
  pub in_stack : p.context + 5 ≤ length p.stack
  pub edi : get_or p.stack p.context 1 ≡ 0
  pub esi : get_or p.stack (p.context + 1) 1 ≡ 0
  pub ebx : get_or p.stack (p.context + 2) 1 ≡ 0
  pub ebp : get_or p.stack (p.context + 3) 1 ≡ 0
  pub eip : get_or p.stack (p.context + 4) 1 ≡ fn
  pub below : (i d : ℕ) → i < p.context → get_or p.stack i d ≡ get_or old i d

frame-word :
    (xs : List ℕ) (fn i d : ℕ)
    → length xs ≡ 1024
    → get_or (frame xs fn) i d ≡ (
        if i == 1005 || i == 1022
        then fn
        else if leb 1001 i && ltb i 1005 || i == 1021
        then 0
        else get_or xs i d)
unfolding frame
frame-word xs fn i d h =
    let a = set xs 1022 fn in
    let b = set a 1021 0 in
    let c = set b 1004 0 in
    let e = set c 1003 0 in
    let f = set e 1002 0 in
    let g = set f 1001 0 in
    let ha : length a ≡ 1024 = length-set xs 1022 fn ∙ h in
    let hb : length b ≡ 1024 = length-set a 1021 0 ∙ ha in
    let hc : length c ≡ 1024 = length-set b 1004 0 ∙ hb in
    let he : length e ≡ 1024 = length-set c 1003 0 ∙ hc in
    let hf : length f ≡ 1024 = length-set e 1002 0 ∙ he in
    let hg : length g ≡ 1024 = length-set f 1001 0 ∙ hf in
    rw
      (
        get_or-set g 1005 i fn d (omega arith),
        get_or-set f 1001 i 0 d (omega arith),
        get_or-set e 1002 i 0 d (omega arith),
        get_or-set c 1003 i 0 d (omega arith),
        get_or-set b 1004 i 0 d (omega arith),
        get_or-set a 1021 i 0 d (omega arith),
        get_or-set xs 1022 i fn d (omega arith),
      )
      (ground arith)

length-frame : (xs : List ℕ) (fn : ℕ) → length (frame xs fn) ≡ length xs
unfolding frame
length-frame xs fn = simp length-set

-- The frame of a new process lies in its stack of 1024 words; it starts at `fn` with its other
-- registers 0, and the words below the frame are as they were.
pub start_proc-Frame :
    (p : Proc) (fn : ℕ) → length p.stack ≡ 1024 → Frame p.stack (start_proc p fn) fn
unfolding start_proc
start_proc-Frame p fn h = record {
  in_stack = omega (arith, length-frame p.stack fn);
  edi = frame-word p.stack fn 1001 1 h;
  esi = frame-word p.stack fn 1002 1 h;
  ebx = frame-word p.stack fn 1003 1 h;
  ebp = frame-word p.stack fn 1004 1 h;
  eip = frame-word p.stack fn 1005 1 h;
  below = λ i d lt. ground (arith, frame-word p.stack fn i d h);
}

-- Spawning takes the first unused slot: its process becomes runnable with a fresh frame, the other
-- slots and the rest of the table stay, and the slot's number is returned. With no unused slot the
-- table stays as it is, and -1 is returned.
abbrev pub Spawned : ℕ → Ptable → Option ℕ × Ptable → Type 0
Spawned fn t (none, t') = ((j : ℕ) → j < nproc → is_unused (state_at t.proc j) ≡ false) × (t' ≡ t)
Spawned fn t (some i, t') =
    (i < nproc)
    × (is_unused (state_at t.proc i) ≡ true)
    × ((l : ℕ) → l < i → is_unused (state_at t.proc l) ≡ false)
    × ((j : ℕ)
        → get_or t'.proc j no_proc
          ≡ (if i == j then start_proc (get_or t.proc i no_proc) fn else get_or t.proc j no_proc))
    × (length t'.proc ≡ length t.proc)
    × (t'.current ≡ t.current)
    × (t'.sched_context ≡ t.sched_context)

-- In a table of eight slots the first unused one is taken: its process becomes runnable with a fresh
-- frame, the other slots stay, and its number is returned. With no unused slot the table stays as it
-- is, and -1 is returned.
pub task_l_spawn-Spawned :
    (fn : ℕ) (t : Ptable) → length t.proc ≡ nproc → Spawned fn t (task_l_spawn fn t)
unfolding task_l_spawn
task_l_spawn-Spawned fn t h =
    by_slot (find_unused t.proc nproc 0) (find_unused-FirstUnused t.proc nproc 0)
  where
    by_slot :
        (r : Option ℕ)
        → FirstUnused t.proc nproc 0 r
        → Spawned fn t (elim r [
          | none ↦ (none, t)
          | some i ↦
              (some i, record t { proc = set t.proc i (start_proc (get_or t.proc i no_proc) fn) })
        ])
    by_slot none f = (λ j lt. f j (omega arith) lt, refl)
    by_slot (some i) f = (
      f.1,
      f.2,
      λ l lt. f.3 l (omega arith) lt,
      λ j. get_or-set t.proc i j _ no_proc (omega (arith, f.1)),
      length-set t.proc i _,
      refl,
      refl,
    )

-- The slot that spawning takes, spelled out: the first unused one, from now on runnable, with a frame
-- from which a switch starts at `fn` with its other registers 0. The other slots and the rest of the table
-- stay. With no unused slot nothing changes.
pub data Runs (fn : ℕ) (t : Ptable) : Option ℕ × Ptable → Type 0 where
  taken :
      (i : ℕ) (t' : Ptable)
      → i < nproc
      → (state_at t.proc i ≡ unused)
      → ((l : ℕ) → l < i → state_at t.proc l ≢ unused)
      → (state_at t'.proc i ≡ runnable)
      → Frame (get_or t.proc i no_proc).stack (get_or t'.proc i no_proc) fn
      → ((j : ℕ) → i ≢ j → get_or t'.proc j no_proc ≡ get_or t.proc j no_proc)
      → (length t'.proc ≡ length t.proc)
      → (t'.current ≡ t.current) × (t'.sched_context ≡ t.sched_context)
      → Runs fn t (some i, t')
  full : ((j : ℕ) → j < nproc → state_at t.proc j ≢ unused) → Runs fn t (none, t)

is_unused-unused : (st : ProcState) → is_unused st ≡ true → st ≡ unused
unfolding is_unused
is_unused-unused unused e = refl
is_unused-unused runnable e = cc
is_unused-unused running e = cc

used-not_unused : (st : ProcState) → is_unused st ≡ false → st ≢ unused
unfolding is_unused
used-not_unused st f e = let g : is_unused st ≡ true = rw e refl in cc

start_proc-runnable : (p : Proc) (fn : ℕ) → (start_proc p fn).state ≡ runnable
unfolding start_proc
start_proc-runnable p fn = refl

-- In a table of eight slots, each with a stack of 1024 words, the first unused one is taken: its process
-- becomes runnable, the frame on its stack starts it at `fn` with the other registers 0, the other slots
-- stay, and its number is returned. With no unused slot the table stays as it is, and -1 is returned.
pub task_l_spawn-Runs :
    (fn : ℕ) (t : Ptable)
    → length t.proc ≡ nproc
    → ((i : ℕ) → i < nproc → length (get_or t.proc i no_proc).stack ≡ 1024)
    → Runs fn t (task_l_spawn fn t)
task_l_spawn-Runs fn t h stacks = by_result (task_l_spawn fn t) (task_l_spawn-Spawned fn t h)
  where
    by_result : (r : Option ℕ × Ptable) → Spawned fn t r → Runs fn t r
    by_result (none, t') g = rw g.1 (full (λ j lt. used-not_unused _ (g.0 j lt)))
    by_result (some i, t') g =
        let at_i : get_or t'.proc i no_proc ≡ start_proc (get_or t.proc i no_proc) fn =
          ground (arith, g.3 i) in
        taken i t' g.0 (is_unused-unused _ g.1) (λ l lt. used-not_unused _ (g.2 l lt))
          (ap (λ (p : Proc). p.state) at_i ∙ start_proc-runnable _ fn)
          (rw at_i (start_proc-Frame (get_or t.proc i no_proc) fn (stacks i g.0)))
          (λ j ne. (let f : (i == j) ≡ false = ground arith in rw f at (g.3 j))) g.4 (g.5, g.6)
