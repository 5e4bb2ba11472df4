-- ===== src/Sched/Switch/Tests.antt =====
-- A process at 0x8000 that switches to one at 0x9000, and is resumed from a stack at 0xA000.
use system.Common.{
  ℕ, length-replicate, [], ◌∷◌, refl, arith, inl, inr, replicate, drop, get_or, if◌then◌else◌, ◌-◌,
  ◌/◌, ◌==◌, false, ◌*◌, ◌+◌, ◌<◌, ◌≡◌,
}
use system.Cpu.{step, push, pop, value, assign, drop_word, Cpu, execute}
use system.Sched.{frame, Proc, start_proc, unused}
use system.Sched.Switch.{swtch}
use system.Sched.Switch.Frames.{Called, frame_words}
use system.Sched.Switch.Resume.{Begins, Back, swtch-Back, swtch-spawned, Ready}

abbrev first : Cpu
first = record {
  eax = 1;
  ecx = 2;
  edx = 3;
  ebx = 4;
  esp = 0x8000;
  ebp = 5;
  esi = 6;
  edi = 7;
  eip = 0;
  cs = 8;
  eflags = 0x202;
  memory = λ a.
      (if a == 0x8000
        then 0x111
        else if a == 0x8004
        then 0x500
        else if a == 0x8008
        then 0x9000
        else a);
}

first-Called :
    Called first 0x8000 0x111 0x500 0x9000 [] (frame_words 0x9000 0x9004 0x9008 0x900c 0x9010 [])
first-Called = record {
  stack = record { pointer = refl; words = (refl, (refl, (refl, tt))); below = omega arith };
  room = omega arith;
  other = (refl, (refl, (refl, (refl, (refl, tt)))));
  below = omega arith;
  apart = inr (omega arith);
  old_apart = (λ i lt. omega arith, inl (omega arith));
}

abbrev later : Cpu
later = record first {
  esp = 0xA000;
  memory = λ a.
      (if a == 0xA000
        then 0x222
        else if a == 0xA004
        then 0x504
        else if a == 0xA008
        then 0x7ff0
        else (execute swtch first).memory a);
}

later-Ready : Ready later 0xA000 0x222 0x504 ((execute swtch first).memory 0x500) [] 7
unfolding execute step swtch push pop value assign drop_word
later-Ready = record {
  stack = record { pointer = refl; words = (refl, (refl, (refl, tt))); below = omega arith };
  room = omega arith;
  below = omega arith;
  apart = inl (omega arith);
  old_apart = (λ i lt. omega arith, inl (omega arith));
}

-- The stack that was left lies below the words that the later call finds.
first_left : (execute swtch first).memory 0x500 ≡ 0x7ff0
unfolding execute step swtch push pop value assign drop_word
first_left = refl

later_kept :
    (i : ℕ)
    → i < 7
    → later.memory ((execute swtch first).memory 0x500 + 4 * i)
      ≡ (execute swtch first).memory ((execute swtch first).memory 0x500 + 4 * i)
later_kept i lt = elsewhere _ (omega (arith, first_left))
  where
    elsewhere : (a : ℕ) → a < 0xA000 → later.memory a ≡ (execute swtch first).memory a
    elsewhere a h =
        let f0 : (a == 0xA000) ≡ false = ground arith in
        let f1 : (a == 0xA004) ≡ false = ground arith in
        let f2 : (a == 0xA008) ≡ false = ground arith in rw (f0, f1, f2) refl

swtch-Back_example : Back first (execute swtch later) 0x8000 0x111 (0x500 ∷ 0x9000 ∷ [])
swtch-Back_example =
    swtch-Back first later 0x8000 0x111 0x500 0x9000 0x9000 0x9004 0x9008 0x900c 0x9010 [] [] 0xA000
      0x222 0x504 [] first-Called later-Ready later_kept

abbrev process : Proc
process = record { state = unused; context = 0; stack = replicate 1024 0 }

-- The processor with the process's stack at 0x20000.
abbrev starting : Cpu
starting = record first {
  memory = λ a.
      (if a == 0x8000
        then 0x111
        else if a == 0x8004
        then 0x500
        else if a == 0x8008
        then 0x20000
        else get_or (drop (start_proc process 0x5000).context (start_proc process 0x5000).stack)
            ((a - 0x20000) / 4) 0);
}

starting-Called :
    Called starting 0x8000 0x111 0x500 0x20000 []
      (drop (start_proc process 0x5000).context (start_proc process 0x5000).stack)
unfolding start_proc frame
starting-Called = record {
  stack = record { pointer = refl; words = (refl, (refl, (refl, tt))); below = omega arith };
  room = omega arith;
  other = omega arith;
  below = omega arith;
  apart = inr (omega arith);
  old_apart = (λ i lt. omega arith, inl (omega arith));
}

swtch-spawned_example : Begins 0x5000 0x500 0x20014 0x7ff0 (execute swtch starting)
swtch-spawned_example =
    swtch-spawned process 0x5000 starting 0x8000 0x111 0x500 0x20000 []
      (length-replicate {A = ℕ} 1024 0) starting-Called
