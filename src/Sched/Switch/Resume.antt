-- ===== src/Sched/Switch/Resume.antt =====
-- Two switches, away from a process and back, and the first switch to a process.
use system.Common.{
  List, [], arith, drop, get_or, length, refl, suc, zero, ℕ, ◌+◌, ◌<◌, ◌∷◌, ◌∙◌, ◌≡◌, ◌-◌, ◌≤◌, sym,
  ◌*◌, ◌^◌, ◌≢◌, ◌⊎◌,
}
use system.Cpu.{Cpu, execute}
use system.Cpu.Stack.{Holds, Words}
use system.Sched.{Proc, start_proc}
use system.Sched.Spawn.{Frame, start_proc-Frame}
use system.Sched.Switch.{swtch}
use system.Sched.Switch.Frames.{Called, frame_words, swtch-Switched, Words-kept}

-- The caller of `swtch` goes on behind its call, with the registers that a call keeps, and with its
-- stack.
pub record Back (c c' : Cpu) (e return_to : ℕ) (ws : List ℕ) : Type 0 where
  pub callee_saved : (c'.edi ≡ c.edi) × (c'.esi ≡ c.esi) × (c'.ebx ≡ c.ebx) × (c'.ebp ≡ c.ebp)
  pub goes_on : c'.eip ≡ return_to
  pub stack : Holds c' (e + 4) ws

-- A later call of `swtch`, with `n` words to load at `new`, on a stack that shares no word with its own.
pub record Ready (c : Cpu) (e return_to old new : ℕ) (ws : List ℕ) (n : ℕ) : Type 0 where
  pub stack : Holds c e (return_to ∷ old ∷ new ∷ ws)
  pub room : 16 ≤ e
  pub below : new + 4 * n < 2 ^ 32
  pub apart : (new + 4 * n ≤ e - 16) ⊎ (e + 12 + 4 * length ws ≤ new)
  pub old_apart :
      ((i : ℕ) → i < n → new + 4 * i ≢ old) × ((old + 4 ≤ e - 16) ⊎ (e + 12 + 4 * length ws ≤ old))

Ready-Called :
    (c : Cpu) (e return_to old new n : ℕ) (ws loaded : List ℕ)
    → n ≡ length loaded
    → Ready c e return_to old new ws n
    → Words c.memory new loaded
    → Called c e return_to old new ws loaded
Ready-Called c e return_to old new n ws loaded p k h =
    let q = rw p at k in
    record {
      stack = q.stack;
      room = q.room;
      other = h;
      below = q.below;
      apart = q.apart;
      old_apart = q.old_apart;
    }

-- A process that calls `swtch` is resumed by whatever later call, from a stack apart from its own, goes to
-- the address that was stored in `old`, provided that the memory still holds what the first call left in
-- the seven words there and in those behind them that belong to the stack: then it goes on behind its
-- call, with the registers that a call keeps.
pub swtch-Back :
    (c c2 : Cpu) (e return_to old new di si bx bp ip : ℕ) (ws rest : List ℕ)
    (e2 return_to2 old2 : ℕ) (ws2 : List ℕ)
    → Called c e return_to old new ws (frame_words di si bx bp ip rest)
    → Ready c2 e2 return_to2 old2 ((execute swtch c).memory old) ws2 (7 + length ws)
    → ((i : ℕ)
        → i < 7 + length ws
        → c2.memory ((execute swtch c).memory old + 4 * i)
          ≡ (execute swtch c).memory ((execute swtch c).memory old + 4 * i))
    → Back c (execute swtch c2) e return_to (old ∷ new ∷ ws)
swtch-Back c c2 e return_to old new di si bx bp ip ws rest e2 return_to2 old2 ws2 k k2 kept =
    let s = swtch-Switched c e return_to old new di si bx bp ip ws rest k in
    let stored = frame_words c.edi c.esi c.ebx c.ebp return_to (old ∷ new ∷ ws) in
    let place = (execute swtch c).memory old in
    let there =
      Words-kept stored (execute swtch c).memory c2.memory place
        (λ i lt. kept i (omega (arith, lt)))
        (at_place (execute swtch c).memory stored _ _ (sym s.saved) s.left) in
    let s2 =
      swtch-Switched c2 e2 return_to2 old2 place c.edi c.esi c.ebx c.ebp return_to ws2
        (old ∷ new ∷ ws)
        (Ready-Called c2 e2 return_to2 old2 place _ ws2 stored (omega arith) k2 there) in
    record {
      callee_saved = s2.callee_saved;
      goes_on = s2.goes_to;
      stack = record {
        pointer = s2.stack.pointer ∙ omega (arith, s.saved, k.room);
        words = rw (behind s.saved k.room) at s2.stack.words;
        below = omega (arith, k.stack.below);
      };
    }
  where
    behind : {a : ℕ} → a ≡ e - 16 → 16 ≤ e → a + 20 ≡ e + 4
    behind p q = omega arith

    at_place : (m : ℕ → ℕ) (xs : List ℕ) (a b : ℕ) → a ≡ b → Words m a xs → Words m b xs
    at_place m xs a b p h = rw p at h

drop-word : (xs : List ℕ) (n d : ℕ) → n < length xs → drop n xs ≡ get_or xs n d ∷ drop (n + 1) xs
drop-word [] n d lt = absurd (omega arith)
drop-word (x ∷ xs) zero d lt = refl
drop-word (x ∷ xs) (suc n) d lt =
    let p : suc n + 1 ≡ suc (n + 1) = omega arith in rw p (drop-word xs n d (omega arith))

-- The saved registers of a process that has not run.
spawned_words :
    (p : Proc) (fn : ℕ)
    → length p.stack ≡ 1024
    → drop (start_proc p fn).context (start_proc p fn).stack
      ≡ frame_words 0 0 0 0 fn (drop ((start_proc p fn).context + 5) (start_proc p fn).stack)
spawned_words p fn h = words (start_proc p fn) (start_proc-Frame p fn h)
  where
    words :
        (q : Proc)
        → Frame p.stack q fn
        → drop q.context q.stack ≡ frame_words 0 0 0 0 fn (drop (q.context + 5) q.stack)
    words q f =
        let d = λ (i : ℕ). drop-word q.stack (q.context + i) 1 in
        let a1 : q.context + 1 + 1 ≡ q.context + 2 = omega arith in
        let a2 : q.context + 2 + 1 ≡ q.context + 3 = omega arith in
        let a3 : q.context + 3 + 1 ≡ q.context + 4 = omega arith in
        let a4 : q.context + 4 + 1 ≡ q.context + 5 = omega arith in
        drop-word q.stack q.context 1 (omega (arith, f.in_stack))
        ∙ rw
            (
              f.edi,
              d 1 (omega (arith, f.in_stack)),
              f.esi,
              a1,
              d 2 (omega (arith, f.in_stack)),
              f.ebx,
              a2,
              d 3 (omega (arith, f.in_stack)),
              f.ebp,
              a3,
              d 4 (omega (arith, f.in_stack)),
              f.eip,
              a4,
            )
            refl

-- The processor is at `fn`, with the stack at `e`, and `old` points to the registers stored at `left`.
pub record Begins (fn old e left : ℕ) (c : Cpu) : Type 0 where
  pub at_function : c.eip ≡ fn
  pub zeros : (c.edi ≡ 0) × (c.esi ≡ 0) × (c.ebx ≡ 0) × (c.ebp ≡ 0)
  pub pointer : c.esp ≡ e
  pub stored : c.memory old ≡ left

-- The first switch to a process that `task_l_spawn` has set up, whose stack of 1024 words lies in memory
-- from its context on: it starts at its function, with the four registers zero.
pub swtch-spawned :
    (p : Proc) (fn : ℕ) (c : Cpu) (e return_to old new : ℕ) (ws : List ℕ)
    → length p.stack ≡ 1024
    → Called c e return_to old new ws (drop (start_proc p fn).context (start_proc p fn).stack)
    → Begins fn old (new + 20) (e - 16) (execute swtch c)
swtch-spawned p fn c e return_to old new ws h k =
    let s = swtch-Switched c e return_to old new 0 0 0 0 fn ws _ (rw (spawned_words p fn h) at k) in
    record {
      at_function = s.goes_to;
      zeros = s.callee_saved;
      pointer = s.stack.pointer;
      stored = s.saved;
    }
