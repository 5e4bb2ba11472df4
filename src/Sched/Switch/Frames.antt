-- ===== src/Sched/Switch/Frames.antt =====
-- `swtch`: what it loads, and what it leaves behind.
use system.Common.{
  true, refl, false, List, [], ap, arith, length, suc, ℕ, ◌%◌, ◌*◌, ◌+◌, ◌-◌, ◌<◌, ◌==◌, ◌^◌, ◌∙◌,
  ◌∷◌, ◌≡◌, ◌≢◌, ◌≤◌, ◌⊎◌, if◌then◌else◌, inl, inr,
}
use system.Cpu.{
  value, ret, Cpu, assign, drop_word, pop, push, r_ebp, r_ebx, r_edi, r_esi, step, execute,
}
use system.Cpu.Stack.{Words-rest, Holds, Words, push-Holds, word_lem}
use system.Sched.Switch.{swtch}

-- The four registers and the return address, as they lie on a stack, and what is behind them.
abbrev pub frame_words : (di si bx bp ip : ℕ) → List ℕ → List ℕ
frame_words di si bx bp ip ws = di ∷ si ∷ bx ∷ bp ∷ ip ∷ ws

-- The pops at the end, and the return.
load_frame :
    (c : Cpu) (e di si bx bp ip : ℕ) (ws : List ℕ)
    → Holds c e (frame_words di si bx bp ip ws)
    → step ret (pop r_ebp (pop r_ebx (pop r_esi (pop r_edi c))))
      ≡ record c { esp = e + 20; edi = di; esi = si; ebx = bx; ebp = bp; eip = ip }
unfolding step pop assign drop_word
load_frame c e di si bx bp ip ws h =
    let w = λ (i : ℕ). word_lem (frame_words di si bx bp ip ws) c.memory e i h.words in
    let w0 : c.memory c.esp ≡ di = ap c.memory h.pointer ∙ h.words.0 in
    let w1 : c.memory (e + 4) ≡ si = w 1 (omega arith) in
    let w2 : c.memory (e + 8) ≡ bx = w 2 (omega arith) in
    let w3 : c.memory (e + 12) ≡ bp = w 3 (omega arith) in
    let w4 : c.memory (e + 16) ≡ ip = w 4 (omega arith) in
    let p1 : (c.esp + 4) % 2 ^ 32 ≡ e + 4 = omega (arith, h.pointer, h.below) in
    let p2 : (e + 4 + 4) % 2 ^ 32 ≡ e + 8 = omega (arith, h.below) in
    let p3 : (e + 8 + 4) % 2 ^ 32 ≡ e + 12 = omega (arith, h.below) in
    let p4 : (e + 12 + 4) % 2 ^ 32 ≡ e + 16 = omega (arith, h.below) in
    let p5 : (e + 16 + 4) % 2 ^ 32 ≡ e + 20 = omega (arith, h.below) in
    rw (w0, p1, w1, p2, w2, p3, w3, p4, w4, p5) refl

-- Words that no write reaches.
pub Words-kept :
    (ws : List ℕ) (m m' : ℕ → ℕ) (e : ℕ)
    → ((i : ℕ) → i < length ws → m' (e + 4 * i) ≡ m (e + 4 * i))
    → Words m e ws
    → Words m' e ws
Words-kept [] m m' e kept h = tt
Words-kept (w ∷ ws) m m' e kept h =
    let z : e + 4 * 0 ≡ e = omega arith in
    (
      rw z at (kept 0 (omega arith)) ∙ h.0,
      Words-kept ws m m' (e + 4)
          (λ i lt.
            (let d : e + 4 * suc i ≡ e + 4 + 4 * i = omega arith in
              rw d at (kept (suc i) (omega arith))))
          h.1,
    )

-- A push writes one word, below the stack.
push-memory :
    (c : Cpu) (e e' v a : ℕ) (ws : List ℕ)
    → e ≡ e' + 4
    → Holds c e ws
    → a ≢ e'
    → (push v c).memory a ≡ c.memory a
unfolding push
push-memory c e e' v a ws d h ne =
    let p : (c.esp + 2 ^ 32 - 4) % 2 ^ 32 ≡ e' = omega (arith, h.pointer, h.below) in
    rw p (let f : (a == e') ≡ false = ground arith in rw f refl)

-- What a call of `swtch` finds: its arguments on the stack at `e`, with room for four words more, and at
-- `new`, on a stack that shares no word with this one, the registers to load. The word that `old` points
-- to lies on neither.
pub record Called (c : Cpu) (e return_to old new : ℕ) (ws loaded : List ℕ) : Type 0 where
  pub stack : Holds c e (return_to ∷ old ∷ new ∷ ws)
  pub room : 16 ≤ e
  pub other : Words c.memory new loaded
  pub below : new + 4 * length loaded < 2 ^ 32
  pub apart : (new + 4 * length loaded ≤ e - 16) ⊎ (e + 12 + 4 * length ws ≤ new)
  pub old_apart :
      ((i : ℕ) → i < length loaded → new + 4 * i ≢ old)
      × ((old + 4 ≤ e - 16) ⊎ (e + 12 + 4 * length ws ≤ old))

-- The four pushes, from the state in which the arguments have been loaded.
abbrev pushed : Cpu → Cpu
pushed c = push c.edi (push c.esi (push c.ebx (push c.ebp c)))

module _ (c : Cpu) (e return_to old new : ℕ) (ws loaded : List ℕ)
    (k : Called c e return_to old new ws loaded) where
  abbrev armed : Cpu
  armed = record c { eax = old; edx = new }

  armed-Holds : Holds armed e (return_to ∷ old ∷ new ∷ ws)
  armed-Holds = record { pointer = k.stack.pointer; words = k.stack.words; below = k.stack.below }

  pushed-Holds :
      Holds (pushed armed) (e - 16) (frame_words c.edi c.esi c.ebx c.ebp return_to (old ∷ new ∷ ws))
  pushed-Holds = push-Holds _ (e - 12) (e - 16) c.edi _ (omega (arith, k.room)) (
      push-Holds _ (e - 8) (e - 12) c.esi _ (omega (arith, k.room)) (
        push-Holds _ (e - 4) (e - 8) c.ebx _ (omega (arith, k.room))
          (push-Holds armed e (e - 4) c.ebp _ (omega (arith, k.room)) armed-Holds)))

  pushed-memory : (a : ℕ) → (a < e - 16) ⊎ (e ≤ a) → (pushed armed).memory a ≡ c.memory a
  pushed-memory a out =
      push-memory _ (e - 12) (e - 16) c.edi a _ (omega (arith, k.room))
        (push-Holds _ (e - 8) (e - 12) c.esi _ (omega (arith, k.room)) (
          push-Holds _ (e - 4) (e - 8) c.ebx _ (omega (arith, k.room))
            (push-Holds armed e (e - 4) c.ebp _ (omega (arith, k.room)) armed-Holds)))
        (omega (arith, k.room))
      ∙ push-memory _ (e - 8) (e - 12) c.esi a _ (omega (arith, k.room))
          (push-Holds _ (e - 4) (e - 8) c.ebx _ (omega (arith, k.room))
            (push-Holds armed e (e - 4) c.ebp _ (omega (arith, k.room)) armed-Holds))
          (omega (arith, k.room))
      ∙ push-memory _ (e - 4) (e - 8) c.ebx a _ (omega (arith, k.room))
          (push-Holds armed e (e - 4) c.ebp _ (omega (arith, k.room)) armed-Holds)
          (omega (arith, k.room))
      ∙ push-memory armed e (e - 4) c.ebp a _ (omega (arith, k.room)) armed-Holds
          (omega (arith, k.room))

  -- The memory behind the switch.
  abbrev after : ℕ → ℕ
  after a = if a == old then (pushed armed).esp else (pushed armed).memory a

  after-other : (a : ℕ) → a ≢ old → after a ≡ (pushed armed).memory a
  after-other a ne = let f : (a == old) ≡ false = ground arith in rw f refl

  after-loaded : Words after new loaded
  after-loaded =
      Words-kept loaded c.memory after new
        (λ i lt.
          after-other (new + 4 * i) (k.old_apart.0 i lt)
          ∙ pushed-memory (new + 4 * i) (away i lt k.apart))
        k.other
    where
      away :
          (i : ℕ)
          → i < length loaded
          → (new + 4 * length loaded ≤ e - 16) ⊎ (e + 12 + 4 * length ws ≤ new)
          → (new + 4 * i < e - 16) ⊎ (e ≤ new + 4 * i)
      away i lt (inl h) = inl (omega arith)
      away i lt (inr h) = inr (omega arith)

  after-left : Words after (e - 16) (frame_words c.edi c.esi c.ebx c.ebp return_to (old ∷ new ∷ ws))
  after-left =
      Words-kept (frame_words c.edi c.esi c.ebx c.ebp return_to (old ∷ new ∷ ws)) _ after (e - 16)
        (λ i lt. after-other (e - 16 + 4 * i) (away i (omega arith) k.old_apart.1))
        pushed-Holds.words
    where
      away :
          (i : ℕ)
          → i < 7 + length ws
          → (old + 4 ≤ e - 16) ⊎ (e + 12 + 4 * length ws ≤ old)
          → e - 16 + 4 * i ≢ old
      away i lt (inl h) = omega arith
      away i lt (inr h) = omega (arith, k.room)

-- What a switch has done: the registers that lay at `new` are loaded, with the stack behind them, and
-- `old` points to those that were stored.
pub record Switched (c c' : Cpu) (e return_to old new di si bx bp ip : ℕ) (ws rest : List ℕ)
    : Type 0 where
  pub callee_saved : (c'.edi ≡ di) × (c'.esi ≡ si) × (c'.ebx ≡ bx) × (c'.ebp ≡ bp)
  pub goes_to : c'.eip ≡ ip
  pub stack : Holds c' (new + 20) rest
  pub saved : c'.memory old ≡ e - 16
  pub left :
      Words c'.memory (e - 16) (frame_words c.edi c.esi c.ebx c.ebp return_to (old ∷ new ∷ ws))

-- From a call, `swtch` goes on at the address behind the registers that lay at `new`, with these
-- registers, and leaves the four registers of its caller and the return address at the address that it
-- stores in `old`.
pub swtch-Switched :
    (c : Cpu) (e return_to old new di si bx bp ip : ℕ) (ws rest : List ℕ)
    → Called c e return_to old new ws (frame_words di si bx bp ip rest)
    → Switched c (execute swtch c) e return_to old new di si bx bp ip ws rest
unfolding execute swtch step value assign push
swtch-Switched c e return_to old new di si bx bp ip ws rest k =
    let q1 : c.memory ((c.esp + 4) % 2 ^ 32) ≡ old =
      ap c.memory (omega (arith, k.stack.pointer, k.stack.below)) ∙ k.stack.words.1.0 in
    let q2 : c.memory ((c.esp + 8) % 2 ^ 32) ≡ new =
      ap c.memory (omega (arith, k.stack.pointer, k.stack.below)) ∙ k.stack.words.1.1.0 in
    let c5 = record (pushed (armed c e return_to old new ws (frame_words di si bx bp ip rest) k)) {
      memory = after c e return_to old new ws (frame_words di si bx bp ip rest) k;
      esp = new;
    } in
    rw
      (
        q1,
        q2,
        load_frame c5 new di si bx bp ip rest (record {
          pointer = refl;
          words = after-loaded c e return_to old new ws (frame_words di si bx bp ip rest) k;
          below = k.below;
        }),
      )
      (record {
        callee_saved = (refl, refl, refl, refl);
        goes_to = refl;
        stack = record {
          pointer = refl;
          words =
              Words-rest (frame_words di si bx bp ip []) rest _ new (new + 20) (omega arith)
                (after-loaded c e return_to old new ws (frame_words di si bx bp ip rest) k);
          below = omega (arith, k.below);
        };
        saved =
            (let t : (old == old) ≡ true = ground arith in
              rw t (
                (pushed-Holds c e return_to old new ws (frame_words di si bx bp ip rest)
                  k).pointer));
        left = after-left c e return_to old new ws (frame_words di si bx bp ip rest) k;
      })
