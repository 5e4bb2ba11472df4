-- ===== src/Cpu/Stack.antt =====
-- The words on a stack, as a list from the top, and how pushes and pops change it.
use system.Common.{
  List, [], arith, false, if◌then◌else◌, length, refl, ℕ, ◌%◌, ◌*◌, ◌+◌, ◌-◌, ◌<◌, ◌==◌, ◌^◌, ◌∙◌,
  ◌∷◌, ◌≡◌, ap, get_or, suc, zero, ◌++◌,
}
use system.Cpu.{Cpu, push, drop_word, top_word, assign, pop, pop_all, push_all, enter, return_from}

-- The words from address `e` on.
abbrev pub Words : (ℕ → ℕ) → ℕ → List ℕ → Type 0
Words m e [] = Unit
Words m e (w ∷ ws) = (m e ≡ w) × Words m (e + 4) ws

-- The stack pointer is `e`, and from there the stack holds `ws`, below the top of memory.
pub record Holds (c : Cpu) (e : ℕ) (ws : List ℕ) : Type 0 where
  pub pointer : c.esp ≡ e
  pub words : Words c.memory e ws
  pub below : e + 4 * length ws < 2 ^ 32

pub Words-store :
    (ws : List ℕ) (m : ℕ → ℕ) (e a v : ℕ)
    → a < e
    → Words m e ws
    → Words (λ b. if b == a then v else m b) e ws
Words-store [] m e a v lt h = tt
Words-store (w ∷ ws) m e a v lt h =
    let f : (e == a) ≡ false = ground arith in
    (rw f h.0, Words-store ws m (e + 4) a v (omega arith) h.1)

-- The word number `i`.
pub word_lem :
    (ws : List ℕ) (m : ℕ → ℕ) (e i : ℕ)
    → Words m e ws
    → i < length ws
    → m (e + 4 * i) ≡ get_or ws i 0
word_lem [] m e i h lt = absurd (omega arith)
word_lem (w ∷ ws) m e zero h lt = let z : e + 4 * 0 ≡ e = omega arith in rw z h.0
word_lem (w ∷ ws) m e (suc i) h lt =
    let d : e + 4 * suc i ≡ e + 4 + 4 * i = omega arith in
    rw d (word_lem ws m (e + 4) i h.1 (omega arith))

pub push-Holds :
    (c : Cpu) (e e' v : ℕ) (ws : List ℕ) → e ≡ e' + 4 → Holds c e ws → Holds (push v c) e' (v ∷ ws)
unfolding push
push-Holds c e e' v ws d h =
    let p : (c.esp + 2 ^ 32 - 4) % 2 ^ 32 ≡ e' = omega (arith, h.pointer, h.below) in
    rw p (record {
      pointer = refl;
      words = (ground arith, rw d at (Words-store ws c.memory e e' v (omega arith) h.words));
      below = omega (arith, h.below);
    })

pub drop_word-Holds :
    (c : Cpu) (e w : ℕ) (ws : List ℕ)
    → Holds c e (w ∷ ws)
    → (top_word c ≡ w) × Holds (drop_word c) (e + 4) ws
unfolding drop_word
drop_word-Holds c e w ws h = (
  ap c.memory h.pointer ∙ h.words.0,
  record {
    pointer = omega (arith, h.pointer, h.below);
    words = h.words.1;
    below = omega (arith, h.below);
  },
)

-- The eight registers, as `pusha` stores them.
abbrev pub saved : Cpu → List ℕ → List ℕ
saved c ws = c.edi ∷ c.esi ∷ c.ebp ∷ c.esp ∷ c.ebx ∷ c.edx ∷ c.ecx ∷ c.eax ∷ ws

pub push_all-Holds :
    (c : Cpu) (e e' : ℕ) (ws : List ℕ)
    → e ≡ e' + 32
    → Holds c e ws
    → Holds (push_all c) e' (saved c ws)
unfolding push_all push
push_all-Holds c e e' ws d h = push-Holds _ (e' + 4) e' c.edi _ refl (
    push-Holds _ (e' + 8) (e' + 4) c.esi _ (omega arith) (
      push-Holds _ (e' + 12) (e' + 8) c.ebp _ (omega arith) (
        push-Holds _ (e' + 16) (e' + 12) c.esp _ (omega arith) (
          push-Holds _ (e' + 20) (e' + 16) c.ebx _ (omega arith) (
            push-Holds _ (e' + 24) (e' + 20) c.edx _ (omega arith) (
              push-Holds _ (e' + 28) (e' + 24) c.ecx _ (omega arith)
                (push-Holds c e (e' + 28) c.eax ws (omega arith) h)))))))

-- What `popa` loads.
pub pop_all-saved :
    (c : Cpu) (e di si bp sp bx dx cx ax : ℕ) (ws : List ℕ)
    → Holds c e (di ∷ si ∷ bp ∷ sp ∷ bx ∷ dx ∷ cx ∷ ax ∷ ws)
    → pop_all c ≡ record c {
      eax = ax;
      ecx = cx;
      edx = dx;
      ebx = bx;
      esp = e + 32;
      ebp = bp;
      esi = si;
      edi = di;
    }
unfolding pop_all pop assign drop_word
pop_all-saved c e di si bp sp bx dx cx ax ws h =
    let w = λ (i : ℕ). word_lem (di ∷ si ∷ bp ∷ sp ∷ bx ∷ dx ∷ cx ∷ ax ∷ ws) c.memory e i h.words in
    let w0 : c.memory c.esp ≡ di = ap c.memory h.pointer ∙ h.words.0 in
    let w1 : c.memory (e + 4) ≡ si = w 1 (omega arith) in
    let w2 : c.memory (e + 8) ≡ bp = w 2 (omega arith) in
    let w4 : c.memory (e + 16) ≡ bx = w 4 (omega arith) in
    let w5 : c.memory (e + 20) ≡ dx = w 5 (omega arith) in
    let w6 : c.memory (e + 24) ≡ cx = w 6 (omega arith) in
    let w7 : c.memory (e + 28) ≡ ax = w 7 (omega arith) in
    let p1 : (c.esp + 4) % 2 ^ 32 ≡ e + 4 = omega (arith, h.pointer, h.below) in
    let p2 : (e + 4 + 4) % 2 ^ 32 ≡ e + 8 = omega (arith, h.below) in
    let p3 : (e + 8 + 4) % 2 ^ 32 ≡ e + 12 = omega (arith, h.below) in
    let p4 : (e + 12 + 4) % 2 ^ 32 ≡ e + 16 = omega (arith, h.below) in
    let p5 : (e + 16 + 4) % 2 ^ 32 ≡ e + 20 = omega (arith, h.below) in
    let p6 : (e + 20 + 4) % 2 ^ 32 ≡ e + 24 = omega (arith, h.below) in
    let p7 : (e + 24 + 4) % 2 ^ 32 ≡ e + 28 = omega (arith, h.below) in
    let p8 : (e + 28 + 4) % 2 ^ 32 ≡ e + 32 = omega (arith, h.below) in
    rw (w0, p1, w1, p2, w2, p3, p4, w4, p5, w5, p6, w6, p7, w7, p8) refl

-- What `iret` loads.
pub return_from-Holds :
    (c : Cpu) (e ip sel flags : ℕ) (ws : List ℕ)
    → Holds c e (ip ∷ sel ∷ flags ∷ ws)
    → return_from c ≡ record c { esp = e + 12; eip = ip; cs = sel; eflags = flags }
unfolding return_from drop_word
return_from-Holds c e ip sel flags ws h =
    let w0 : c.memory c.esp ≡ ip = ap c.memory h.pointer ∙ h.words.0 in
    let w1 : c.memory (e + 4) ≡ sel =
      word_lem (ip ∷ sel ∷ flags ∷ ws) c.memory e 1 h.words (omega arith) in
    let w2 : c.memory (e + 8) ≡ flags =
      word_lem (ip ∷ sel ∷ flags ∷ ws) c.memory e 2 h.words (omega arith) in
    let p1 : (c.esp + 4) % 2 ^ 32 ≡ e + 4 = omega (arith, h.pointer, h.below) in
    let p2 : (e + 4 + 4) % 2 ^ 32 ≡ e + 8 = omega (arith, h.below) in
    let p3 : (e + 8 + 4) % 2 ^ 32 ≡ e + 12 = omega (arith, h.below) in
    rw (w0, p1, w1, p2, w2, p3) refl

-- The words behind the first `n`, further up.
pub Words-rest :
    (first ws : List ℕ) (m : ℕ → ℕ) (e e' : ℕ)
    → e' ≡ e + 4 * length first
    → Words m e (first ++ ws)
    → Words m e' ws
Words-rest [] ws m e e' d h = let p : e' ≡ e = omega arith in rw p h
Words-rest (w ∷ first) ws m e e' d h = Words-rest first ws m (e + 4) e' (omega arith) h.1

pub enter-Holds :
    (c : Cpu) (handler e e' : ℕ) (ws : List ℕ)
    → e ≡ e' + 12
    → Holds c e ws
    → Holds (enter handler c) e' (c.eip ∷ c.cs ∷ c.eflags ∷ ws)
unfolding enter push
enter-Holds c handler e e' ws d h =
    let r = push-Holds _ (e' + 4) e' c.eip _ refl (
      push-Holds _ (e' + 8) (e' + 4) c.cs _ (omega arith)
        (push-Holds c e (e' + 8) c.eflags ws (omega arith) h)) in
    record { pointer = r.pointer; words = r.words; below = r.below }
