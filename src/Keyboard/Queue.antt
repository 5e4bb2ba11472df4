-- ===== src/Keyboard/Queue.antt =====
-- The keyboard as a bounded queue: in any order of interrupts and reads, the ring behaves as a first-in
-- first-out queue of at most 255 characters with a shift flag.
use system.Common.{
  Bool, List, Option, [], all_below, all_below_sound, arith, bit_and, false, get_or, if◌then◌else◌,
  leb, length, ltb, none, not, refl, same, same→eq, some, true, ℕ, ◌&&◌, ◌++◌, ◌<◌, ◌==◌, ◌||◌, ◌∷◌,
  ◌≡◌, Bool-cases, inl, inr, suc, ◌%◌, ◌+◌, ap, ◌-◌, ◌∙◌, ◌≢◌,
}
use system.Keyboard.{Keyboard, get_key, kbdus, kbdus_shift, keyboardirqh, put, boot, kbdbuf}
use system.Keyboard.Ring.{contents, IsValid, put_lem, count}

pub record Queue : Type 0 where
  pub waiting : List ℕ
  pub shifted : Bool

abbrev pub view : Keyboard → Queue
view k = record { waiting = contents k; shifted = k.shift }

-- What a scan code means while the shift flag is `s`.
pub data Key : Type 0 where
  shift_to : Bool → Key
  char : ℕ → Key
  nothing : Key

pub key_of : ℕ → Bool → Key
key_of sc s =
    if sc == 0x2A || sc == 0x36
    then shift_to true
    else if sc == 0xAA || sc == 0xB6
    then shift_to false
    else if ltb 127 sc
    then nothing
    else char (get_or (if s then kbdus_shift else kbdus) sc 0)

-- The queue drops a character when 255 wait, and the character 0 always.
pub press : Queue → Key → Queue
press q (shift_to b) = record q { shifted = b }
press q (char c) =
    if not (c == 0) && ltb (length q.waiting) 255
    then record q { waiting = q.waiting ++ (c ∷ []) }
    else q
press q nothing = q

read_from : Bool → List ℕ → Option ℕ × Queue
read_from s [] = (none, record { waiting = []; shifted = s })
read_from s (c ∷ rest) = (some c, record { waiting = rest; shifted = s })

pub read : Queue → Option ℕ × Queue
unfolding read_from
read q = read_from q.shifted q.waiting

-- An interrupt with the two bytes that its ports hold, or a call of `get_key`.
pub data Event : Type 0 where
  irq : (status sc : ℕ) → Event
  get : Event

-- What the reads of a sequence of events return, by the code and by the queue.
unfoldable pub run : Keyboard → List Event → List (Option ℕ)
run k [] = []
run k (irq status sc ∷ es) = run (keyboardirqh status sc k) es
run k (get ∷ es) = let (c, k') = get_key k in c ∷ run k' es

pub run_queue : Queue → List Event → List (Option ℕ)
run_queue q [] = []
run_queue q (irq status sc ∷ es) =
    run_queue (if bit_and status 1 == 0 then q else press q (key_of sc q.shifted)) es
run_queue q (get ∷ es) = let (c, q') = read q in c ∷ run_queue q' es

-- The release bit of a byte.
release_table : all_below 256 (λ sc. same (bit_and sc 0x80 == 0) (leb sc 127)) ≡ true
unfolding all_below
release_table = refl

release_bit : (sc : ℕ) → sc < 256 → (bit_and sc 0x80 == 0) ≡ leb sc 127
release_bit sc h =
    same→eq (bit_and sc 0x80 == 0) (leb sc 127)
      (all_below_sound 256 (λ sc. same (bit_and sc 0x80 == 0) (leb sc 127)) sc release_table h)

shift-put : (k : Keyboard) (c : ℕ) → (put k c).shift ≡ k.shift
unfolding put
shift-put k c = ground arith

view-put : (k : Keyboard) (c : ℕ) → IsValid k → view (put k c) ≡ press (view k) (char c)
unfolding press
view-put k c v = ground (arith, (put_lem k c v).1, shift-put k c)

put_char :
    (k : Keyboard) (c d : ℕ)
    → IsValid k
    → c ≡ d
    → IsValid (put k c) × (view (put k c) ≡ press (view k) (char d))
put_char k c d v e = rw e ((put_lem k d v).0, view-put k d v)

-- In a valid state and for a byte as scan code, the interrupt handler keeps the invariant and does
-- to the queue what the key means, or nothing where the status has no output ready.
pub keyboardirqh_refines :
    (status sc : ℕ) (k : Keyboard)
    → IsValid k
    → sc < 256
    → IsValid (keyboardirqh status sc k)
      × (view (keyboardirqh status sc k)
          ≡ (if bit_and status 1 == 0 then view k else press (view k) (key_of sc k.shift)))
unfolding keyboardirqh key_of press
keyboardirqh_refines status sc k v h = elim (Bool-cases (bit_and status 1 == 0)) [
  | inl idle ↦ rw idle (v, refl)
  | inr ready ↦ rw ready (elim (Bool-cases (sc == 0x2A || sc == 0x36)) [
    | inl t ↦ rw t (valid_with true, refl)
    | inr f ↦ rw f (elim (Bool-cases (sc == 0xAA || sc == 0xB6)) [
      | inl t ↦ rw t (valid_with false, refl)
      | inr g ↦
          rw (g, release_bit sc h)
            (elim (Bool-cases (ltb 127 sc)) [
              | inl up ↦ let e : leb sc 127 ≡ false = ground arith in rw (up, e) (v, refl)
              | inr down ↦
                  let e : leb sc 127 ≡ true = ground arith in
                  rw (down, e) (put_char k _ _ v (tables k.shift))
            ])
    ])
  ])
]
  where
    tables :
        (b : Bool)
        → (if b then get_or kbdus_shift sc 0 else get_or kbdus sc 0)
          ≡ get_or (if b then kbdus_shift else kbdus) sc 0
    tables true = refl
    tables false = refl

    valid_with : (b : Bool) → IsValid (record k { shift = b })
    valid_with b = record { storage = v.storage; head_in = v.head_in; tail_in = v.tail_in }

-- The indices round the ring when it is not empty.
indices_pop :
    (h t : ℕ)
    → h < 256
    → t < 256
    → h ≢ t
    → (h + 256 - t) % 256 ≡ suc ((h + 256 - (t + 1) % 256) % 256)
indices_pop h t hh ht ne = omega arith

-- `get_key` takes the oldest character, if there is one.
pub get_key_refines :
    (k : Keyboard)
    → IsValid k
    → IsValid (get_key k).1 × (((get_key k).0, view (get_key k).1) ≡ read (view k))
unfolding get_key read
get_key_refines k v = elim (Bool-cases (k.kbd_head == k.kbd_tail)) [
  | inl e ↦ rw e (v, at_rest (ground arith))
  | inr ne ↦
      rw ne (
        valid_behind,
        at_work (indices_pop k.kbd_head k.kbd_tail v.head_in v.tail_in (ground arith)),
      )
]
  where
    k' : Keyboard
    k' = record k { kbd_tail = (k.kbd_tail + 1) % kbdbuf }

    valid_behind : IsValid k'
    valid_behind = record { storage = v.storage; head_in = v.head_in; tail_in = omega arith }

    at_rest :
        count k ≡ 0 → ◌≡◌ {A = Option ℕ × Queue} (none, view k) (read_from k.shift (contents k))
    at_rest e = rw e

    at_work :
        count k ≡ suc (count k')
        → ◌≡◌ {A = Option ℕ × Queue}
            (some (get_or k.kbd_buffer k.kbd_tail 0), view k')
            (read_from k.shift (contents k))
    at_work e = rw e

-- The scan codes of a sequence of events are bytes.
abbrev pub AreBytes : List Event → Type 0
AreBytes [] = Unit
AreBytes (irq status sc ∷ es) = (sc < 256) × AreBytes es
AreBytes (get ∷ es) = AreBytes es

-- From a valid state, in any order of interrupts on bytes and of reads, the calls of `get_key`
-- return what the queue gives.
pub run_refines :
    (es : List Event) (k : Keyboard) → IsValid k → AreBytes es → run k es ≡ run_queue (view k) es
unfolding run run_queue
run_refines [] k v b = refl
run_refines (irq status sc ∷ es) k v b =
    let f = keyboardirqh_refines status sc k v b.0 in
    run_refines es (keyboardirqh status sc k) f.0 b.1 ∙ ap (λ q. run_queue q es) f.1
run_refines (get ∷ es) k v b =
    let f = get_key_refines k v in
    ap (λ r. (get_key k).0 ∷ r) (run_refines es (get_key k).1 f.0 b)
    ∙ ap (λ (p : Option ℕ × Queue). p.0 ∷ run_queue p.1 es) f.1

-- The ring is empty when the kernel starts.
pub boot-IsValid : IsValid boot × (contents boot ≡ [])
boot-IsValid = (record { storage = refl; head_in = omega arith; tail_in = omega arith }, refl)
