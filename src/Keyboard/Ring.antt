-- ===== src/Keyboard/Ring.antt =====
-- The ring of keyboard.c as the list of the characters that it holds, oldest first.
use mathlib.Core.Path.{ap₂}
use system.Common.{
  List, [], ap, arith, get_or, get_or-set_ne, get_or-set_self, if◌then◌else◌, length, ltb, not,
  refl, set, suc, zero, ℕ, ◌%◌, ◌&&◌, ◌++◌, ◌+◌, ◌-◌, ◌<◌, ◌==◌, ◌∙◌, ◌∷◌, ◌≡◌, Bool-cases, false,
  inl, inr, le→not_ltb, true, ◌≢◌, length-set, lt→ltb,
}
use system.Keyboard.{Keyboard, put, kbdbuf}

pub record IsValid (k : Keyboard) : Type 0 where
  pub storage : length k.kbd_buffer ≡ 256
  pub head_in : k.kbd_head < 256
  pub tail_in : k.kbd_tail < 256

-- The `n` characters from index `t` on, going round.
abbrev pub cells : List ℕ → ℕ → ℕ → List ℕ
cells buf t zero = []
cells buf t (suc n) = get_or buf t 0 ∷ cells buf ((t + 1) % 256) n

abbrev pub count : Keyboard → ℕ
count k = (k.kbd_head + 256 - k.kbd_tail) % 256

abbrev pub contents : Keyboard → List ℕ
contents k = cells k.kbd_buffer k.kbd_tail (count k)

length-cells : (buf : List ℕ) (t n : ℕ) → length (cells buf t n) ≡ n
length-cells buf t zero = refl
length-cells buf t (suc n) = ap suc (length-cells buf ((t + 1) % 256) n)

pub length-contents : (k : Keyboard) → length (contents k) ≡ count k
length-contents k = length-cells k.kbd_buffer k.kbd_tail (count k)

-- A write behind the last character does not change those before it.
cells-set :
    (buf : List ℕ) (c t n d : ℕ)
    → t < 256
    → n + d < 256
    → cells (set buf ((t + n + d) % 256) c) t n ≡ cells buf t n
cells-set buf c t zero d ht h = refl
cells-set buf c t (suc n) d ht h =
    let e : (t + suc n + d) % 256 ≡ ((t + 1) % 256 + n + d) % 256 = omega arith in
    let rest : cells (set buf ((t + suc n + d) % 256) c) ((t + 1) % 256) n
        ≡ cells buf ((t + 1) % 256) n =
      rw e (cells-set buf c ((t + 1) % 256) n d (omega arith) (omega arith)) in
    ap₂ ◌∷◌ (get_or-set_ne buf ((t + suc n + d) % 256) t c 0 (omega arith)) rest

-- One cell more is the next one in the ring.
cells-snoc :
    (buf : List ℕ) (t n : ℕ)
    → t < 256
    → cells buf t (suc n) ≡ cells buf t n ++ (get_or buf ((t + n) % 256) 0 ∷ [])
cells-snoc buf t zero ht = let e : (t + 0) % 256 ≡ t = omega arith in rw e
cells-snoc buf t (suc n) ht =
    let e : (t + suc n) % 256 ≡ ((t + 1) % 256 + n) % 256 = omega arith in
    rw (e, cells-snoc buf ((t + 1) % 256) n (omega arith))

cells-put :
    (buf : List ℕ) (c t n h : ℕ)
    → length buf ≡ 256
    → t < 256
    → n < 256
    → h ≡ (t + n) % 256
    → cells (set buf h c) t (suc n) ≡ cells buf t n ++ (c ∷ [])
cells-put buf c t n h hl ht hn e =
    let at_end : (t + n + 0) % 256 ≡ h = omega arith in
    let before : cells (set buf h c) t n ≡ cells buf t n =
      rw at_end at (cells-set buf c t n 0 ht (omega arith)) in
    let there : (t + n) % 256 ≡ h = omega arith in
    let last : get_or (set buf h c) ((t + n) % 256) 0 ≡ c =
      rw there (get_or-set_self buf h c 0 (omega arith)) in
    cells-snoc (set buf h c) t n ht ∙ ap₂ (λ xs x. xs ++ (x ∷ [])) before last

-- The indices round the ring when it is not full.
indices :
    (h t : ℕ)
    → h < 256
    → t < 256
    → (h + 1) % 256 ≢ t
    → (((h + 1) % 256 + 256 - t) % 256 ≡ suc ((h + 256 - t) % 256))
      × (h ≡ (t + (h + 256 - t) % 256) % 256)
      × ((h + 256 - t) % 256 < 255)
indices h t hh ht ne = omega arith

-- A character that is not 0 goes behind the others, if fewer than 255 wait; else nothing changes.
pub put_lem :
    (k : Keyboard) (c : ℕ)
    → IsValid k
    → IsValid (put k c)
      × (contents (put k c) ≡ (
          if not (c == 0) && ltb (length (contents k)) 255
          then contents k ++ (c ∷ [])
          else contents k))
unfolding put
put_lem k c v = elim (Bool-cases (c == 0)) [
  | inl none_typed ↦ rw none_typed (v, refl)
  | inr some_key ↦ rw some_key (elim (Bool-cases ((k.kbd_head + 1) % 256 == k.kbd_tail)) [
    | inl full ↦
        let e : ltb (length (contents k)) 255 ≡ false =
          rw (length-contents k)
            (le→not_ltb (count k) 255 (ground (arith, v.head_in, v.tail_in))) in
        rw (full, e) (v, refl)
    | inr space ↦ rw space (put-space (ground (arith, v.head_in, v.tail_in)))
  ])
]
  where
    k' : Keyboard
    k' = record k {
      kbd_buffer = set k.kbd_buffer k.kbd_head c;
      kbd_head = (k.kbd_head + 1) % kbdbuf;
    }

    put-space :
        (k.kbd_head + 1) % 256 ≢ k.kbd_tail
        → IsValid k'
          × (contents k' ≡ (
              if true && ltb (length (contents k)) 255 then contents k ++ (c ∷ []) else contents k))
    put-space ne =
        let f = indices k.kbd_head k.kbd_tail v.head_in v.tail_in ne in
        let room : ltb (length (contents k)) 255 ≡ true =
          rw (length-contents k) (lt→ltb (count k) 255 f.2) in
        rw room (
          record {
            storage = length-set k.kbd_buffer k.kbd_head c ∙ v.storage;
            head_in = omega arith;
            tail_in = v.tail_in;
          },
          ap (cells (set k.kbd_buffer k.kbd_head c) k.kbd_tail) f.0
              ∙ cells-put k.kbd_buffer c k.kbd_tail (count k) k.kbd_head v.storage v.tail_in
                  (omega (arith, f.2)) f.1,
        )
