-- ===== src/Vga/Queue.antt =====
-- `l_read` and `l_write`: the bytes of the two buffers of a terminal.
use mathlib.Core.List.{append-nil, append_assoc}
use native.Mathlib.Decide.{ℕ_discrete}
use system.Common.{
  min, List, refl, ℕ, [], ap, arith, drop, get_or, get_or-set, if◌then◌else◌, leb, length,
  length-set, ltb, set, suc, take, zero, ◌&&◌, ◌+◌, ◌<◌, ◌∙◌, ◌∷◌, ◌≡◌, Bool-cases, false, inl, inr,
  sym, ◌++◌, ◌-◌, ◌==◌, ◌≢◌, ◌≤◌,
}
use system.CString.{widen}
use system.Vga.{TtyDev, move_from, Vga, eprintf, l_read, write_from, eputchar, l_write}

-- The bytes that wait to be read.
abbrev pub input : TtyDev → List ℕ
input td = take td.input_pos td.input_buf

length-move_from : (n : ℕ) (buf : List ℕ) (i : ℕ) → length (move_from buf n i) ≡ length buf
unfolding move_from
length-move_from zero buf i = refl
length-move_from (suc n) buf i =
    length-move_from n (set buf i (get_or buf (i + 1) 0)) (i + 1)
    ∙ length-set buf i (get_or buf (i + 1) 0)

-- Each of the bytes moved is the one behind it.
move_from_lem :
    (n : ℕ) (buf : List ℕ) (i j : ℕ)
    → i + n < length buf
    → get_or (move_from buf n i) j 0
      ≡ (if leb i j && ltb j (i + n) then get_or buf (j + 1) 0 else get_or buf j 0)
unfolding move_from
move_from_lem zero buf i j h = ground arith
move_from_lem (suc n) buf i j h =
    let v = get_or buf (i + 1) 0 in
    move_from_lem n (set buf i v) (i + 1) j (omega (arith, length-set buf i v))
    ∙ rw (get_or-set buf i (j + 1) v 0 (omega arith), get_or-set buf i j v 0 (omega arith))
        (elim (ℕ_discrete i j) [ yes e ↦ rw e (ground arith) | no ne ↦ ground arith ])

take-drop-one :
    (n : ℕ) (xs ys : List ℕ)
    → n < length xs
    → length ys ≡ length xs
    → ((j : ℕ) → j < n → get_or ys j 0 ≡ get_or xs (suc j) 0)
    → take n ys ≡ drop 1 (take (suc n) xs)
take-drop-one zero [] ys h l e = absurd (omega arith)
take-drop-one zero (x ∷ xs) ys h l e = refl
take-drop-one (suc n) [] ys h l e = absurd (omega arith)
take-drop-one (suc n) (x ∷ []) ys h l e = absurd (omega arith)
take-drop-one (suc n) (x ∷ x' ∷ xs) [] h l e = absurd (omega arith)
take-drop-one (suc n) (x ∷ x' ∷ xs) (y ∷ ys) h l e =
    let first : y ≡ x' = e 0 (omega arith) in
    rw first (
      ap (◌∷◌ x') (
        take-drop-one n (x' ∷ xs) ys (omega arith) (omega arith) (λ j lt. e (suc j) (omega arith))))

moved_queue :
    (n : ℕ) (buf : List ℕ) (c : ℕ) (q : List ℕ)
    → n ≤ length buf
    → take n buf ≡ c ∷ q
    → (n ≢ 0) × (get_or buf 0 0 ≡ c) × (take (n - 1) (move_from buf (n - 1) 0) ≡ q)
moved_queue zero buf c q h e = let l : 0 ≡ suc (length q) = ap length e in absurd (omega arith)
moved_queue (suc n) [] c q h e = absurd (omega arith)
moved_queue (suc n) (x ∷ xs) c q h e =
    let m : suc n - 1 ≡ n = omega arith in
    (
      omega arith,
      ap (λ l. get_or l 0 0) e,
      rw m (
          take-drop-one n (x ∷ xs) (move_from (x ∷ xs) n 0) (omega arith)
            (length-move_from n (x ∷ xs) 0)
            (λ j lt.
              let e : j + 1 ≡ suc j = omega arith in
              rw e at (move_from_lem n (x ∷ xs) 0 j (omega arith)) ∙ ground arith)
          ∙ ap (drop 1) e),
    )

-- A read takes the byte that has waited longest, and leaves the others in their order.
pub l_read-first :
    (td : TtyDev) (c : ℕ) (q : List ℕ)
    → td.input_pos ≤ length td.input_buf
    → input td ≡ c ∷ q
    → ((l_read td).0 ≡ widen c)
      × (input (l_read td).1 ≡ q)
      × ((l_read td).1.output_buf ≡ td.output_buf)
unfolding l_read
l_read-first td c q h e =
    let m = moved_queue td.input_pos td.input_buf c q h e in
    let f : (td.input_pos == 0) ≡ false = ground (arith, m.0) in rw f (ap widen m.1, m.2, refl)

-- The bytes in the output buffer.
abbrev pub output : TtyDev → List ℕ
output td = take td.output_pos td.output_buf

take-set :
    (n : ℕ) (xs : List ℕ) (v : ℕ)
    → n < length xs
    → take (n + 1) (set xs n v) ≡ take n xs ++ (v ∷ [])
take-set zero [] v h = absurd (omega arith)
take-set zero (x ∷ xs) v h = refl
take-set (suc n) [] v h = absurd (omega arith)
take-set (suc n) (x ∷ xs) v h =
    let e : suc n + 1 ≡ suc (n + 1) = omega arith in
    rw e (ap (◌∷◌ x) (take-set n xs v (omega arith)))

drop-get_or : (i : ℕ) (xs : List ℕ) → i < length xs → drop i xs ≡ get_or xs i 0 ∷ drop (i + 1) xs
drop-get_or i [] h = absurd (omega arith)
drop-get_or zero (x ∷ xs) h = refl
drop-get_or (suc i) (x ∷ xs) h =
    let e : suc i + 1 ≡ suc (i + 1) = omega arith in rw e (drop-get_or i xs (omega arith))

-- What a write of the bytes `text` leaves: they are behind the output and on the screen.
pub record Written (td : TtyDev) (s : Vga) (text : List ℕ) (td' : TtyDev) (s' : Vga) : Type 0 where
  pub behind : output td' ≡ output td ++ text
  pub count : td'.output_pos ≡ td.output_pos + length text
  pub shown : s' ≡ eprintf text s
  pub same_input : input td' ≡ input td

Written-none : (td : TtyDev) (s : Vga) → Written td s [] td s
unfolding eprintf
Written-none td s = record {
  behind = sym (append-nil (output td));
  count = omega arith;
  shown = refl;
  same_input = refl;
}

-- The device after one byte.
pushed : TtyDev → ℕ → TtyDev
pushed td h = record td {
  output_buf = set td.output_buf td.output_pos h;
  output_pos = td.output_pos + 1;
}

Written-cons :
    (td : TtyDev) (s : Vga) (h : ℕ) (text : List ℕ) (td' : TtyDev) (s' : Vga)
    → td.output_pos < length td.output_buf
    → Written (pushed td h) (eputchar h s).0 text td' s'
    → Written td s (h ∷ text) td' s'
unfolding pushed eprintf
Written-cons td s h text td' s' lt w = record {
  behind =
      w.behind
      ∙ ap (λ (xs : List ℕ). xs ++ text) (take-set td.output_pos td.output_buf h lt)
      ∙ append_assoc (output td) (h ∷ []) text;
  count = omega (arith, w.count);
  shown = w.shown;
  same_input = w.same_input;
}

-- How many of `n` bytes the output buffer takes.
abbrev pub taken : TtyDev → ℕ → ℕ
taken td n = min n (128 - td.output_pos)

write_from-Written :
    (c : List ℕ) (n i : ℕ) (td : TtyDev) (s : Vga)
    → i + n ≤ length c
    → td.output_pos ≤ 128
    → length td.output_buf ≡ 128
    → (td' : TtyDev) × (s' : Vga) × (write_from c n i td s ≡ (i + taken td n, td', s'))
      × Written td s (take (taken td n) (drop i c)) td' s'
unfolding write_from pushed
write_from-Written c zero i td s h p l =
    let m : min 0 (128 - td.output_pos) ≡ 0 = omega arith in
    let z : i + 0 ≡ i = omega arith in rw (m, z) (td, s, refl, Written-none td s)
write_from-Written c (suc n) i td s h p l = elim (Bool-cases (ltb td.output_pos 128)) [
  | inr e ↦
      let m : min (suc n) (128 - td.output_pos) ≡ 0 = ground arith in
      let z : i + 0 ≡ i = omega arith in rw (e, m, z) (td, s, refl, Written-none td s)
  | inl e ↦
      let b = get_or c i 0 in
      let lt : td.output_pos < 128 = ground arith in
      let m : min (suc n) (128 - td.output_pos) ≡ suc (min n (128 - (td.output_pos + 1))) =
        omega arith in
      let r =
        write_from-Written c n (i + 1) (pushed td b) (eputchar b s).0 (omega arith) (omega arith)
          (length-set td.output_buf td.output_pos b ∙ l) in
      let k : i + suc (min n (128 - (td.output_pos + 1)))
          ≡ i + 1 + min n (128 - (td.output_pos + 1)) =
        omega arith in
      let d : drop i c ≡ b ∷ drop (i + 1) c = drop-get_or i c (omega arith) in
      rw (e, m, k, d)
        (
          r.0,
          r.1,
          r.2,
          Written-cons td s b (take (min n (128 - (td.output_pos + 1))) (drop (i + 1) c)) r.0 r.1
              (omega (arith, l)) r.3,
        )
]

-- A write takes as many bytes as the output buffer of 128 has room for, and says how many: they are
-- behind the output and on the screen, in their order, and the input is kept.
pub l_write-Written :
    (td : TtyDev) (c : List ℕ) (len : ℕ) (s : Vga)
    → len ≤ length c
    → td.output_pos ≤ 128
    → length td.output_buf ≡ 128
    → (td' : TtyDev) × (s' : Vga) × (l_write td c len s ≡ (taken td len, td', s'))
      × Written td s (take (taken td len) c) td' s'
unfolding l_write
l_write-Written td c len s h p l =
    let r = write_from-Written c len 0 td s (omega arith) p l in
    let z : 0 + taken td len ≡ taken td len = omega arith in (r.0, r.1, rw z at r.2, r.3)
