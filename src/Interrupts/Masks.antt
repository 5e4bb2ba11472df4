-- ===== src/Interrupts/Masks.antt =====
-- The masks of the interrupt controllers: what the statics say is what the controllers were told.
use system.Common.{
  List, ℕ, byte_test, bit_and_byte, IsByte, arith, ◌≡◌, ◌==◌, ◌<◌, ==_iff, Bool, Bool-cases, [],
  all_below, all_below_sound, ap, bit_and, false, if◌then◌else◌, inl, inr, ltb, refl, sym, true,
  ◌%◌, ◌++◌, ◌-◌, ◌^◌, ◌∙◌, ◌∷◌, ◌≤◌,
}
use system.Interrupts.{Interrupts, PortWrite, pic1_data, pic2_data, pic_remap, pic_setm, pic_unm}

-- Interrupt line `j` is masked, of the 16 lines of both controllers.
abbrev pub is_masked : Interrupts → ℕ → Bool
is_masked s j = if ltb j 8 then byte_test s.master_mask j else byte_test s.slave_mask (j - 8)

abbrev pub AreMasks : Interrupts → Type 0
AreMasks s = IsByte s.master_mask × IsByte s.slave_mask

-- A bit of a byte, after the low byte of `~(1 << k)` was put over it.
clear_line :
    (mask k j : ℕ)
    → IsByte mask
    → k < 8
    → j < 8
    → byte_test (bit_and mask (255 - 2 ^ k % 256)) j ≡ (if k == j then false else byte_test mask j)
unfolding all_below
clear_line mask k j h hk hj =
    let e : 2 ^ k % 256 ≡ 2 ^ k = small k hk in rw e (bit_and_byte mask k j h hk hj).0
  where
    powers : all_below 8 (λ k. (2 ^ k % 256) == (2 ^ k)) ≡ true
    powers = refl

    small : (k : ℕ) → k < 8 → 2 ^ k % 256 ≡ 2 ^ k
    small k h =
        (==_iff (2 ^ k % 256) (2 ^ k)).0
          (all_below_sound 8 (λ k. (2 ^ k % 256) == (2 ^ k)) k powers h)

-- `pic_unm` unmasks the line that it is given, of the 16 lines, and leaves the other 15.
pub pic_unm-is_masked :
    (irq j : ℕ) (s : Interrupts)
    → irq < 16
    → j < 16
    → AreMasks s
    → is_masked (pic_unm irq s).0 j ≡ (if irq == j then false else is_masked s j)
unfolding pic_unm
pic_unm-is_masked irq j s hi hj v = elim (Bool-cases (ltb irq 8)) [
  | inl lo ↦ elim (Bool-cases (ltb j 8)) [
    | inl lo' ↦ rw (lo, lo') (clear_line s.master_mask irq j v.0 (ground arith) (ground arith))
    | inr hi' ↦ rw (lo, hi') (let f : (irq == j) ≡ false = ground arith in rw f)
  ]
  | inr up ↦ elim (Bool-cases (ltb j 8)) [
    | inl lo' ↦ rw (up, lo') (let f : (irq == j) ≡ false = ground arith in rw f)
    | inr hi' ↦
        rw (up, hi')
          (clear_line s.slave_mask (irq - 8) (j - 8) v.1 (ground arith) (ground arith)
            ∙ same_line (ground arith) (ground arith))
  ]
]
  where
    same_line :
        8 ≤ irq
        → 8 ≤ j
        → (if (irq - 8) == (j - 8) then false else byte_test s.slave_mask (j - 8))
          ≡ (if irq == j then false else byte_test s.slave_mask (j - 8))
    same_line a b = ground arith

-- The last value that was written to a port, or `old` where there was none.
pub last_value : (port old : ℕ) → List PortWrite → ℕ
last_value port old [] = old
last_value port old (w ∷ ws) = last_value port (if w.port == port then w.value else old) ws

last_value-append :
    (port old : ℕ) (ws vs : List PortWrite)
    → last_value port old (ws ++ vs) ≡ last_value port (last_value port old ws) vs
unfolding last_value
last_value-append port old [] vs = refl
last_value-append port old (w ∷ ws) vs =
    last_value-append port (if w.port == port then w.value else old) ws vs

-- The operations on the masks, and any sequence of them, with all that they write.
pub data MaskCall : Type 0 where
  remap : (offset1 offset2 a1 a2 : ℕ) → MaskCall
  setm : (mask1 mask2 : ℕ) → MaskCall
  unm : ℕ → MaskCall

abbrev pub call : MaskCall → Interrupts → Interrupts × List PortWrite
call (remap offset1 offset2 a1 a2) s = pic_remap offset1 offset2 a1 a2 s
call (setm mask1 mask2) s = pic_setm mask1 mask2 s
call (unm irq) s = pic_unm irq s

pub calls : List MaskCall → Interrupts → Interrupts × List PortWrite
calls [] s = (s, [])
calls (c ∷ cs) s = let (s1, ws) = call c s in let (s2, vs) = calls cs s1 in (s2, ws ++ vs)

-- The statics agree with what the data ports were told last.
abbrev pub Agrees : Interrupts → Interrupts × List PortWrite → Type 0
Agrees s (s', ws) =
    (s'.master_mask ≡ last_value pic1_data s.master_mask ws)
    × (s'.slave_mask ≡ last_value pic2_data s.slave_mask ws)

call-Agrees : (c : MaskCall) (s : Interrupts) → Agrees s (call c s)
unfolding last_value pic_remap pic_setm pic_unm
call-Agrees (remap offset1 offset2 a1 a2) s = (refl, refl)
call-Agrees (setm mask1 mask2) s = (refl, refl)
call-Agrees (unm irq) s = elim (Bool-cases (ltb irq 8)) [
  | inl t ↦ rw t (refl, refl)
  | inr f ↦ rw f (refl, refl)
]

-- After any sequence of `pic_remap`, `pic_setm` and `pic_unm` the masks in the statics are the values
-- that were written to the controllers' data ports last.
pub calls-Agrees : (cs : List MaskCall) (s : Interrupts) → Agrees s (calls cs s)
unfolding calls last_value
calls-Agrees [] s = (refl, refl)
calls-Agrees (c ∷ cs) s =
    let one = call-Agrees c s in
    let rest = calls-Agrees cs (call c s).0 in
    let ws = (call c s).1 in
    let vs = (calls cs (call c s).0).1 in
    (
      rest.0
          ∙ ap (λ m. last_value pic1_data m vs) one.0
          ∙ sym (last_value-append pic1_data s.master_mask ws vs),
      rest.1
          ∙ ap (λ m. last_value pic2_data m vs) one.1
          ∙ sym (last_value-append pic2_data s.slave_mask ws vs),
    )
