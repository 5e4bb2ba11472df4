-- ===== src/CString/Compare.antt =====
-- `strcmp` decides whether two texts are equal.
use mathlib.Core.Path.{ap₂}
use native.Mathlib.Decide.{ℕ_discrete}
use system.Common.{
  List, [], arith, false, not, pos, refl, some, sub_ℕ, true, ℕ, ℤ, ◌&&◌, ◌==◌, ◌∷◌, ◌≡◌,
}
use system.CString.{strcmp}
use system.CString.Text.{IsText, c_string}

abbrev pub IsZero : ℤ → Type 0
IsZero z = z ≡ pos 0

-- On two terminated texts `strcmp` never reads behind the terminators, and its result is 0 exactly
-- if they are equal.
pub strcmp-IsZero_iff :
    (s t rest rest' : List ℕ)
    → IsText s
    → IsText t
    → (z : ℤ) × (strcmp (c_string s rest) (c_string t rest') ≡ some z)
      × ((IsZero z → s ≡ t) × (s ≡ t → IsZero z))
unfolding strcmp
strcmp-IsZero_iff [] [] rest rest' hs ht = (pos 0, refl, (λ _. refl, λ _. refl))
strcmp-IsZero_iff [] (b ∷ t) rest rest' hs ht =
    (sub_ℕ 0 b, refl, (λ z. absurd (ground (arith, ht.0)), λ e. cc))
strcmp-IsZero_iff (a ∷ s) [] rest rest' hs ht =
    (sub_ℕ a 0, ground (arith, hs.0), (λ z. absurd (ground (arith, hs.0)), λ e. cc))
strcmp-IsZero_iff (a ∷ s) (b ∷ t) rest rest' hs ht = elim (ℕ_discrete a b) [
  | yes e ↦
      let f = strcmp-IsZero_iff s t rest rest' hs.1 ht.1 in
      let g : (not (a == 0) && (a == b)) ≡ true = ground (arith, hs.0) in
      (f.0, rw g f.1, (λ z. ap₂ ◌∷◌ e (f.2.0 z), λ q. f.2.1 (tail_eq q)))
  | no ne ↦
      let g : (not (a == 0) && (a == b)) ≡ false = ground arith in
      (sub_ℕ a b, rw g, (λ z. absurd (ne (ground arith)), λ q. absurd (ne (head_eq q))))
]
  where
    tail_eq : (a ∷ s) ≡ (b ∷ t) → s ≡ t
    tail_eq q = cc

    head_eq : (a ∷ s) ≡ (b ∷ t) → a ≡ b
    head_eq q = cc
