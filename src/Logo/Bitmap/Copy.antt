-- ===== src/Logo/Bitmap/Copy.antt =====
-- The copy of the pixels, row by row, from a buffer that shares no byte with the frame.
use native.Mathlib.Decide.{dec_lt, ℕ_discrete}
use system.Common.{
  arith, if◌then◌else◌, inl, inr, leb, ltb, suc, zero, ℕ, ◌%◌, ◌&&◌, ◌+◌, ◌-◌, ◌^◌, ◌∙◌, ◌≡◌, ◌≤◌,
  ◌⊎◌, ap, refl, ◌*◌, ◌<◌,
}
use system.Fb.{Memory, store}
use system.Logo.Bitmap.{copy_bytes, copy_rows}

-- Neither of two runs of `n` and `m` bytes reaches the other.
abbrev pub Apart : (a n b m : ℕ) → Type 0
Apart a n b m = (a + n ≤ b) ⊎ (b + m ≤ a)

pub copy_bytes_lem :
    (n d s : ℕ) (mem : Memory) (p : ℕ)
    → d + n ≤ 2 ^ 32
    → s + n ≤ 2 ^ 32
    → Apart d n s n
    → copy_bytes n d s mem p ≡ (if leb d p && ltb p (d + n) then mem (s + (p - d)) else mem p)
unfolding copy_bytes
copy_bytes_lem zero d s mem p hd hs ap' = ground arith
copy_bytes_lem (suc n) d s mem p hd hs ap' =
    let md : d % 2 ^ 32 ≡ d = omega arith in
    let ms : s % 2 ^ 32 ≡ s = omega arith in
    let r =
      copy_bytes_lem n (d + 1) (s + 1) (store mem d (mem s)) p (omega arith) (omega arith)
        (closer ap') in
    rw (md, ms)
      (r ∙ elim (dec_lt d p) [
        | yes lt ↦
            let e : s + 1 + (p - (d + 1)) ≡ s + (p - d) = omega arith in rw e (ground (arith, ap'))
        | no ge ↦ elim (ℕ_discrete p d) [
          | yes e ↦ let z : s + (p - d) ≡ s = omega arith in rw z (ground arith)
          | no ne ↦ ground arith
        ]
      ])
  where
    closer : Apart d (suc n) s (suc n) → Apart (d + 1) n (s + 1) n
    closer (inl h) = inl (omega arith)
    closer (inr h) = inr (omega arith)

source_end : (h y row : ℕ) → y < h → (h - 1 - y) * row + row ≤ h * row
source_end h y row lt =
    let e : h ≡ (h - 1 - y) + 1 + y = omega arith in
    let m : h * row ≡ ((h - 1 - y) + 1 + y) * row = ap (λ (t : ℕ). t * row) e in grind (arith, m)

later_row : (y y' pitch : ℕ) → y < y' → y * pitch + pitch ≤ y' * pitch
later_row y y' pitch h = grind arith

-- `rows` rows are drawn, from addresses below `stop`, and the buffer of `h` rows lies before them or
-- behind.
pub record Room (pitch row h img_buf dst bytes rows stop : ℕ) : Type 0 where
  pub in_pitch : bytes ≤ pitch
  pub in_row : bytes ≤ row
  pub in_image : rows ≤ h
  pub row_end : (y : ℕ) → y < rows → dst + y * pitch + bytes ≤ stop
  pub stops : stop ≤ 2 ^ 32
  pub buffer : img_buf + h * row ≤ 2 ^ 32
  pub away : (stop ≤ img_buf) ⊎ (img_buf + h * row ≤ dst)

module _ (pitch row h img_buf dst bytes rows stop : ℕ)
    (room : Room pitch row h img_buf dst bytes rows stop) where
  one_row :
      (y : ℕ) (mem : Memory) (p : ℕ)
      → y < rows
      → copy_bytes bytes (dst + y * pitch) (img_buf + (h - 1 - y) * row) mem p ≡ (
          if leb (dst + y * pitch) p && ltb p (dst + y * pitch + bytes)
          then mem (img_buf + (h - 1 - y) * row + (p - (dst + y * pitch)))
          else mem p)
  one_row y mem p lt =
      copy_bytes_lem bytes (dst + y * pitch) (img_buf + (h - 1 - y) * row) mem p
        (omega (arith, room.row_end y lt, room.stops))
        (omega (arith, source_end h y row (omega (arith, room.in_image)), room.in_row, room.buffer))
        (apart room.away)
    where
      apart :
          (stop ≤ img_buf) ⊎ (img_buf + h * row ≤ dst)
          → Apart (dst + y * pitch) bytes (img_buf + (h - 1 - y) * row) bytes
      apart (inl a) = inl (omega (arith, room.row_end y lt))
      apart (inr a) =
          inr (omega (arith, source_end h y row (omega (arith, room.in_image)), room.in_row))

  -- A byte in none of the rows stays.
  pub copy_rows-outside :
      (n y : ℕ) (mem : Memory) (p : ℕ)
      → n + y ≤ rows
      → ((y' : ℕ) → y ≤ y' → y' < y + n → (p < dst + y' * pitch) ⊎ (dst + y' * pitch + bytes ≤ p))
      → copy_rows pitch row h img_buf dst bytes n y mem p ≡ mem p
  unfolding copy_rows
  copy_rows-outside zero y mem p le out = refl
  copy_rows-outside (suc n) y mem p le out =
      copy_rows-outside n (y + 1) _ p (omega arith) (λ y' lo hi. out y' (omega arith) (omega arith))
      ∙ one_row y mem p (omega arith)
      ∙ ground (arith, out y (omega arith) (omega arith))

  -- The bytes of a row are those of the row of the buffer that lies as far from its end.
  pub copy_rows-inside :
      (n y : ℕ) (mem : Memory) (y' k : ℕ)
      → n + y ≤ rows
      → y ≤ y'
      → y' < y + n
      → k < bytes
      → copy_rows pitch row h img_buf dst bytes n y mem (dst + y' * pitch + k)
        ≡ mem (img_buf + (h - 1 - y') * row + k)
  unfolding copy_rows
  copy_rows-inside zero y mem y' k le lo hi lt = absurd (omega arith)
  copy_rows-inside (suc n) y mem y' k le lo hi lt = elim (ℕ_discrete y' y) [
    | yes e ↦ rw e (
        copy_rows-outside n (y + 1) _ (dst + y * pitch + k) (omega arith)
          (λ y'' lo' hi'. inl (omega (arith, later_row y y'' pitch (omega arith), room.in_pitch)))
        ∙ one_row y mem (dst + y * pitch + k) (omega arith)
        ∙ (let s : dst + y * pitch + k - (dst + y * pitch) ≡ k = omega arith in
            rw s (ground arith)))
    | no ne ↦
        copy_rows-inside n (y + 1) _ y' k (omega arith) (omega arith) (omega arith) lt
        ∙ one_row y mem (img_buf + (h - 1 - y') * row + k) (omega arith)
        ∙ ground (
          arith,
          room.away,
          room.row_end y (omega arith),
          source_end h y' row (omega (arith, room.in_image)),
          room.in_row,
        )
  ]
