-- ===== src/Vfs/Terminal.antt =====
-- Writes to the terminal's handle.
use system.Common.{
  List, ℕ, ◌≡◌, ◌≤◌, length, min, some, pos, take, arith, [], ap, drop, false, if◌then◌else◌, leb,
  length-replicate, length-take, length-drop, refl, replicate, set, suc, sym, zero, ◌++◌, ◌<◌, ◌==◌,
  ◌∙◌, ◌∷◌,
}
use system.CString.Copy.{memcpy_lem}
use system.CString.Text.{IsText, c_string}
use system.Kfs.{Kfs}
use system.Shell.{c_text}
use system.Vfs.{tty, tty_write, vfs_l_write}

c_text-c_string : (s rest : List ℕ) → IsText s → c_text (c_string s rest) ≡ some s
unfolding c_text
c_text-c_string [] rest h = refl
c_text-c_string (c ∷ s) rest h =
    let f : (c == 0) ≡ false = ground (arith, h.0) in rw (f, c_text-c_string s rest h.1)

IsText-take : (n : ℕ) (s : List ℕ) → IsText s → IsText (take n s)
IsText-take zero s h = tt
IsText-take (suc n) [] h = tt
IsText-take (suc n) (c ∷ s) h = (h.0, IsText-take n s h.1)

set-behind :
    (xs ys : List ℕ) (v : ℕ) → 0 < length ys → set (xs ++ ys) (length xs) v ≡ xs ++ (v ∷ drop 1 ys)
set-behind [] [] v h = absurd (omega arith)
set-behind [] (y ∷ ys) v h = refl
set-behind (x ∷ xs) ys v h = ap (◌∷◌ x) (set-behind xs ys v h)

tty_write_lem :
    (buf : List ℕ) (len : ℕ) (k : Kfs)
    → IsText buf
    → len ≤ length buf
    → len < 512
    → tty_write buf len k ≡ some (record { result = pos len; printed = take len buf; kfs = k })
unfolding tty_write
tty_write_lem buf len k t h lt =
    let tail : List ℕ = drop len (replicate {A = ℕ} 512 0) in
    let l : length (take len buf) ≡ len = omega (arith, length-take len buf) in
    let r : length (replicate {A = ℕ} 512 0) ≡ 512 = length-replicate {A = ℕ} 512 0 in
    let s : set (take len buf ++ tail) len 0 ≡ c_string (take len buf) (drop 1 tail) =
      ap (λ n. set (take len buf ++ tail) n 0) (sym l)
      ∙ set-behind (take len buf) tail 0
          (omega (arith, length-drop {A = ℕ} len (replicate 512 0), r)) in
    rw (
      memcpy_lem (replicate 512 0) buf len (omega (arith, r)) h,
      s,
      c_text-c_string (take len buf) (drop 1 tail) (IsText-take len buf t),
    )

-- What the terminal gets of a text of which `count` bytes are to be written: those bytes, but never
-- more than 511; their number is returned, and the file system stays.
pub vfs_l_write-tty :
    (buf : List ℕ) (count : ℕ) (k : Kfs)
    → IsText buf
    → count ≤ length buf
    → vfs_l_write (some tty) buf count k
      ≡ some (record { result = pos (min count 511); printed = take (min count 511) buf; kfs = k })
unfolding vfs_l_write
vfs_l_write-tty buf count k t h =
    let e : (if leb 512 count then 511 else count) ≡ min count 511 = ground arith in
    rw e (tty_write_lem buf (min count 511) k t (omega arith) (omega arith))
