-- ===== src/Vfs/Stale.antt =====
-- Writes through the handle of a file.
use mathlib.Core.Option
use mathlib.Core.Path.{subst}
use system.Common.{
  some, Bool-cases, Option, ap, arith, if◌then◌else◌, inl, inr, none, refl, ℕ, ℤ, ◌>>=◌, ◌≡◌, List,
  [], get_or, ◌++◌, ◌∷◌,
}
use system.CString.{strcmp}
use system.Fbcon.{codes}
use system.Kfs.{Kfs, Superblock, kfs_find, kfs_write, no_file}
use system.Kfs.Grow.{Grown, find-Grown, kfs_write-Grown}
use system.Shell.{is_zero}
use system.Vfs.{file, Handle, tty, Wrote, vfs_l_open, vfs_l_write}

-- What `open` gives, by its comparison with the terminal's path and the entry that is found.
handle_of : Option ℤ → Option (Option ℕ) → Option (Option Handle)
handle_of z found = do
  d ← z
  let by_name = Option.map (Option.map file) found
  if is_zero d then some (some tty) else by_name

index : Handle → ℕ
index tty = 0
index (file i) = i

handle_of-file :
    (z : Option ℤ) (found found' : Option (Option ℕ)) (i : ℕ)
    → (found ≡ some (some i) → found' ≡ some (some i))
    → handle_of z found ≡ some (some (file i))
    → (found ≡ some (some i)) × (handle_of z found' ≡ some (some (file i)))
unfolding handle_of index
handle_of-file none found found' i kept h = grind arith
handle_of-file (some d) none found' i kept h = grind arith
handle_of-file (some d) (some none) found' i kept h = grind arith
handle_of-file (some d) (some (some j)) found' i kept h = elim (Bool-cases (is_zero d)) [
  | inl e ↦ grind (arith, e, h)
  | inr e ↦
      let f : some (some j) ≡ some (some i) = ap (Option.map (Option.map index)) (rw e at h) in
      (f, rw (e, kept f) refl)
]

-- A write through the handle that a path opens changes nothing for the path: it opens the same handle
-- as before, and the entry there has its old name, first sector and size.
pub vfs_l_write-stale :
    (k : Kfs) (path buf : List ℕ) (count i : ℕ) (w : Wrote)
    → vfs_l_open k path ≡ some (some (file i))
    → vfs_l_write (some (file i)) buf count k ≡ some w
    → (vfs_l_open w.kfs path ≡ some (some (file i)))
      × (get_or w.kfs.superblock.files i no_file ≡ get_or k.superblock.files i no_file)
unfolding vfs_l_open vfs_l_write handle_of
vfs_l_write-stale k path buf count i w o h = wrote (kfs_write name buf count k) refl h
  where
    name : List ℕ
    name = (get_or k.superblock.files i no_file).file_name

    z : Option ℤ
    z = strcmp path (codes "/dev/tty" ++ (0 ∷ []))

    wrote :
        (r : Option (ℤ × Kfs))
        → kfs_write name buf count k ≡ r
        → Option.map (λ out. record { result = out.0; printed = []; kfs = out.1 }) r ≡ some w
        → (handle_of z (kfs_find w.kfs.superblock path) ≡ some (some (file i)))
          × (get_or w.kfs.superblock.files i no_file ≡ get_or k.superblock.files i no_file)
    wrote none e hw = grind arith
    wrote (some out) e hw =
        let g : Grown k.superblock w.kfs.superblock =
          subst (λ v. Grown k.superblock v) (ap kfs_of hw)
            (kfs_write-Grown name buf count k out e) in
        let f =
          handle_of-file z (kfs_find k.superblock path) (kfs_find w.kfs.superblock path) i
            (λ h. (find-Grown k.superblock w.kfs.superblock path i g h).0) o in
        (f.1, (find-Grown k.superblock w.kfs.superblock path i g f.0).1)
      where
        kfs_of : Option Wrote → Superblock
        kfs_of none = k.superblock
        kfs_of (some v) = v.kfs.superblock
