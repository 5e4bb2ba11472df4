-- ===== src/Kfs/Grow.antt =====
-- `kfs_write` on a volume that has the name already: the first entry of the name stays, and is still
-- the one that `kfs_find` finds.
use mathlib.Core.Option
use mathlib.Core.Path.{subst}
use system.Common.{
  List, some, Option, [], ap, arith, get_elem?, negsuc, none, pos, refl, set, suc, zero, ℕ, ℤ, ◌+◌,
  ◌<◌, ◌∷◌, ◌≡◌, ◌≢◌, Bool-cases, get_or, get_or-set_ne, inl, inr, leb,
}
use system.CString.{strcpy}
use system.Kfs.{
  Kfs, Superblock, kfs_find, kfs_write, no_file, with_file, write_superblock, KfsFile, compared,
  comparison, find_from,
}
use system.Kfs.Write.{name'}

-- One entry of a search, by what its comparison gives.
compared-kept :
    (o : Option ℤ) (i j n : ℕ) (rest rest' : Option (Option ℕ))
    → i < n
    → (rest ≡ some (some j) → (j < n) × (rest' ≡ some (some j)))
    → compared o i rest ≡ some (some j)
    → (j < n) × (compared o i rest' ≡ some (some j))
unfolding compared
compared-kept none i j n rest rest' lt ih h = grind arith
compared-kept (some (pos zero)) i j n rest rest' lt ih h =
    let e : i ≡ j = grind arith in (omega arith, h)
compared-kept (some (pos (suc d))) i j n rest rest' lt ih h = ih h
compared-kept (some (negsuc d)) i j n rest rest' lt ih h = ih h

-- A search that ends at an entry ends there too with one entry more, where no entry that it passes
-- has changed.
find_from-longer :
    (files files' : List KfsFile) (name : List ℕ) (n i j : ℕ)
    → ((k : ℕ) → k < i + n → get_elem? files' k ≡ get_elem? files k)
    → find_from files name n i ≡ some (some j)
    → (j < i + n) × (find_from files' name (suc n) i ≡ some (some j))
unfolding find_from
find_from-longer files files' name zero i j same_files e = grind arith
find_from-longer files files' name (suc n) i j same_files e =
    let c =
      compared-kept (comparison (get_elem? files i) name) i j (i + suc n)
        (find_from files name n (i + 1)) (find_from files' name (suc n) (i + 1)) (omega arith)
        (λ h.
          let r =
            find_from-longer files files' name n (i + 1) j (λ k lt. same_files k (omega arith)) h in
          (omega (arith, r.0), r.1))
        e in
    rw (same_files i (omega arith)) c

get_elem?-set_ne {ℓ} :
    {A : Type ℓ} (xs : List A) (i j : ℕ) (x : A) → i ≢ j → get_elem? (set xs i x) j ≡ get_elem? xs j
get_elem?-set_ne [] i j x h = refl
get_elem?-set_ne (y ∷ xs) zero zero x h = absurd (h refl)
get_elem?-set_ne (y ∷ xs) zero (suc j) x h = refl
get_elem?-set_ne (y ∷ xs) (suc i) zero x h = refl
get_elem?-set_ne (y ∷ xs) (suc i) (suc j) x h = get_elem?-set_ne xs i j x (λ e. h (ap suc e))

-- The new superblock is the old one with one entry behind its last, where it is another at all.
pub data Grown (sb : Superblock) : Superblock → Type 0 where
  full : Grown sb sb
  entered :
      (f : KfsFile)
      → Grown sb
          (record sb { file_count = sb.file_count + 1; files = set sb.files sb.file_count f })

pub kfs_write-Grown :
    (name buf : List ℕ) (size : ℕ) (k : Kfs) (out : ℤ × Kfs)
    → kfs_write name buf size k ≡ some out
    → Grown k.superblock out.1.superblock
unfolding kfs_write write_superblock with_file
kfs_write-Grown name buf size k out h = elim (Bool-cases (leb 8 k.superblock.file_count)) [
  | inl e ↦
      let same_volume : k ≡ out.1 = ap (λ o. (get_some (negsuc 0, k) o).1) (rw e at h) in
      subst (λ v. Grown k.superblock v.superblock) same_volume full
  | inr e ↦
      copied (strcpy (get_or k.superblock.files k.superblock.file_count no_file).file_name name)
        (rw e at h)
]
  where
    get_some : ℤ × Kfs → Option (ℤ × Kfs) → ℤ × Kfs
    get_some d none = d
    get_some d (some o) = o

    copied :
        (o : Option (List ℕ))
        → Option.map (λ name'. write_superblock (with_file name' buf size k)) o ≡ some out
        → Grown k.superblock out.1.superblock
    copied none e = grind arith
    copied (some name') e =
        subst (λ (v : ℤ × Kfs). Grown k.superblock v.1.superblock) (ap (get_some out) e) (entered _)

pub find-Grown :
    (sb sb' : Superblock) (path : List ℕ) (i : ℕ)
    → Grown sb sb'
    → kfs_find sb path ≡ some (some i)
    → (kfs_find sb' path ≡ some (some i)) × (get_or sb'.files i no_file ≡ get_or sb.files i no_file)
unfolding kfs_find
find-Grown sb sb' path i full h = (h, refl)
find-Grown sb sb' path i (entered f) h =
    let r =
      find_from-longer sb.files (set sb.files sb.file_count f) path sb.file_count 0 i
        (λ k lt. get_elem?-set_ne sb.files sb.file_count k f (omega arith)) h in
    let e : sb.file_count + 1 ≡ suc sb.file_count = omega arith in
    (rw e r.1, get_or-set_ne sb.files sb.file_count i f no_file (omega (arith, r.0)))
