-- ===== src/Kfs/Layout.antt =====
-- Where the files of a volume lie: one behind the other, behind the superblock.
use mathlib.Core.Option
use native.Mathlib.Decide.{ℕ_discrete}
use system.Common.{
  List, get_or, length, suc, zero, ℕ, ◌≡◌, ◌<◌, ◌≤◌, ◌+◌, ◌^◌, arith, sym, ap, get_or-set_ne,
  get_or-set_self, length-set, refl, set, ◌%◌, ◌-◌, ◌∙◌, Bool, Option, false, if◌then◌else◌, leb,
  negsuc, none, some, true, ℤ, ◌/◌,
}
use system.CString.{strcpy}
use system.Kfs.{
  Kfs, KfsFile, Superblock, no_file, lba_from, sectors_of, with_file, kfs_mkfs, kfs_write,
  write_superblock,
}
use system.Kfs.Write.{sectors_of-bound, lba_from-bounds}

abbrev entry : List KfsFile → ℕ → KfsFile
entry files i = get_or files i no_file

-- Every file starts where the loop of `kfs_write` came to in front of it.
record Follows (sb : Superblock) : Type 0 where
  pub eight : length sb.files ≡ 8
  pub count : sb.file_count ≤ 8
  pub starts :
      (i : ℕ) → i < sb.file_count → (get_or sb.files i no_file).start_lba ≡ lba_from sb.files i 0 1

-- The loop's last round.
lba_from-last :
    (files : List KfsFile) (n i lba : ℕ)
    → lba_from files (suc n) i lba
      ≡ (lba_from files n i lba + sectors_of (entry files (i + n)).size) % 2 ^ 32
unfolding lba_from
lba_from-last files zero i lba = let e : i + 0 ≡ i = omega arith in rw e
lba_from-last files (suc n) i lba =
    let e : i + suc n ≡ i + 1 + n = omega arith in
    rw e (lba_from-last files n (i + 1) ((lba + sectors_of (entry files i).size) % 2 ^ 32))

-- The loop looks at the sizes of the first entries only.
lba_from-same :
    (files files' : List KfsFile) (n i lba : ℕ)
    → ((j : ℕ) → i ≤ j → j < i + n → entry files' j ≡ entry files j)
    → lba_from files' n i lba ≡ lba_from files n i lba
unfolding lba_from
lba_from-same files files' zero i lba h = refl
lba_from-same files files' (suc n) i lba h = rw (h i (omega arith) (omega arith)) (
    lba_from-same files files' n (i + 1) ((lba + sectors_of (entry files i).size) % 2 ^ 32)
      (λ j lo hi. h j (omega arith) (omega arith)))

-- A file ends where the next one may start, up to eight files.
lba_from-ends :
    (files : List KfsFile) (n : ℕ)
    → n < 8
    → lba_from files (suc n) 0 1 ≡ lba_from files n 0 1 + sectors_of (entry files n).size
lba_from-ends files n h =
    let z : 0 + n ≡ n = omega arith in
    let b = lba_from-bounds files n 0 1 (omega arith) in
    let c = sectors_of-bound (entry files n).size in
    (rw z at (lba_from-last files n 0 1)) ∙ omega arith

-- The sector behind those of a file that starts in sector `start_lba`, 512 bytes in each.
abbrev pub end_of : KfsFile → ℕ
end_of f = f.start_lba + (f.size + 511) / 512

-- The files lie one behind the other: the first one in the sector behind the superblock, and each other
-- one in the sector behind those of the one before it.
pub record IsPacked (sb : Superblock) : Type 0 where
  pub eight : length sb.files ≡ 8
  pub count : sb.file_count ≤ 8
  pub first : 0 < sb.file_count → (get_or sb.files 0 no_file).start_lba ≡ 1
  pub next :
      (i : ℕ)
      → i + 1 < sb.file_count
      → (get_or sb.files (i + 1) no_file).start_lba ≡ end_of (get_or sb.files i no_file)
  pub sizes : (i : ℕ) → i < sb.file_count → (get_or sb.files i no_file).size < 2 ^ 32 - 511

-- No file lies on the superblock, and no two files share a sector.
pub record Apart (sb : Superblock) : Type 0 where
  pub ahead : (i : ℕ) → i < sb.file_count → 1 ≤ (get_or sb.files i no_file).start_lba
  pub disjoint :
      (i j : ℕ)
      → i < j
      → j < sb.file_count
      → end_of (get_or sb.files i no_file) ≤ (get_or sb.files j no_file).start_lba

sectors_of_lem : (size : ℕ) → size < 2 ^ 32 - 511 → sectors_of size ≡ (size + 511) / 512
unfolding sectors_of
sectors_of_lem size lt = omega arith

IsPacked-Follows : (sb : Superblock) → IsPacked sb → Follows sb
unfolding lba_from
IsPacked-Follows sb p = record { eight = p.eight; count = p.count; starts = starts_lem }
  where
    starts_lem :
        (i : ℕ) → i < sb.file_count → (entry sb.files i).start_lba ≡ lba_from sb.files i 0 1
    starts_lem zero lt = p.first lt
    starts_lem (suc i) lt =
        let e : i + 1 ≡ suc i = omega arith in
        let n : (entry sb.files (suc i)).start_lba ≡ end_of (entry sb.files i) =
          rw e at (p.next i (omega arith)) in
        let q = sectors_of_lem (entry sb.files i).size (p.sizes i (omega arith)) in
        let l = lba_from-ends sb.files i (omega (arith, p.count)) in
        let b = starts_lem i (omega arith) in omega (arith, n, q, l, b)

Follows-IsPacked :
    (sb : Superblock)
    → Follows sb
    → ((i : ℕ) → i < sb.file_count → (entry sb.files i).size < 2 ^ 32 - 511)
    → IsPacked sb
unfolding lba_from
Follows-IsPacked sb p sizes = record {
  eight = p.eight;
  count = p.count;
  first = λ lt. p.starts 0 lt;
  next = next_lem;
  sizes = sizes;
}
  where
    next_lem :
        (i : ℕ)
        → i + 1 < sb.file_count
        → (entry sb.files (i + 1)).start_lba ≡ end_of (entry sb.files i)
    next_lem i lt =
        let e : i + 1 ≡ suc i = omega arith in
        let n = p.starts (i + 1) lt in
        let l : lba_from sb.files (i + 1) 0 1
            ≡ lba_from sb.files i 0 1 + sectors_of (entry sb.files i).size =
          rw e (lba_from-ends sb.files i (omega (arith, p.count))) in
        let q = sectors_of_lem (entry sb.files i).size (sizes i (omega arith)) in
        let b = p.starts i (omega arith) in omega (arith, n, q, l, b)

IsPacked-Apart : (sb : Superblock) → IsPacked sb → Apart sb
IsPacked-Apart sb p = record { ahead = ahead_lem; disjoint = disjoint_lem }
  where
    ahead_lem : (i : ℕ) → i < sb.file_count → 1 ≤ (entry sb.files i).start_lba
    ahead_lem zero lt = omega (arith, p.first lt)
    ahead_lem (suc i) lt =
        let e : i + 1 ≡ suc i = omega arith in
        let n : (entry sb.files (suc i)).start_lba ≡ end_of (entry sb.files i) =
          rw e at (p.next i (omega arith)) in
        omega (arith, n, ahead_lem i (omega arith))

    disjoint_lem :
        (i j : ℕ)
        → i < j
        → j < sb.file_count
        → end_of (entry sb.files i) ≤ (entry sb.files j).start_lba
    disjoint_lem i zero lt h = absurd (omega arith)
    disjoint_lem i (suc j) lt h =
        let e : j + 1 ≡ suc j = omega arith in
        let n : (entry sb.files (suc j)).start_lba ≡ end_of (entry sb.files j) =
          rw e at (p.next j (omega arith)) in
        elim (ℕ_discrete i j) [
          | yes same ↦ let q = ap (λ l. end_of (entry sb.files l)) same in omega (arith, n, q)
          | no ne ↦ omega (arith, n, disjoint_lem i j (omega arith) (omega arith))
        ]

-- The new entry of `kfs_write` follows the others.
with_file-Follows :
    (name' buf : List ℕ) (size : ℕ) (k : Kfs)
    → Follows k.superblock
    → k.superblock.file_count < 8
    → Follows (with_file name' buf size k).superblock
unfolding with_file
with_file-Follows name' buf size k p h = record {
  eight = length-set k.superblock.files k.superblock.file_count new ∙ p.eight;
  count = omega arith;
  starts = starts_lem;
}
  where
    n : ℕ
    n = k.superblock.file_count

    new : KfsFile
    new = record { file_name = name'; start_lba = lba_from k.superblock.files n 0 1; size = size }

    files' : List KfsFile
    files' = set k.superblock.files n new

    below : (i : ℕ) → i ≤ n → lba_from files' i 0 1 ≡ lba_from k.superblock.files i 0 1
    below i le =
        lba_from-same k.superblock.files files' i 0 1
          (λ j lo hi. get_or-set_ne k.superblock.files n j new no_file (omega arith))

    starts_lem : (i : ℕ) → i < n + 1 → (entry files' i).start_lba ≡ lba_from files' i 0 1
    starts_lem i lt = elim (ℕ_discrete n i) [
      | yes e ↦
          ap (λ j. (entry files' j).start_lba) (sym e)
          ∙ ap (λ (f : KfsFile). f.start_lba)
              (get_or-set_self k.superblock.files n new no_file (omega (arith, p.eight)))
          ∙ sym (below n (omega arith))
          ∙ ap (λ j. lba_from files' j 0 1) e
      | no ne ↦
          ap (λ (f : KfsFile). f.start_lba) (get_or-set_ne k.superblock.files n i new no_file ne)
          ∙ p.starts i (omega arith)
          ∙ sym (below i (omega arith))
    ]

with_file-sizes :
    (name' buf : List ℕ) (size : ℕ) (k : Kfs)
    → IsPacked k.superblock
    → k.superblock.file_count < 8
    → size < 2 ^ 32 - 511
    → (i : ℕ) → i < (with_file name' buf size k).superblock.file_count
    → (entry (with_file name' buf size k).superblock.files i).size < 2 ^ 32 - 511
unfolding with_file
with_file-sizes name' buf size k p h small i lt =
    let n = k.superblock.file_count in
    let new : KfsFile = record {
      file_name = name';
      start_lba = lba_from k.superblock.files n 0 1;
      size = size;
    } in
    elim (ℕ_discrete n i) [
      | yes e ↦
          let q =
            ap (λ j. (entry (set k.superblock.files n new) j).size) (sym e)
            ∙ ap (λ (f : KfsFile). f.size)
                (get_or-set_self k.superblock.files n new no_file (omega (arith, p.eight))) in
          omega (arith, q)
      | no ne ↦
          let q =
            ap (λ (f : KfsFile). f.size) (get_or-set_ne k.superblock.files n i new no_file ne) in
          omega (arith, q, p.sizes i (omega arith))
    ]

-- What an operation leaves, where it does not fault.
abbrev pub LeavesPacked : Option (ℤ × Kfs) → Type 0
LeavesPacked none = Unit
LeavesPacked (some out) = IsPacked out.1.superblock × Apart out.1.superblock

-- On a volume of eight entries whose files lie one behind the other, behind the superblock, and with sizes
-- that are more than 511 bytes below 4 GB: where `kfs_write` does not fault, whatever name it is given, the
-- files lie so afterwards, the new one included. No file lies on the superblock, and no two share a sector.
pub kfs_write-IsPacked :
    (name buf : List ℕ) (size : ℕ) (k : Kfs)
    → IsPacked k.superblock
    → size < 2 ^ 32 - 511
    → LeavesPacked (kfs_write name buf size k)
unfolding kfs_write write_superblock
kfs_write-IsPacked name buf size k p small = by_count (leb 8 k.superblock.file_count) refl
  where
    then_write : List ℕ → ℤ × Kfs
    then_write name' = write_superblock (with_file name' buf size k)

    by_name :
        (o : Option (List ℕ)) → k.superblock.file_count < 8 → LeavesPacked (Option.map then_write o)
    by_name none h = tt
    by_name (some name') h =
        let q =
          Follows-IsPacked (with_file name' buf size k).superblock
            (with_file-Follows name' buf size k (IsPacked-Follows k.superblock p) h)
            (with_file-sizes name' buf size k p h small) in
        (q, IsPacked-Apart _ q)

    by_count :
        (b : Bool)
        → leb 8 k.superblock.file_count ≡ b
        → LeavesPacked (
            if b
            then some (negsuc 0, k)
            else Option.map then_write
                (strcpy (get_or k.superblock.files k.superblock.file_count no_file).file_name name))
    by_count true e = (p, IsPacked-Apart k.superblock p)
    by_count false e = by_name _ (ground arith)

-- The volume that `kfs_mkfs` makes is packed, and every file is written to it behind the superblock.
pub kfs_mkfs-IsPacked : (k : Kfs) → IsPacked (kfs_mkfs k).1.superblock
unfolding kfs_mkfs write_superblock
kfs_mkfs-IsPacked k = record {
  eight = refl;
  count = omega arith;
  first = λ lt. absurd (omega arith);
  next = λ i lt. absurd (omega arith);
  sizes = λ i lt. absurd (omega arith);
}
