-- ===== src/Kfs/Image.antt =====
-- The superblock and its bytes: what is written to the disk is read back.
use mathlib.Core.List.{append_assoc, append-nil}
use system.Common.{
  All, List, [], ap, drop, length, refl, suc, take, ℕ, ◌++◌, ◌<◌, ◌^◌, ◌∷◌, ◌≡◌, take-append, ◌∙◌,
  arith, drop-append, drop-drop, false, length-append, sym, ◌*◌, ==_iff, Bool, pos, true, ◌==◌,
  some,
}
use system.Ata.{Disk, ata_write_sectors}
use system.Ata.Transfer.{ata_write_sectors-Written, read_first}
use system.Kfs.{
  KfsFile, file_bytes, files_of, word_at, word_bytes, Kfs, Superblock, kfs_magic, kfs_max_files,
  superblock_bytes, superblock_of, kfs_mount, mounted, write_superblock, mount_sector,
}

abbrev pub IsWord : ℕ → Type 0
IsWord w = w < 2 ^ 32

-- An entry as the disk can hold it.
abbrev pub IsEntry : KfsFile → Type 0
IsEntry f = (length f.file_name ≡ 32) × IsWord f.start_lba × IsWord f.size

word_lem : (w : ℕ) (rest : List ℕ) → IsWord w → word_at (word_bytes w ++ rest) 0 ≡ w
word_lem w rest h = omega arith

files_of-step :
    (bytes name more : List ℕ) (a b n : ℕ)
    → take 32 bytes ≡ name
    → word_at (drop 32 bytes) 0 ≡ a
    → word_at (drop 36 bytes) 0 ≡ b
    → drop 40 bytes ≡ more
    → files_of (suc n) bytes
      ≡ record { file_name = name; start_lba = a; size = b } ∷ files_of n more
unfolding files_of
files_of-step bytes name more a b n e1 e2 e3 e4 =
    λ i. record { file_name = e1 i; start_lba = e2 i; size = e3 i } ∷ files_of n (e4 i)

files_of-none : (bytes : List ℕ) → files_of 0 bytes ≡ []
unfolding files_of
files_of-none bytes = refl

-- The bytes of one entry and of those behind it.
abbrev tail_of : KfsFile → List ℕ → List ℕ
tail_of f more = word_bytes f.start_lba ++ (word_bytes f.size ++ more)

files_of-entry :
    (f : KfsFile) (bytes more : List ℕ) (n : ℕ)
    → bytes ≡ f.file_name ++ tail_of f more
    → IsEntry f
    → files_of (suc n) bytes ≡ f ∷ files_of n more
files_of-entry f bytes more n e0 h =
    files_of-step bytes f.file_name more f.start_lba f.size n
      (ap (take 32) e0 ∙ take-append f.file_name (tail_of f more) 32 h.0)
      (ap (λ b. word_at b 0) e32 ∙ word_lem f.start_lba (word_bytes f.size ++ more) h.1)
      (ap (λ b. word_at b 0) (sym (drop-drop 32 4 bytes) ∙ ap (drop 4) e32)
        ∙ word_lem f.size more h.2)
      (sym (drop-drop 32 8 bytes) ∙ ap (drop 8) e32)
  where
    e32 : drop 32 bytes ≡ tail_of f more
    e32 = ap (drop 32) e0 ∙ drop-append f.file_name (tail_of f more) 32 h.0

files_of-bytes :
    (fs : List KfsFile) (rest : List ℕ)
    → All IsEntry fs
    → files_of (length fs) (file_bytes fs ++ rest) ≡ fs
unfolding file_bytes
files_of-bytes [] rest h = files_of-none rest
files_of-bytes (f ∷ fs) rest h =
    files_of-entry f (file_bytes (f ∷ fs) ++ rest) (file_bytes fs ++ rest) (length fs)
      (append_assoc f.file_name (tail_of f (file_bytes fs)) rest) h.0
    ∙ ap (◌∷◌ f) (files_of-bytes fs rest h.1)

-- A superblock with eight entries.
pub record IsSuperblock (sb : Superblock) : Type 0 where
  pub magic_word : IsWord sb.magic
  pub count_word : IsWord sb.file_count
  pub entries : All IsEntry sb.files
  pub eight : length sb.files ≡ kfs_max_files

-- A superblock of eight entries whose numbers are 32-bit words and whose names have 32 bytes is read
-- back from its bytes, whatever follows them.
pub superblock_of-bytes :
    (sb : Superblock) (rest : List ℕ)
    → IsSuperblock sb
    → superblock_of (superblock_bytes sb ++ rest) ≡ sb
unfolding superblock_of superblock_bytes
superblock_of-bytes sb rest v = λ i. record {
  magic =
      word_lem sb.magic (word_bytes sb.file_count ++ (file_bytes sb.files ++ rest)) v.magic_word i;
  file_count = word_lem sb.file_count (file_bytes sb.files ++ rest) v.count_word i;
  files = eight_files i;
}
  where
    eight_files : files_of 8 (file_bytes sb.files ++ rest) ≡ sb.files
    eight_files =
        ap (λ n. files_of n (file_bytes sb.files ++ rest)) (sym v.eight)
        ∙ files_of-bytes sb.files rest v.entries

length-file_bytes : (fs : List KfsFile) → All IsEntry fs → length (file_bytes fs) ≡ 40 * length fs
unfolding file_bytes
length-file_bytes [] h = omega arith
length-file_bytes (f ∷ fs) h =
    omega (
      arith,
      length-append f.file_name (tail_of f (file_bytes fs)),
      h.0.0,
      length-file_bytes fs h.1,
    )

-- It takes 328 bytes of the sector.
pub length-superblock_bytes :
    (sb : Superblock) → IsSuperblock sb → length (superblock_bytes sb) ≡ 328
unfolding superblock_bytes
length-superblock_bytes sb v = omega (arith, length-file_bytes sb.files v.entries, v.eight)

-- A drive whose first sector is good, and the 184 bytes behind the static superblock.
pub record IsSound (k : Kfs) : Type 0 where
  pub shape : IsSuperblock k.superblock
  pub tail : length k.behind ≡ 184
  pub first_good : k.disk.bad 0 ≡ false

sector_bytes : Kfs → List ℕ
sector_bytes k = superblock_bytes k.superblock ++ k.behind

length-sector_bytes : (k : Kfs) → IsSound k → length (sector_bytes k) ≡ 512
unfolding sector_bytes
length-sector_bytes k v = omega (
  arith,
  length-append (superblock_bytes k.superblock) k.behind,
  v.tail,
  length-superblock_bytes k.superblock v.shape,
)

take-all : (xs : List ℕ) (n : ℕ) → length xs ≡ n → take n xs ≡ xs
take-all xs n h = ap (take n) (sym (append-nil xs)) ∙ take-append xs [] n h

-- One sector written at address 0.
write_first :
    (buffer : List ℕ) (d : Disk)
    → d.bad 0 ≡ false
    → length buffer ≡ 512
    → ((ata_write_sectors 0 1 buffer d).0 ≡ pos 1)
      × ((ata_write_sectors 0 1 buffer d).1.sector 0 ≡ buffer)
      × ((ata_write_sectors 0 1 buffer d).1.bad ≡ d.bad)
write_first buffer d g h =
    let w =
      ata_write_sectors-Written 0 1 (omega arith) (omega arith) (omega arith) buffer d
        (λ b lo hi. let e : b ≡ 0 = omega arith in rw e g) in
    (w.result, w.inside 0 (omega arith) ∙ take-all buffer 512 h, w.same_bad)

mount_of-bytes :
    (k : Kfs) (sb : Superblock) (rest bytes : List ℕ)
    → superblock_of bytes ≡ sb
    → drop 328 bytes ≡ rest
    → sb.magic ≡ kfs_magic
    → mount_sector k (some bytes) ≡ mounted (record k { superblock = sb; behind = rest })
unfolding mount_sector
mount_of-bytes k sb rest bytes e b m =
    let t : (sb.magic == kfs_magic) ≡ true = (==_iff sb.magic kfs_magic).1 m in rw (e, b, t)

mount_of :
    (k : Kfs)
    → IsSound k
    → k.superblock.magic ≡ kfs_magic
    → k.disk.sector 0 ≡ sector_bytes k
    → kfs_mount k ≡ mounted k
unfolding kfs_mount sector_bytes
mount_of k v m e =
    ap (mount_sector k) (read_first k.disk v.first_good ∙ ap some e)
    ∙ mount_of-bytes k k.superblock k.behind (sector_bytes k)
        (superblock_of-bytes k.superblock k.behind v.shape)
        (drop-append (superblock_bytes k.superblock) k.behind 328
          (length-superblock_bytes k.superblock v.shape))
        m

write_superblock-IsSound : (k : Kfs) → IsSound k → IsSound (write_superblock k).1
unfolding write_superblock sector_bytes
write_superblock-IsSound k v = record {
  shape = v.shape;
  tail = v.tail;
  first_good =
      ap (λ (b : ℕ → Bool). b 0)
        (write_first (sector_bytes k) k.disk v.first_good (length-sector_bytes k v)).2
      ∙ v.first_good;
}

-- After a superblock of eight entries with the right magic went to a disk whose first sector is
-- good, mounting that disk gives the same superblock, and the memory behind it.
pub kfs_mount-write_superblock :
    (k : Kfs)
    → IsSound k
    → k.superblock.magic ≡ kfs_magic
    → ((write_superblock k).0 ≡ pos 1)
      × (kfs_mount (write_superblock k).1 ≡ mounted (write_superblock k).1)
unfolding write_superblock sector_bytes
kfs_mount-write_superblock k v m =
    let f = write_first (sector_bytes k) k.disk v.first_good (length-sector_bytes k v) in
    (f.0, mount_of (write_superblock k).1 (write_superblock-IsSound k v) m f.1)
