-- ===== src/Kfs/Tests.antt =====
-- The file system on small disks.
use system.Common.{
  false, pos, refl, replicate, ◌≡◌, arith, List, Option, [], negsuc, none, some, ℕ, ℤ, ◌∷◌, ap,
  get_or, suc, take, zero, ◌*◌, ◌<◌, ◌≢◌, ◌-◌, ◌^◌,
}
use system.Ata.{
  Disk, ata_read_sectors, ata_write_sectors, put_sector, read_loop, registers, write_loop,
}
use system.CString.{strcmp, strcpy}
use system.CString.Text.{c_string}
use system.Kfs.{
  with_file, compared, comparison, read_found, sectors_read, Kfs, KfsFile, Superblock, bytes_read,
  find_from, kfs_find, kfs_mkfs, kfs_mount, kfs_read, kfs_write, lba_from, mounted, sectors_of,
  write_superblock, no_file,
}
use system.Kfs.Find.{NamedOther}
use system.Kfs.Image.{IsSound, IsSuperblock, kfs_mount-write_superblock, IsEntry}
use system.Kfs.Layout.{IsPacked, LeavesPacked, kfs_write-IsPacked}
use system.Kfs.Write.{HasRoom, kfs_read-kfs_write, HasSlot}

abbrev blank : Disk
blank = record { sector = λ a. replicate 512 0; bad = λ a. false }

abbrev entry : KfsFile
entry = record { file_name = replicate 32 65; start_lba = 1; size = 700 }

abbrev volume : Superblock
volume = record { magic = 0x3053464B; file_count = 1; files = replicate 8 entry }

abbrev kernel : Kfs
kernel = record { superblock = volume; behind = replicate 184 7; disk = blank }

abbrev volume-IsSuperblock : IsSuperblock volume
volume-IsSuperblock = record {
  magic_word = omega arith;
  count_word = omega arith;
  entries = (e, (e, (e, (e, (e, (e, (e, (e, tt))))))));
  eight = refl;
}
  where
    e : IsEntry entry
    e = (refl, omega arith, omega arith)

abbrev kernel-IsSound : IsSound kernel
kernel-IsSound = record { shape = volume-IsSuperblock; tail = refl; first_good = refl }

kfs_mount-write_superblock_example :
    ((write_superblock kernel).0 ≡ pos 1)
    × (kfs_mount (write_superblock kernel).1 ≡ mounted (write_superblock kernel).1)
kfs_mount-write_superblock_example = kfs_mount-write_superblock kernel kernel-IsSound refl

name : List ℕ
name = 97 ∷ 46 ∷ 117 ∷ 0 ∷ []

-- A fresh volume, and a file on it, found again.
made : Kfs
made = (kfs_mkfs kernel).1

wrote : Option (ℤ × Kfs)
wrote = kfs_write name (replicate 512 5) 300 made

result : Option (ℤ × Kfs) → ℤ
result none = negsuc 1
result (some w) = w.0

after : Option (ℤ × Kfs) → Kfs
after none = kernel
after (some w) = w.1

write_result : result wrote ≡ pos 1
unfolding result wrote made name with_file kfs_write kfs_mkfs lba_from sectors_of write_superblock
    strcpy ata_write_sectors write_loop registers put_sector
write_result = refl

found : kfs_find (after wrote).superblock name ≡ some (some 0)
unfolding after wrote made name with_file compared comparison read_found sectors_read kfs_write
    kfs_mkfs kfs_find find_from write_superblock strcpy strcmp
found = refl

read_back : kfs_read (after wrote) name ≡ some (bytes_read (replicate 512 5))
unfolding after wrote made name with_file compared comparison read_found sectors_read kfs_write
    kfs_mkfs kfs_find kfs_read find_from write_superblock strcpy strcmp ata_read_sectors read_loop
    registers ata_write_sectors write_loop put_sector sectors_of lba_from
read_back = refl

-- A volume with the file `b`, and room for the file `a`.
abbrev b_file : KfsFile
b_file = record { file_name = 98 ∷ 0 ∷ replicate 30 0; start_lba = 1; size = 700 }

abbrev one_file : Kfs
one_file = record {
  superblock = record { magic = 0x3053464B; file_count = 1; files = b_file ∷ replicate 7 no_file };
  behind = replicate 184 7;
  disk = blank;
}

one_file-HasSlot : HasSlot one_file (97 ∷ [])
one_file-HasSlot = record {
  eight = refl;
  free = omega arith;
  others = others_lem;
  slot = refl;
  text = (omega arith, tt);
  short = omega arith;
}
  where
    other : ◌≢◌ {A = List ℕ} (98 ∷ []) (97 ∷ [])
    other e = absurd (omega (arith, ap (λ xs. get_or xs 0 0) e))

    others_lem : (j : ℕ) → j < 1 → NamedOther (97 ∷ []) (get_or one_file.superblock.files j no_file)
    others_lem zero lt = (98 ∷ [], ((omega arith, tt), (replicate 30 0, refl)), other)
    others_lem (suc j) lt = absurd (omega arith)

one_file-HasRoom : HasRoom one_file (97 ∷ []) 300
one_file-HasRoom = record {
  has_slot = one_file-HasSlot;
  some_bytes = omega arith;
  few_bytes = omega arith;
  no_errors = λ a. refl;
}

kfs_read-kfs_write_example :
    (k' : Kfs) × (kfs_write (c_string (97 ∷ []) []) (replicate 512 5) 300 one_file
      ≡ some (pos 1, k'))
    × (kfs_read k' (c_string (97 ∷ []) [])
        ≡ some (bytes_read (take (512 * sectors_of 300) (replicate 512 5))))
kfs_read-kfs_write_example =
    kfs_read-kfs_write one_file (97 ∷ []) [] (replicate 512 5) 300 one_file-HasRoom

one_file-IsPacked : IsPacked one_file.superblock
one_file-IsPacked = record {
  eight = refl;
  count = omega arith;
  first = λ lt. refl;
  next = λ i lt. absurd (omega arith);
  sizes = sizes_lem;
}
  where
    sizes_lem : (i : ℕ) → i < 1 → (get_or one_file.superblock.files i no_file).size < 2 ^ 32 - 511
    sizes_lem zero lt = omega arith
    sizes_lem (suc i) lt = absurd (omega arith)

kfs_write-IsPacked_example : LeavesPacked (kfs_write (97 ∷ 0 ∷ []) (replicate 512 5) 300 one_file)
kfs_write-IsPacked_example =
    kfs_write-IsPacked (97 ∷ 0 ∷ []) (replicate 512 5) 300 one_file one_file-IsPacked (omega arith)
