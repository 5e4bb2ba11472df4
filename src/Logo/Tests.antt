-- ===== src/Logo/Tests.antt =====
-- Four bytes of a file of 515 bytes, from byte 510 on: two of each sector; and the end of the file.
use system.Common.{
  List, some, refl, ℕ, [], arith, false, get_or, length, length-replicate, replicate, ◌+◌, ◌<◌, ◌∷◌,
  ◌≡◌,
}
use system.Ata.{Disk, ata_read_sectors, read_loop, registers}
use system.Ata.Sectors.{byte_of}
use system.Kfs.{KfsFile}
use system.Logo.{kfs_extension0, round, rounds}
use system.Logo.Slice.{GoodFor, clipped, kfs_extension0-IsSlice}

abbrev disk : Disk
disk = record { sector = λ a. replicate 512 a; bad = λ a. false }

abbrev file_of_515 : KfsFile
file_of_515 = record { file_name = 97 ∷ 0 ∷ replicate 30 0; start_lba = 5; size = 515 }

across_sectors : kfs_extension0 disk file_of_515 510 4 ≡ some (5 ∷ 5 ∷ 6 ∷ 6 ∷ [])
unfolding kfs_extension0 rounds round ata_read_sectors read_loop registers
across_sectors = refl

up_to_end : kfs_extension0 disk file_of_515 513 40 ≡ some (6 ∷ 6 ∷ [])
unfolding kfs_extension0 rounds round ata_read_sectors read_loop registers
up_to_end = refl

behind_end : kfs_extension0 disk file_of_515 515 4 ≡ some []
unfolding kfs_extension0
behind_end = refl

disk-GoodFor : GoodFor disk 5 510 4
disk-GoodFor = record { good = λ i lt. refl; whole = λ i lt. length-replicate {A = ℕ} 512 (5 + i) }

kfs_extension0-IsSlice_example :
    (bytes : List ℕ) × (kfs_extension0 disk file_of_515 510 4 ≡ some bytes)
    × (length bytes ≡ clipped file_of_515 510 4)
    × ((i : ℕ) → i < clipped file_of_515 510 4 → get_or bytes i 0 ≡ byte_of disk 5 (510 + i))
kfs_extension0-IsSlice_example =
    kfs_extension0-IsSlice disk file_of_515 510 4 (omega arith) (omega arith) (omega arith)
      disk-GoodFor
