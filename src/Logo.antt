-- ===== src/Logo.antt =====
-- kernel/drivers/fb.c, kfsExtension0: reading a part of a file, by which the logo is read.
pub mod Slice
pub mod Bitmap
mod Tests
use system.Common.{
  List, Option, some, none, ℕ, [], drop, if◌then◌else◌, leb, ltb, suc, take, zero, ◌%◌, ◌++◌, ◌+◌,
  ◌-◌, ◌/◌, ◌==◌, ◌^◌,
}
use system.Ata.{Disk, ata_read_sectors}
use system.Kfs.{KfsFile}

-- The bytes of one round in front of those of the later rounds.
pub round :
    (temp : Option (List ℕ))
    → (sector_offset copy_len : ℕ) → (rest : Option (List ℕ)) → Option (List ℕ)
round none sector_offset copy_len rest = none
round (some temp) sector_offset copy_len none = none
round (some temp) sector_offset copy_len (some rest) =
    some (take copy_len (drop sector_offset temp) ++ rest)

-- `while (remaining)`: the bytes that are stored from `p` on, or `none` for -1. The fuel is a number
-- of rounds; every round copies a byte at least, so that `remaining` rounds are enough.
pub rounds : Disk → (fuel sector sector_offset remaining : ℕ) → Option (List ℕ)
rounds d zero sector sector_offset remaining = some []
rounds d (suc fuel) sector sector_offset remaining =
    let space = 512 - sector_offset in
    let copy_len = if ltb remaining space then remaining else space in
    let rest = rounds d fuel (sector + 1) 0 (remaining - copy_len) in
    if remaining == 0
    then some []
    else round (ata_read_sectors sector 1 d) sector_offset copy_len rest

-- The bytes that are stored in `buf`. An offset behind the file stores nothing, and is a success.
pub kfs_extension0 : Disk → KfsFile → (offset size : ℕ) → Option (List ℕ)
kfs_extension0 d f offset size =
    let size' = if ltb f.size ((offset + size) % 2 ^ 32) then f.size - offset else size in
    if leb f.size offset
    then some []
    else rounds d size' ((f.start_lba + offset / 512) % 2 ^ 32) (offset % 512) size'
