-- ===== src/Ata/Tests.antt =====
-- Transfers on small disks.
use system.Common.{List, refl, replicate, some, ℕ, ◌==◌, ◌≡◌, arith, take}
use system.Ata.{
  Disk, address, ata_read_sectors, ata_write_sectors, err_failed, put_sector, registers, write_loop,
}
use system.Ata.Transfer.{ata_read-ata_write}

abbrev blank : Disk
blank = record { sector = λ a. replicate 512 0; bad = λ a. a == 9 }

abbrev ones : List ℕ
ones = replicate 512 1

high_lba : address (registers 0x1FFFFFFF 1) ≡ 0xFFFFFFF
unfolding registers
high_lba = refl

-- A transfer stops at the first bad sector.
stops : (ata_write_sectors 8 2 ones blank).0 ≡ err_failed
unfolding ata_write_sectors write_loop registers put_sector
stops = refl

ata_read-ata_write_example :
    ata_read_sectors 3 1 (ata_write_sectors 3 1 ones blank).1 ≡ some (take 512 ones)
ata_read-ata_write_example =
    ata_read-ata_write 3 1 (omega arith) (omega arith) (omega arith) ones blank
      (λ b lo hi. ground arith)
