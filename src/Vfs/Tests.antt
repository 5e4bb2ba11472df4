-- ===== src/Vfs/Tests.antt =====
-- Handles on a small volume, and the terminal.
use system.Common.{
  pos, refl, some, List, ℕ, Option, [], arith, false, get_or, none, replicate, ◌++◌, ◌∷◌, ◌≡◌,
}
use system.Ata.{Disk, ata_read_sectors, read_loop, registers}
use system.CString.{strcmp, strcpy}
use system.Fbcon.{codes}
use system.Kfs.{
  Kfs, KfsFile, bytes_read, compared, comparison, find_from, kfs_find, kfs_read, kfs_write, no_file,
  read_found, sectors_of, sectors_read,
}
use system.Shell.{is_zero}
use system.Vfs.{Wrote, file, tty, vfs_l_open, vfs_l_read, vfs_l_write}
use system.Vfs.Stale.{vfs_l_write-stale}
use system.Vfs.Terminal.{vfs_l_write-tty}

abbrev no_errors : Disk
no_errors = record { sector = λ a. replicate 512 7; bad = λ a. false }

-- Two bytes long: the name `a`.
abbrev a_file : KfsFile
a_file = record { file_name = 97 ∷ 0 ∷ replicate 30 0; start_lba = 1; size = 2 }

abbrev volume : Kfs
volume = record {
  superblock = record { magic = 0x3053464B; file_count = 1; files = a_file ∷ replicate 7 no_file };
  behind = replicate 184 7;
  disk = no_errors;
}

abbrev a_name : List ℕ
a_name = 97 ∷ 0 ∷ []

tty_path : List ℕ
tty_path = codes "/dev/tty" ++ (0 ∷ [])

vfs_l_write-tty_example :
    vfs_l_write (some tty) (104 ∷ 105 ∷ 33 ∷ []) 2 volume
    ≡ some (record { result = pos 2; printed = 104 ∷ 105 ∷ []; kfs = volume })
vfs_l_write-tty_example =
    vfs_l_write-tty (104 ∷ 105 ∷ 33 ∷ []) 2 volume (omega arith, (omega arith, (omega arith, tt)))
      (omega arith)

open_terminal : vfs_l_open volume tty_path ≡ some (some tty)
unfolding vfs_l_open tty_path strcmp is_zero
open_terminal = refl

open_missing : vfs_l_open volume (98 ∷ 0 ∷ []) ≡ some none
unfolding vfs_l_open strcmp is_zero kfs_find find_from compared comparison
open_missing = refl

open_file : vfs_l_open volume a_name ≡ some (some (file 0))
unfolding vfs_l_open strcmp is_zero kfs_find find_from compared comparison
open_file = refl

read_file : vfs_l_read (some (file 0)) volume ≡ some (some (bytes_read (replicate 512 7)))
unfolding vfs_l_read kfs_read read_found sectors_read kfs_find find_from compared comparison strcmp
    ata_read_sectors read_loop registers sectors_of
read_file = refl

-- The new contents are ten bytes; the entry keeps its two.
abbrev write_file : Option Wrote
write_file = vfs_l_write (some (file 0)) (replicate 512 9) 10 volume

write_file_some : (w : Wrote) × (write_file ≡ some w)
unfolding vfs_l_write kfs_write strcpy
write_file_some = (_, refl)

vfs_l_write-stale_example :
    (vfs_l_open write_file_some.0.kfs a_name ≡ some (some (file 0)))
    × (get_or write_file_some.0.kfs.superblock.files 0 no_file ≡ a_file)
vfs_l_write-stale_example =
    vfs_l_write-stale volume a_name (replicate 512 9) 10 0 write_file_some.0 open_file
      write_file_some.1
