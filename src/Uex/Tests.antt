-- ===== src/Uex/Tests.antt =====
-- A program of 4096 bytes behind its header, which wants 4096 bytes of memory, in a page of its own.
use system.Common.{
  refl, some, Bool-cases, List, [], arith, false, if◌then◌else◌, inl, inr, leb, length, ltb, none,
  replicate, ℕ, ◌%◌, ◌&&◌, ◌+◌, ◌-◌, ◌==◌, ◌^◌, ◌∷◌, ◌≡◌, ◌≢◌,
}
use system.Ata.{Disk, ata_read_sectors, read_loop, registers}
use system.Ata.Sectors.{byte_of}
use system.CString.{strcmp}
use system.Kfs.{Superblock, compared, comparison, find_from, kfs_find}
use system.Pmm.{
  scan, test_bit, advance, first_pass, pmm_alloc, set_bit, set_run, skip_words, take_run, word_full,
}
use system.Shell.Session.{World}
use system.Uex.{Machine, Outcome, UexHdr, exec, header_of, started, uex_exec, uex_magic}
use system.Uex.Load.{Fits, bytes_copied}
use system.Uex.Place.{Starts}
use system.Uex.Run.{exec-keeps_pages}
use system.Uex.Start.{IsProgram, allocated, uex_exec-Starts, uex_exec-outside}

abbrev header : UexHdr
header = record {
  magic = uex_magic;
  entry = 16;
  load_addr = 0;
  file_size = 4096;
  mem_size = 4096;
  flags = 0;
}

abbrev first_sector : List ℕ
first_sector =
    0x45
    ∷ 0x58
    ∷ 0x55
    ∷ 0x31
    ∷ 16
    ∷ 0
    ∷ 0
    ∷ 0
    ∷ 0
    ∷ 0
    ∷ 0
    ∷ 0
    ∷ 0
    ∷ 16
    ∷ 0
    ∷ 0
    ∷ 0
    ∷ 16
    ∷ 0
    ∷ 0
    ∷ 0
    ∷ 0
    ∷ 0
    ∷ 0
    ∷ replicate 488 1

abbrev disk : Disk
disk = record { sector = λ a. if a == 1 then first_sector else replicate 512 7; bad = λ a. false }

-- The same disk with an error behind the first sector.
abbrev worn_disk : Disk
worn_disk = record disk { bad = λ a. a == 2 }

abbrev volume : Superblock
volume = record {
  magic = 0x3053464B;
  file_count = 1;
  files = record { file_name = 97 ∷ 0 ∷ replicate 30 0; start_lba = 1; size = 4120 } ∷ [];
}

abbrev a_name : List ℕ
a_name = 97 ∷ 0 ∷ []

-- 64 pages, of which 0 to 31 are in use.
abbrev machine : Machine
machine = record {
  pmm = record {
    bitmap = 255 ∷ 255 ∷ 255 ∷ 255 ∷ 0 ∷ 0 ∷ 0 ∷ 0 ∷ [];
    max_pages = 64;
    last_free_page = 0;
  };
  memory = λ b. 9;
}

page : (pmm_alloc machine.pmm 1).0 ≡ 0x20000
unfolding pmm_alloc first_pass scan advance skip_words word_full test_bit take_run set_run set_bit
page = refl

page_ne : (pmm_alloc machine.pmm 1).0 ≢ 0
page_ne = omega (arith, page)

header_lem : header_of first_sector ≡ header
unfolding header_of
header_lem = refl

volume-IsProgram : IsProgram volume disk a_name 0 header
unfolding kfs_find find_from compared comparison strcmp
volume-IsProgram = record {
  found = refl;
  has_header = omega arith;
  header = header_lem;
  has_magic = refl;
}

worn-IsProgram : IsProgram volume worn_disk a_name 0 header
unfolding kfs_find find_from compared comparison strcmp
worn-IsProgram = record {
  found = refl;
  has_header = omega arith;
  header = header_lem;
  has_magic = refl;
}

sector-whole : (a : ℕ) → length (disk.sector a) ≡ 512
sector-whole a = elim (Bool-cases (a == 1)) [ inl e ↦ rw e | inr e ↦ rw e ]

disk-Fits : Fits disk 1 header (pmm_alloc machine.pmm 1).0
disk-Fits = record {
  near = omega arith;
  sectors = record { good = λ i lt. refl; whole = λ i lt. sector-whole (1 + i) };
  some_rest = λ h. omega arith;
  small = omega arith;
  room = omega (arith, page);
  mem_room = omega (arith, page);
}

uex_exec-Starts_example :
    (o : Outcome) × (uex_exec volume disk a_name machine ≡ some o)
    × Starts disk 1 header
        (record { base = (pmm_alloc machine.pmm 1).0; pages = 1 })
        (pmm_alloc machine.pmm 1).0
        (record machine { pmm = (pmm_alloc machine.pmm 1).1 })
        o
uex_exec-Starts_example =
    uex_exec-Starts volume disk a_name 0 (pmm_alloc machine.pmm 1).0 machine
      (record machine { pmm = (pmm_alloc machine.pmm 1).1 })
      (record { base = (pmm_alloc machine.pmm 1).0; pages = 1 }) header volume-IsProgram
      (allocated refl page_ne) disk-Fits

-- The byte behind the page becomes a byte of the disk.
uex_exec-outside_example :
    (s' : Machine) × (uex_exec volume disk a_name machine
      ≡ some (
          started
            (((pmm_alloc machine.pmm 1).0 + 16) % 2 ^ 32)
            (record { base = (pmm_alloc machine.pmm 1).0; pages = 1 })
            s'))
    × (s'.memory 0x21000 ≡ (
        if leb (pmm_alloc machine.pmm 1).0 0x21000
          && ltb (0x21000 - (pmm_alloc machine.pmm 1).0) (bytes_copied header)
        then byte_of disk 1 (24 + (0x21000 - (pmm_alloc machine.pmm 1).0))
        else 9))
uex_exec-outside_example =
    uex_exec-outside volume disk a_name 0 machine header 0x21000 volume-IsProgram refl page_ne
      disk-Fits (omega arith) (inr (omega (arith, page)))

behind_page :
    (if leb (pmm_alloc machine.pmm 1).0 0x21000
        && ltb (0x21000 - (pmm_alloc machine.pmm 1).0) (bytes_copied header)
      then byte_of disk 1 (24 + (0x21000 - (pmm_alloc machine.pmm 1).0))
      else 9)
    ≡ 7
behind_page = rw page

worn_read : ata_read_sectors 2 8 worn_disk ≡ none
unfolding ata_read_sectors read_loop registers
worn_read = refl

exec-keeps_pages_example :
    (s' : Machine) × (exec (λ e m. m) volume worn_disk a_name machine ≡ some (3, s'))
    × (s'.pmm ≡ (pmm_alloc machine.pmm 1).1)
exec-keeps_pages_example =
    exec-keeps_pages volume worn_disk a_name 0 machine header worn-IsProgram refl (λ e m. m) page_ne
      (omega arith) refl (omega arith) (omega arith) worn_read

-- The shell on that volume, with no frame.
abbrev world : World
world = record {
  fb = record { addr = 0; width = 0; height = 0; pitch = 0; bpp = 0 };
  screen = record { cx = 0; cy = 0 };
  kfs = record { superblock = volume; behind = []; disk = disk };
  machine = machine;
  ports = [];
  ticks = 0;
}

-- A program that stores its entry point at the address 0.
abbrev stores_entry : ℕ → Machine → Machine
stores_entry e m = record m { memory = λ a. if a == 0 then e else m.memory a }
