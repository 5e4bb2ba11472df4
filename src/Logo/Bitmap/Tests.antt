-- ===== src/Logo/Bitmap/Tests.antt =====
-- A picture of one column and two rows, in the frame's corner and behind its edge.
use system.Common.{
  List, [], ◌∷◌, arith, false, get_or, inr, refl, replicate, some, true, ℕ, ℤ, ◌*◌, ◌++◌, ◌≡◌,
}
use system.Ata.{Disk, ata_read_sectors, read_loop, registers}
use system.CString.{strcmp}
use system.Fb.{FbInfo}
use system.Kfs.{Superblock, compared, comparison, find_from, kfs_find, no_file}
use system.Logo.{kfs_extension0, round, rounds}
use system.Logo.Bitmap.{Unset, fblogo, headers, img_pages, img_size, row_size}
use system.Logo.Bitmap.Pages.{fblogo-SamePages}
use system.Logo.Bitmap.Shown.{IsBitmap, IsShown, Place, fblogo-IsShown}
use system.Pmm.{
  scan, advance, first_pass, pmm_alloc, set_bit, set_run, skip_words, take_run, test_bit, word_full,
}
use system.Uex.{Machine}
use system.Pmm.Runs.{IsValid}
use system.Common.{some, pos}

abbrev file_header : List ℕ
file_header = 66 ∷ 77 ∷ 62 ∷ 0 ∷ 0 ∷ 0 ∷ 0 ∷ 0 ∷ 0 ∷ 0 ∷ 54 ∷ 0 ∷ 0 ∷ 0 ∷ []

abbrev info_header : List ℕ
info_header =
    40 ∷ 0 ∷ 0 ∷ 0 ∷ 1 ∷ 0 ∷ 0 ∷ 0 ∷ 2 ∷ 0 ∷ 0 ∷ 0 ∷ 1 ∷ 0 ∷ 24 ∷ 0 ∷ 0 ∷ 0 ∷ 0 ∷ 0 ∷ 0 ∷ 0 ∷ 0 ∷ 0
    ∷ 0 ∷ 0 ∷ 0 ∷ 0 ∷ 0 ∷ 0 ∷ 0 ∷ 0 ∷ 0 ∷ 0 ∷ 0 ∷ 0 ∷ 0 ∷ 0 ∷ 0 ∷ 0 ∷ []

abbrev rows : List ℕ
rows = 11 ∷ 12 ∷ 13 ∷ 0 ∷ 21 ∷ 22 ∷ 23 ∷ 0 ∷ []

abbrev disk : Disk
disk = record {
  sector = λ a. file_header ++ (info_header ++ (rows ++ replicate 450 0));
  bad = λ a. false;
}

abbrev volume : Superblock
volume = record {
  magic = 0x3053464B;
  file_count = 1;
  files = record { file_name = 97 ∷ 0 ∷ replicate 30 0; start_lba = 1; size = 62 } ∷ [];
}

abbrev a_name : List ℕ
a_name = 97 ∷ 0 ∷ []

abbrev frame : FbInfo
frame = record { addr = 0x100000; width = 4; height = 3; pitch = 12; bpp = 24 }

abbrev unset : Unset
unset = record { fh = replicate 14 170; ih = replicate 40 170 }

-- 64 pages, of which 0 to 31 are in use.
abbrev machine : Machine
machine = record {
  pmm = record {
    bitmap = 255 ∷ 255 ∷ 255 ∷ 255 ∷ 0 ∷ 0 ∷ 0 ∷ 0 ∷ [];
    max_pages = 64;
    last_free_page = 0;
  };
  memory = λ b. 9;
}

page : (pmm_alloc machine.pmm (img_pages 1 2)).0 ≡ 0x20000
unfolding pmm_alloc first_pass scan advance skip_words word_full test_bit take_run set_run set_bit
    img_pages img_size row_size
page = refl

disk-IsBitmap : IsBitmap disk (get_or volume.files 0 no_file) file_header info_header rows 1 2
unfolding kfs_extension0 rounds round ata_read_sectors read_loop registers headers row_size
disk-IsBitmap = record {
  file_header = refl;
  file_header_whole = refl;
  info_header = refl;
  info_header_whole = refl;
  is_type = refl;
  is_plain = (refl, refl);
  width = refl;
  height = refl;
  small = omega arith;
  pixels = refl;
  pixels_whole = refl;
}

frame-Place : Place frame 2 1 (pmm_alloc machine.pmm (img_pages 1 2)).0 (row_size 1 * 2)
unfolding row_size
frame-Place = record {
  narrow = omega arith;
  starts = omega arith;
  fits = omega arith;
  frame = omega arith;
  buffer = omega (arith, page);
  away = inr (omega (arith, page));
}

a_name_found : kfs_find volume a_name ≡ some (some 0)
unfolding kfs_find find_from compared comparison strcmp
a_name_found = refl

fblogo-IsShown_example :
    (r : Machine) × (fblogo volume disk frame unset a_name 2 1 machine ≡ some (pos 0, r))
    × IsShown frame 1 2 2 1 (pmm_alloc machine.pmm (img_pages 1 2)).0 rows machine.memory r.memory
fblogo-IsShown_example =
    fblogo-IsShown volume disk frame unset a_name 0 file_header info_header rows 1 2 2 1 machine
      a_name_found disk-IsBitmap (omega (arith, page)) frame-Place

machine-IsValid : IsValid machine.pmm
machine-IsValid = omega arith

machine-used : test_bit machine.pmm.bitmap 0 ≡ true
unfolding test_bit
machine-used = refl

fblogo-SamePages_example :
    (r : ℤ × Machine) × (fblogo volume disk frame unset a_name 2 1 machine ≡ some r)
    × ((j : ℕ) → test_bit r.1.pmm.bitmap j ≡ test_bit machine.pmm.bitmap j)
fblogo-SamePages_example =
    fblogo-SamePages machine machine-IsValid machine-used volume disk frame unset a_name 2 1
      (some 0) a_name_found
