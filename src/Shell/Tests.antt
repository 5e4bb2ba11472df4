-- ===== src/Shell/Tests.antt =====
-- The shell on small lines and volumes.
use system.Common.{
  List, [], ◌∷◌, ℕ, refl, ◌≡◌, arith, some, none, false, replicate, Option, ap, get_or, suc, take,
  zero, ◌++◌, ◌<◌, ◌≢◌,
}
use system.Ata.{Disk, ata_read_sectors, read_loop}
use system.CString.{cut, strchr, strcmp, strtok, token_length}
use system.CString.Text.{c_string}
use system.Fbcon.{codes}
use system.Kfs.{
  Kfs, no_file, kfs_read, kfs_find, compared, comparison, find_from, read_found, sectors_of,
  sectors_read,
}
use system.Kfs.Find.{NamedOther}
use system.Kfs.Write.{HasSlot}
use system.Shell.{
  Entered, fresh, key, read_line, run_line, prints, choose, commands, perform, list_files, c_text,
  cat_found, cmd_comp, is_zero, run_cat, shown,
}
use system.Shell.Choice.{by_space, choose-named, named}
use system.Shell.Editor.{LineMatches, read_line-type_line, type_line, type_key}
use system.Shell.Files.{touch_then_cat}

abbrev typed_keys : List ℕ
typed_keys = codes "lx" ++ (8 ∷ codes "s" ++ (10 ∷ codes "cat"))

-- What is left of a line and its terminator.
line_of : Option Entered → List ℕ
line_of none = []
line_of (some e) = take 4 e.line

edits : line_of (read_line typed_keys fresh []) ≡ codes "ls" ++ (0 ∷ 0 ∷ [])
unfolding line_of read_line key fresh
edits = refl

types : type_line typed_keys [] ≡ some (codes "ls", codes "cat")
unfolding type_line type_key
types = refl

read_line-type_line_example : LineMatches (read_line typed_keys fresh []) (type_line typed_keys [])
read_line-type_line_example = read_line-type_line typed_keys (omega arith)

choose-named_example :
    choose commands (codes "cat" ++ (b' ' ∷ codes "a.txt" ++ (0 ∷ [])))
    ≡ some (named commands (codes "cat"), c_string (codes "cat") (codes "a.txt" ++ (0 ∷ [])))
choose-named_example =
    choose-named (codes "cat") (codes "a.txt" ++ (0 ∷ []))
      (codes "cat" ++ (b' ' ∷ codes "a.txt" ++ (0 ∷ []))) (omega arith) by_space

-- A volume with one file of 5 bytes, `a`.
abbrev a_disk : Disk
a_disk = record { sector = λ a. replicate 512 b'x'; bad = λ a. false }

abbrev volume : Kfs
volume = record {
  superblock = record {
    magic = 0x3053464B;
    file_count = 1;
    files =
        record { file_name = b'a' ∷ 0 ∷ replicate 30 0; start_lba = 1; size = 5 }
        ∷ replicate 7 no_file;
  };
  behind = [];
  disk = a_disk;
}

lists : run_line (codes "ls" ++ (0 ∷ [])) volume ≡ some (prints (b'a' ∷ 10 ∷ []) volume)
unfolding run_line choose cmd_comp is_zero perform list_files c_text strtok token_length strchr cut
    strcmp
lists = refl

-- A command is the first word; a line that starts with a space does nothing.
ignores : run_line (b' ' ∷ codes "ls" ++ (0 ∷ [])) volume ≡ some (prints [] volume)
unfolding run_line choose cmd_comp is_zero perform strtok token_length strchr cut strcmp
ignores = refl

shows :
    run_line (codes "cat a" ++ (0 ∷ [])) volume ≡ some (prints (codes "xxxxx" ++ (10 ∷ [])) volume)
unfolding run_line choose cmd_comp is_zero perform run_cat cat_found shown kfs_read strtok
    token_length strchr strcmp cut kfs_find find_from compared comparison read_found sectors_read
    ata_read_sectors sectors_of read_loop
shows = refl

volume-HasSlot : HasSlot volume (codes "b")
volume-HasSlot = record {
  eight = refl;
  free = omega arith;
  others = others_lem;
  slot = refl;
  text = omega arith;
  short = omega arith;
}
  where
    other : ◌≢◌ {A = List ℕ} (b'a' ∷ []) (b'b' ∷ [])
    other e = absurd (omega (arith, ap (λ xs. get_or xs 0 0) e))

    others_lem : (j : ℕ) → j < 1 → NamedOther (codes "b") (get_or volume.superblock.files j no_file)
    others_lem zero lt = (b'a' ∷ [], ((omega arith, tt), (replicate 30 0, refl)), other)
    others_lem (suc j) lt = absurd (omega arith)

touch_then_cat_example :
    (k' : Kfs) × (run_line (codes "touch" ++ (b' ' ∷ c_string (codes "b") [])) volume
      ≡ some (prints [] k'))
    × (run_line (codes "cat" ++ (b' ' ∷ c_string (codes "b") [])) k'
        ≡ some (prints (codes "kfs: ioerr" ++ (10 ∷ [])) k'))
touch_then_cat_example = touch_then_cat volume (codes "b") [] [] volume-HasSlot
