-- ===== src/Shell/Files.antt =====
-- The commands on files, from the line to the disk.
use mathlib.Core.Option
use native.Mathlib.Decide.{ℕ_discrete}
use system.Common.{
  List, [], ◌∷◌, ◌++◌, ℕ, ◌≡◌, arith, Option, ap, length, some, suc, get_or, if◌then◌else◌, ltb,
  none, ◌%◌, ◌∙◌, ◌≤◌, drop, refl, ◌>>=◌, ◌<◌,
}
use system.Ata.{ata_read_sectors}
use system.Ata.Transfer.{count_wraps}
use system.CString.Text.{c_string}
use system.Fbcon.{codes}
use system.Kfs.{
  Kfs, kfs_write, KfsFile, ReadResult, bytes_read, failed, kfs_read, no_file, read_found,
  sectors_of, sectors_read,
}
use system.Kfs.Write.{HasSlot, final-found, kfs_write-final, new_file, final, name', final-new}
use system.Shell.{prints, run_cat, run_line, perform, max_cat_size, shown, cat_found}
use system.Shell.Choice.{choose-named, named, by_space}

-- The name that `cat` and `touch` take is what stands behind the space.
pub run_line-cat :
    (rest : List ℕ) (k : Kfs)
    → run_line (codes "cat" ++ (b' ' ∷ rest)) k
      ≡ Option.map (λ text. prints text k) (run_cat k rest)
unfolding run_line perform named ℕ_discrete run_cat
run_line-cat rest k =
    rw (choose-named (codes "cat") rest (codes "cat" ++ (b' ' ∷ rest)) (omega arith) by_space)

pub run_line-touch :
    (rest : List ℕ) (k : Kfs)
    → run_line (codes "touch" ++ (b' ' ∷ rest)) k
      ≡ Option.map (λ out. prints [] out.1) (kfs_write rest [] 0 k)
unfolding run_line perform named ℕ_discrete
run_line-touch rest k =
    rw (choose-named (codes "touch") rest (codes "touch" ++ (b' ' ∷ rest)) (omega arith) by_space)

-- The bytes of a transfer, if there is one.
abbrev HasLength : ℕ → Option (List ℕ) → Type 0
HasLength n none = Unit
HasLength n (some bytes) = length bytes ≡ n

-- A read that ends, and writes no more than `max_cat_size` bytes.
pub data FitsBuffer : Option ReadResult → Type 0 where
  fails : FitsBuffer (some failed)
  reads : (bytes : List ℕ) → length bytes ≤ max_cat_size → FitsBuffer (some (bytes_read bytes))

-- What `cat` does with a file it found.
abbrev cat_file : Kfs → KfsFile → Option (List ℕ)
cat_file k f =
    if ltb max_cat_size f.size
    then some (codes "cat: file too large (max 8192 bytes)" ++ (10 ∷ []))
    else kfs_read k f.file_name >>= shown f.size

-- `cat` tells that the file is too large, or what it reads fits its buffer of 8192 bytes, and then it
-- shows that.
pub data StaysInBuffer (k : Kfs) (f : KfsFile) : Option (List ℕ) → Type 0 where
  too_large :
      8192 < f.size
      → StaysInBuffer k f (some (codes "cat: file too large (max 8192 bytes)" ++ (10 ∷ [])))
  in_buffer :
      FitsBuffer (kfs_read k f.file_name)
      → StaysInBuffer k f (kfs_read k f.file_name >>= shown f.size)

module _ (k : Kfs) (s rest1 rest2 : List ℕ) (v : HasSlot k s) where
  touched : Kfs
  touched = (final k s rest1 [] 0 v).1

  empty_file : KfsFile
  empty_file = new_file k s rest1 [] 0 v

  read_touched : (rest : List ℕ) → kfs_read touched (c_string s rest) ≡ some failed
  unfolding touched kfs_read read_found sectors_read sectors_of empty_file new_file
  read_touched rest =
      ap (Option.map (read_found touched)) (final-found k s rest1 [] 0 v rest) ∙ ap some failed_read
    where
      empty_read :
          (f : KfsFile)
          → f.size ≡ 0
          → sectors_read (ata_read_sectors f.start_lba (sectors_of f.size) touched.disk) ≡ failed
      empty_read f e =
          let z : sectors_of f.size % 256 ≡ 0 = rw e in
          ap sectors_read (count_wraps f.start_lba (sectors_of f.size) [] touched.disk z).0

      failed_read : read_found touched (some k.superblock.file_count) ≡ failed
      failed_read =
          ap (λ f. sectors_read (ata_read_sectors f.start_lba (sectors_of f.size) touched.disk))
            (final-new k s rest1 [] 0 v)
          ∙ empty_read empty_file refl

  cat_touched : run_cat touched (c_string s rest2) ≡ some (codes "kfs: ioerr" ++ (10 ∷ []))
  unfolding run_cat cat_found shown touched empty_file new_file name'
  cat_touched =
      ap (λ o. o >>= cat_found touched (c_string s rest2)) (final-found k s rest1 [] 0 v rest2)
      ∙ ap (cat_file touched) (final-new k s rest1 [] 0 v)
      ∙ ap (λ o. o >>= shown 0)
          (read_touched (
            drop (suc (length s))
              (get_or k.superblock.files k.superblock.file_count no_file).file_name))

  -- A file that `touch` made cannot be shown: `cat` reports an error, since a file of no bytes has no
  -- sectors to read. The name is a text shorter than 32 bytes, and the volume has eight entries, of which
  -- one is free, and those in use have texts as names, other than this one.
  pub touch_then_cat :
      (k' : Kfs) × (run_line (codes "touch" ++ (b' ' ∷ c_string s rest1)) k ≡ some (prints [] k'))
      × (run_line (codes "cat" ++ (b' ' ∷ c_string s rest2)) k'
          ≡ some (prints (codes "kfs: ioerr" ++ (10 ∷ [])) k'))
  unfolding touched
  touch_then_cat = (
    touched,
    run_line-touch (c_string s rest1) k
        ∙ ap (Option.map (λ out. prints [] out.1)) (kfs_write-final k s rest1 [] 0 v),
    run_line-cat (c_string s rest2) touched
        ∙ ap (Option.map (λ text. prints text touched)) cat_touched,
  )
