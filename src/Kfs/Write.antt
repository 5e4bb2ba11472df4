-- ===== src/Kfs/Write.antt =====
-- `kfs_write`: where a new file lies on the disk, and reading it back.
use mathlib.Core.Option
use mathlib.Core.Path.{subst}
use system.Common.{
  List, get_or, length, suc, zero, ℕ, ℤ, ◌≡◌, ◌<◌, ◌≤◌, ◌+◌, ◌*◌, ◌^◌, some, arith, Bool, ap, drop,
  false, get_or-set_ne, get_or-set_self, inr, leb, refl, set, take, ◌%◌, ◌++◌, ◌∙◌, length-set, pos,
  sym,
}
use system.Ata.{ata_read_sectors, ata_write_sectors}
use system.Ata.Transfer.{Written, ata_read-buffer, ata_write_sectors-Written}
use system.CString.Copy.{strcpy-fits}
use system.CString.Text.{IsText, c_string}
use system.Kfs.{
  Kfs, KfsFile, no_file, kfs_write, lba_from, sectors_of, superblock_bytes, with_file,
  write_superblock, bytes_read, find_from, kfs_find, kfs_read, read_found, sectors_read,
}
use system.Kfs.Find.{NamedOther, Named, find_from-first}

pub sectors_of-bound : (size : ℕ) → sectors_of size ≤ 2 ^ 23
unfolding sectors_of
sectors_of-bound size = omega arith

-- Below eight files the address does not wrap, and lies behind the superblock.
pub lba_from-bounds :
    (files : List KfsFile) (n i lba : ℕ)
    → lba + n * 2 ^ 23 < 2 ^ 32
    → (lba ≤ lba_from files n i lba) × (lba_from files n i lba ≤ lba + n * 2 ^ 23)
unfolding lba_from
lba_from-bounds files zero i lba h = (omega arith, omega arith)
lba_from-bounds files (suc n) i lba h =
    let size = (get_or files i no_file).size in
    let b = sectors_of-bound size in
    let e : (lba + sectors_of size) % 2 ^ 32 ≡ lba + sectors_of size = omega arith in
    let r = lba_from-bounds files n (i + 1) (lba + sectors_of size) (omega arith) in
    rw e (omega (arith, r.0, b), omega (arith, r.1, b))

-- A volume with a free entry, whose entries have other names than `s`, and that name short enough.
pub record HasSlot (k : Kfs) (s : List ℕ) : Type 0 where
  pub eight : length k.superblock.files ≡ 8
  pub free : k.superblock.file_count < 8
  pub others :
      (j : ℕ) → j < k.superblock.file_count → NamedOther s (get_or k.superblock.files j no_file)
  pub slot : length (get_or k.superblock.files k.superblock.file_count no_file).file_name ≡ 32
  pub text : IsText s
  pub short : length s < 32

-- A file of `size` bytes that is not empty and has at most 255 sectors, and a drive without errors.
pub record HasRoom (k : Kfs) (s : List ℕ) (size : ℕ) : Type 0 where
  pub has_slot : HasSlot k s
  pub some_bytes : 0 < size
  pub few_bytes : size ≤ 255 * 512
  pub no_errors : (a : ℕ) → k.disk.bad a ≡ false

module _ (k : Kfs) (s rest buf : List ℕ) (size : ℕ) (v : HasSlot k s) where
  pub lba : ℕ
  lba = lba_from k.superblock.files k.superblock.file_count 0 1

  lba-behind : 1 ≤ lba
  unfolding lba
  lba-behind =
      (lba_from-bounds k.superblock.files k.superblock.file_count 0 1 (omega (arith, v.free))).0

  lba-small : lba < 2 ^ 28
  unfolding lba
  lba-small = omega (
    arith,
    v.free,
    (lba_from-bounds k.superblock.files k.superblock.file_count 0 1 (omega (arith, v.free))).1,
  )

  -- The bytes of the entry's name.
  unfoldable pub name' : List ℕ
  name' =
      c_string s (
        drop (suc (length s)) (get_or k.superblock.files k.superblock.file_count no_file).file_name)

  pub after : Kfs
  after = with_file name' buf size k

  pub final : ℤ × Kfs
  final = write_superblock after

  pub kfs_write-final : kfs_write (c_string s rest) buf size k ≡ some final
  unfolding kfs_write final after name'
  kfs_write-final =
      let l : leb 8 k.superblock.file_count ≡ false = ground (arith, v.free) in
      rw (
        l,
        strcpy-fits s rest (get_or k.superblock.files k.superblock.file_count no_file).file_name
            v.text (omega (arith, v.short, v.slot)),
      )

  unfoldable pub new_file : KfsFile
  new_file = record { file_name = name'; start_lba = lba; size = size }

  final-files : final.1.superblock.files ≡ set k.superblock.files k.superblock.file_count new_file
  unfolding final write_superblock after with_file new_file lba
  final-files = refl

  pub final-count : final.1.superblock.file_count ≡ k.superblock.file_count + 1
  unfolding final write_superblock after with_file
  final-count = refl

  pub final-new : get_or final.1.superblock.files k.superblock.file_count no_file ≡ new_file
  final-new =
      ap (λ fs. get_or fs k.superblock.file_count no_file) final-files
      ∙ get_or-set_self k.superblock.files k.superblock.file_count new_file no_file
          (omega (arith, v.free, v.eight))

  pub final-others :
      (j : ℕ)
      → j < k.superblock.file_count
      → get_or final.1.superblock.files j no_file ≡ get_or k.superblock.files j no_file
  final-others j lt =
      ap (λ fs. get_or fs j no_file) final-files
      ∙ get_or-set_ne k.superblock.files k.superblock.file_count j new_file no_file (omega arith)

  pub final-found :
      (rest' : List ℕ)
      → kfs_find final.1.superblock (c_string s rest') ≡ some (some k.superblock.file_count)
  unfolding kfs_find new_file name'
  final-found rest' =
      let c : final.1.superblock.file_count ≡ suc k.superblock.file_count =
        final-count ∙ omega arith in
      let z : 0 + k.superblock.file_count ≡ k.superblock.file_count = omega arith in
      let l : length final.1.superblock.files ≡ 8 =
        ap length final-files
        ∙ length-set k.superblock.files k.superblock.file_count new_file
        ∙ v.eight in
      ap (λ n. find_from final.1.superblock.files (c_string s rest') n 0) c
      ∙ find_from-first final.1.superblock.files s rest' v.text k.superblock.file_count 0
          (omega (arith, l, v.free))
          (λ j lo hi.
            subst (NamedOther s) (sym (final-others j (omega arith))) (v.others j (omega arith)))
          (rw z (subst (Named s) (sym final-new) named))
      ∙ rw z
    where
      named : Named s new_file
      named = (v.text, (_, refl))

  module _ (r : HasRoom k s size) where
    few : sectors_of size < 256
    unfolding sectors_of
    few = omega (arith, r.few_bytes)

    one : 0 < sectors_of size
    unfolding sectors_of
    one = omega (arith, r.some_bytes, r.few_bytes)

    -- The sectors of the file, and then the superblock.
    file_Written :
        Written k.disk
          (sectors_of size)
          lba
          buf
          (ata_write_sectors lba (sectors_of size) buf k.disk).0
          (ata_write_sectors lba (sectors_of size) buf k.disk).1
    file_Written =
        ata_write_sectors-Written lba (sectors_of size) lba-small few one buf k.disk
          (λ b lo hi. r.no_errors b)

    after-bad : (b : ℕ) → after.disk.bad b ≡ false
    unfolding after with_file lba
    after-bad b = ap (λ (f : ℕ → Bool). f b) file_Written.same_bad ∙ r.no_errors b

    after-inside :
        (i : ℕ) → i < sectors_of size → after.disk.sector (lba + i) ≡ take 512 (drop (512 * i) buf)
    unfolding after with_file lba
    after-inside = file_Written.inside

    superblock_Written :
        Written after.disk 1 0
          (superblock_bytes after.superblock ++ after.behind)
          final.0
          final.1.disk
    unfolding final write_superblock
    superblock_Written =
        ata_write_sectors-Written 0 1 (omega arith) (omega arith) (omega arith)
          (superblock_bytes after.superblock ++ after.behind) after.disk (λ b lo hi. after-bad b)

    final-read :
        ata_read_sectors lba (sectors_of size) final.1.disk
        ≡ some (take (512 * sectors_of size) buf)
    final-read =
        ata_read-buffer lba (sectors_of size) lba-small few one buf final.1.disk
          (λ b lo hi. ap (λ (f : ℕ → Bool). f b) superblock_Written.same_bad ∙ after-bad b)
          (λ i lt.
            superblock_Written.outside (lba + i) (inr (omega (arith, lba-behind)))
            ∙ after-inside i lt)

    read_final :
        read_found final.1 (some k.superblock.file_count)
        ≡ bytes_read (take (512 * sectors_of size) buf)
    unfolding read_found sectors_read new_file
    read_final =
        ap (λ f. sectors_read (ata_read_sectors f.start_lba (sectors_of f.size) final.1.disk))
          final-new
        ∙ new_read
      where
        new_read :
            sectors_read
              (ata_read_sectors new_file.start_lba (sectors_of new_file.size) final.1.disk)
            ≡ bytes_read (take (512 * sectors_of size) buf)
        new_read = ap sectors_read final-read

    final-result : final.0 ≡ pos 1
    final-result = superblock_Written.result

    read_back :
        (k' : Kfs) × (kfs_write (c_string s rest) buf size k ≡ some (pos 1, k'))
        × (kfs_read k' (c_string s rest) ≡ some (bytes_read (take (512 * sectors_of size) buf)))
    unfolding kfs_read
    read_back = (
      final.1,
      kfs_write-final ∙ ap (λ z. some (z, final.1)) final-result,
      ap (Option.map (read_found final.1)) (final-found rest) ∙ ap some read_final,
    )

-- A file that is not empty, with at most 255 sectors, a name shorter than 32 characters that no
-- other file has, written to a volume with a free entry on a drive without errors, is read back by
-- that name: its sectors, as they were in the memory that was written.
pub kfs_read-kfs_write :
    (k : Kfs) (s rest buf : List ℕ) (size : ℕ)
    → HasRoom k s size
    → (k' : Kfs) × (kfs_write (c_string s rest) buf size k ≡ some (pos 1, k'))
      × (kfs_read k' (c_string s rest) ≡ some (bytes_read (take (512 * sectors_of size) buf)))
kfs_read-kfs_write k s rest buf size r = read_back k s rest buf size r.has_slot r
