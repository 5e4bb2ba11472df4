-- ===== src/Kfs.antt =====
-- kernel/fs/kfs.c: the file system. The superblock is one sector with at most eight entries; the files
-- follow it one behind the other. `none` is a fault: an access outside an array.
pub mod Find
pub mod Write
pub mod Layout
pub mod Image
pub mod Grow
mod Tests
use mathlib.Core.Option
use system.Common.{
  List, Option, [], drop, get_elem?, get_or, if◌then◌else◌, leb, negsuc, none, pos, replicate, set,
  some, suc, take, zero, ℕ, ℤ, ◌%◌, ◌*◌, ◌++◌, ◌+◌, ◌/◌, ◌==◌, ◌^◌, ◌∷◌,
}
use system.Ata.{Disk, ata_read_sectors, ata_write_sectors}
use system.CString.{strcmp, strcpy}

abbrev pub kfs_magic : ℕ
kfs_magic = 0x3053464B

abbrev pub kfs_max_files : ℕ
kfs_max_files = 8

-- `struct kfs_file`; the name is its 32 bytes.
pub record KfsFile : Type 0 where
  pub file_name : List ℕ
  pub start_lba : ℕ
  pub size : ℕ

pub record Superblock : Type 0 where
  pub magic : ℕ
  pub file_count : ℕ
  pub files : List KfsFile

-- The static `superblock`, the 184 bytes of memory behind it, which the transfers of a whole sector
-- reach too, and the disk.
pub record Kfs : Type 0 where
  pub superblock : Superblock
  pub behind : List ℕ
  pub disk : Disk

abbrev pub word_bytes : ℕ → List ℕ
word_bytes w = (w % 256) ∷ (w / 2 ^ 8 % 256) ∷ (w / 2 ^ 16 % 256) ∷ (w / 2 ^ 24 % 256) ∷ []

-- The superblock as it lies in memory.
pub file_bytes : List KfsFile → List ℕ
file_bytes [] = []
file_bytes (f ∷ fs) =
    f.file_name ++ (word_bytes f.start_lba ++ (word_bytes f.size ++ file_bytes fs))

pub superblock_bytes : Superblock → List ℕ
superblock_bytes sb = word_bytes sb.magic ++ (word_bytes sb.file_count ++ file_bytes sb.files)

abbrev pub word_at : List ℕ → ℕ → ℕ
word_at bytes i =
    get_or bytes i 0
    + 2 ^ 8 * get_or bytes (i + 1) 0
    + 2 ^ 16 * get_or bytes (i + 2) 0
    + 2 ^ 24 * get_or bytes (i + 3) 0

pub files_of : ℕ → List ℕ → List KfsFile
files_of zero bytes = []
files_of (suc n) bytes =
    record {
      file_name = take 32 bytes;
      start_lba = word_at (drop 32 bytes) 0;
      size = word_at (drop 36 bytes) 0;
    }
    ∷ files_of n (drop 40 bytes)

pub superblock_of : List ℕ → Superblock
superblock_of bytes = record {
  magic = word_at bytes 0;
  file_count = word_at (drop 4 bytes) 0;
  files = files_of kfs_max_files (drop 8 bytes);
}

pub data Mounted : Type 0 where
  disk_read_failure not_a_volume : Mounted
  mounted : Kfs → Mounted

-- What follows the read of the first sector. `panic` does not return.
pub mount_sector : Kfs → Option (List ℕ) → Mounted
mount_sector k none = disk_read_failure
mount_sector k (some bytes) =
    let sb = superblock_of bytes in
    if sb.magic == kfs_magic
    then mounted (record k { superblock = sb; behind = drop 328 bytes })
    else not_a_volume

pub kfs_mount : Kfs → Mounted
kfs_mount k = mount_sector k (ata_read_sectors 0 1 k.disk)

abbrev pub no_file : KfsFile
no_file = record { file_name = replicate 32 0; start_lba = 0; size = 0 }

-- The superblock goes out with the memory behind it.
pub write_superblock : Kfs → ℤ × Kfs
write_superblock k =
    let (r, d) = ata_write_sectors 0 1 (superblock_bytes k.superblock ++ k.behind) k.disk in
    (r, record k { disk = d })

pub kfs_mkfs : Kfs → ℤ × Kfs
kfs_mkfs k = write_superblock (record k {
  superblock = record {
    magic = kfs_magic;
    file_count = 0;
    files = replicate kfs_max_files no_file;
  };
})

-- What the result of `strcmp` at entry `i` leads to; `rest` is the rest of the loop.
unfoldable pub compared : Option ℤ → ℕ → Option (Option ℕ) → Option (Option ℕ)
compared none i rest = none
compared (some (pos zero)) i rest = some (some i)
compared (some (pos (suc d))) i rest = rest
compared (some (negsuc d)) i rest = rest

unfoldable pub comparison : Option KfsFile → (name : List ℕ) → Option ℤ
comparison none name = none
comparison (some f) name = strcmp f.file_name name

-- The loop of `kfs_find` over `n` entries from index `i`: the index found, NULL, or a fault.
unfoldable pub find_from : List KfsFile → (name : List ℕ) → (n i : ℕ) → Option (Option ℕ)
find_from files name zero i = some none
find_from files name (suc n) i =
    compared (comparison (get_elem? files i) name) i (find_from files name n (i + 1))

unfoldable pub kfs_find : Superblock → List ℕ → Option (Option ℕ)
kfs_find sb name = find_from sb.files name sb.file_count 0

-- `(size + 511) / 512` on 32-bit words.
unfoldable pub sectors_of : ℕ → ℕ
sectors_of size = (size + 511) % 2 ^ 32 / 512

pub data ReadResult : Type 0 where
  not_found failed : ReadResult
  bytes_read : List ℕ → ReadResult

unfoldable pub sectors_read : Option (List ℕ) → ReadResult
sectors_read none = failed
sectors_read (some bytes) = bytes_read bytes

unfoldable pub read_found : Kfs → Option ℕ → ReadResult
read_found k none = not_found
read_found k (some i) =
    let f = get_or k.superblock.files i no_file in
    sectors_read (ata_read_sectors f.start_lba (sectors_of f.size) k.disk)

unfoldable pub kfs_read : Kfs → List ℕ → Option ReadResult
kfs_read k name = Option.map (read_found k) (kfs_find k.superblock name)

-- `lba` after the loop over `n` entries from index `i`.
pub lba_from : List KfsFile → (n i lba : ℕ) → ℕ
lba_from files zero i lba = lba
lba_from files (suc n) i lba =
    lba_from files n (i + 1) ((lba + sectors_of (get_or files i no_file).size) % 2 ^ 32)

-- The volume with the new entry and the file's sectors on the disk, before the superblock is written.
-- The result of writing the file's sectors is ignored.
pub with_file : (name' buf : List ℕ) → (size : ℕ) → Kfs → Kfs
with_file name' buf size k =
    let sb = k.superblock in
    let lba = lba_from sb.files sb.file_count 0 1 in
    record k {
      superblock = record sb {
        file_count = sb.file_count + 1;
        files =
            set sb.files sb.file_count (record { file_name = name'; start_lba = lba; size = size });
      };
      disk = (ata_write_sectors lba (sectors_of size) buf k.disk).1;
    }

-- `buf` is the memory that `data` points to.
unfoldable pub kfs_write : (name buf : List ℕ) → (size : ℕ) → Kfs → Option (ℤ × Kfs)
kfs_write name buf size k =
    let sb = k.superblock in
    if leb kfs_max_files sb.file_count
    then some (negsuc 0, k)
    else Option.map (λ name'. write_superblock (with_file name' buf size k))
        (strcpy (get_or sb.files sb.file_count no_file).file_name name)
