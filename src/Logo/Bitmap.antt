-- ===== src/Logo/Bitmap.antt =====
-- `fblogo`: the headers of a bitmap file, the buffer for its pixels, and the copy into the frame. An
-- `int` is its 32-bit pattern, and its arithmetic wraps. Pointers are addresses.
pub mod Copy
pub mod Stored
pub mod Shown
mod Tests
pub mod Pages
use mathlib.Core.Option
use system.Common.{
  List, Option, none, some, ℕ, zero, suc, [], ◌++◌, drop, get_or, length, if◌then◌else◌, ltb, min,
  not, ◌%◌, ◌*◌, ◌+◌, ◌-◌, ◌/◌, ◌==◌, ◌^◌, ◌||◌, ℤ, pos, negsuc, take,
}
use system.Ata.{Disk, ata_read_sectors}
use system.Fb.{FbInfo, Memory, store}
use system.Kfs.{Superblock, KfsFile, kfs_find, no_file, word_at}
use system.Logo.{kfs_extension0}
use system.Pmm.{pmm_alloc, pmm_free}
use system.Uex.{Machine, put_bytes}

-- What the two headers on the stack hold before they are read, 14 and 40 bytes.
pub record Unset : Type 0 where
  pub fh : List ℕ
  pub ih : List ℕ

-- Bytes stored over the start of others.
abbrev pub over : List ℕ → List ℕ → List ℕ
over bytes old = bytes ++ drop (length bytes) old

abbrev pub half_at : List ℕ → ℕ → ℕ
half_at bytes i = get_or bytes i 0 + 2 ^ 8 * get_or bytes (i + 1) 0

-- The fields that the code reads, of the two packed headers.
pub record Headers : Type 0 where
  pub bf_type : ℕ
  pub bf_off_bits : ℕ
  pub bi_width : ℕ
  pub bi_height : ℕ
  pub bi_bit_count : ℕ
  pub bi_compression : ℕ

pub headers : (fh ih : List ℕ) → Headers
headers fh ih = record {
  bf_type = half_at fh 0;
  bf_off_bits = word_at fh 10;
  bi_width = word_at ih 4;
  bi_height = word_at ih 8;
  bi_bit_count = half_at ih 14;
  bi_compression = word_at ih 16;
}

-- The bytes that one round stores, in front of those of the later rounds.
pub stored_round :
    (temp : Option (List ℕ)) → (sector_offset copy_len : ℕ) → (rest : List ℕ) → List ℕ
stored_round none sector_offset copy_len rest = []
stored_round (some temp) sector_offset copy_len rest =
    take copy_len (drop sector_offset temp) ++ rest

-- What the loop of `kfsExtension0` has put in its buffer when it returns, also where it ends at an
-- error.
pub stored : Disk → (fuel sector sector_offset remaining : ℕ) → List ℕ
stored d zero sector sector_offset remaining = []
stored d (suc fuel) sector sector_offset remaining =
    let space = 512 - sector_offset in
    let copy_len = if ltb remaining space then remaining else space in
    let rest = stored d fuel (sector + 1) 0 (remaining - copy_len) in
    if remaining == 0
    then []
    else stored_round (ata_read_sectors sector 1 d) sector_offset copy_len rest

pub stored_at : Disk → KfsFile → (offset size : ℕ) → List ℕ
stored_at d f offset size =
    let size' = if ltb f.size ((offset + size) % 2 ^ 32) then f.size - offset else size in
    if ltb offset f.size
    then stored d size' ((f.start_lba + offset / 512) % 2 ^ 32) (offset % 512) size'
    else []

-- `(w * 3 + 3) & ~3`, `(size_t)row_size * h` and the count of pages.
pub row_size : ℕ → ℕ
row_size w = let n = (w * 3 + 3) % 2 ^ 32 in n - n % 4

pub img_size : (w h : ℕ) → ℕ
img_size w h = row_size w * h % 2 ^ 32

pub img_pages : (w h : ℕ) → ℕ
img_pages w h = (img_size w h + 4095) % 2 ^ 32 / 4096

-- How many rounds `for (i = 0; i < n; i++)` has for a signed `n`.
pub loop_count : ℕ → ℕ
loop_count n = if ltb n (2 ^ 31) then n else 0

-- `n` times `*d++ = *s++`.
pub copy_bytes : (n d s : ℕ) → Memory → Memory
copy_bytes zero d s mem = mem
copy_bytes (suc n) d s mem =
    copy_bytes n (d + 1) (s + 1) (store mem (d % 2 ^ 32) (mem (s % 2 ^ 32)))

-- The rows from `y` on, `n` of them, `bytes` of each. In the loop `y` is below `h`.
pub copy_rows : (pitch row h img_buf dst bytes n y : ℕ) → Memory → Memory
copy_rows pitch row h img_buf dst bytes zero y mem = mem
copy_rows pitch row h img_buf dst bytes (suc n) y mem =
    copy_rows pitch row h img_buf dst bytes n (y + 1)
      (copy_bytes bytes (dst + y * pitch) (img_buf + (h - 1 - y) * row) mem)

-- The part behind the read of the pixels.
pub show : FbInfo → (w h start_x start_y img_buf : ℕ) → Memory → Memory
show fb w h start_x start_y img_buf mem =
    let dst = fb.addr + start_y * fb.pitch + start_x * 3 in
    let max_w = (fb.width + 2 ^ 32 - start_x) % 2 ^ 32 in
    let max_h = (fb.height + 2 ^ 32 - start_y) % 2 ^ 32 in
    copy_rows fb.pitch (row_size w) h img_buf dst (3 * min (loop_count w) (loop_count max_w))
      (min (loop_count h) (loop_count max_h)) 0 mem

-- What follows the read of the pixels.
pub pixels_read :
    Option (List ℕ) → FbInfo → (w h start_x start_y img_buf : ℕ) → Machine → ℤ × Machine
pixels_read none fb w h start_x start_y img_buf s = (negsuc 4, s)
pixels_read (some bytes) fb w h start_x start_y img_buf s =
    (pos 0, record s { memory = show fb w h start_x start_y img_buf s.memory })

-- `img_buf` has been allocated, and is not null. Both ends of the code free it.
pub show_image :
    Disk → FbInfo → KfsFile → Headers → (start_x start_y img_buf : ℕ) → Machine → ℤ × Machine
show_image d fb f hd start_x start_y img_buf s =
    let w = hd.bi_width in
    let h = hd.bi_height in
    let m = put_bytes s.memory img_buf (stored_at d f hd.bf_off_bits (img_size w h)) in
    let pmm' = pmm_free s.pmm img_buf (img_pages w h) in
    pixels_read (kfs_extension0 d f hd.bf_off_bits (img_size w h)) fb w h start_x start_y img_buf
      (record { pmm = pmm'; memory = m })

pub with_headers : Disk → FbInfo → KfsFile → Headers → (start_x start_y : ℕ) → Machine → ℤ × Machine
with_headers d fb f hd start_x start_y s =
    let (img_buf, pmm') = pmm_alloc s.pmm (img_pages hd.bi_width hd.bi_height) in
    let s' = record s { pmm = pmm' } in
    if not (hd.bf_type == 0x4D42)
    then (negsuc 2, s)
    else if not (hd.bi_bit_count == 24) || not (hd.bi_compression == 0)
    then (negsuc 3, s)
    else if img_buf == 0
    then (negsuc 5, s')
    else show_image d fb f hd start_x start_y img_buf s'

-- What follows the read of the second header.
pub info_read :
    Option (List ℕ)
    → Disk
    → FbInfo
    → Unset
    → (fh : List ℕ) → KfsFile
    → (start_x start_y : ℕ) → Machine
    → ℤ × Machine
info_read none d fb u fh f start_x start_y s = (negsuc 1, s)
info_read (some ih) d fb u fh f start_x start_y s =
    with_headers d fb f (headers (over fh u.fh) (over ih u.ih)) start_x start_y s

-- What follows the read of the first.
pub file_read :
    Option (List ℕ)
    → Disk
    → FbInfo
    → Unset
    → KfsFile
    → (start_x start_y : ℕ) → Machine
    → ℤ × Machine
file_read none d fb u f start_x start_y s = (negsuc 1, s)
file_read (some fh) d fb u f start_x start_y s =
    info_read (kfs_extension0 d f 14 40) d fb u fh f start_x start_y s

pub logo_file : Disk → FbInfo → Unset → KfsFile → (start_x start_y : ℕ) → Machine → ℤ × Machine
logo_file d fb u f start_x start_y s =
    file_read (kfs_extension0 d f 0 14) d fb u f start_x start_y s

pub logo_found :
    Superblock → Disk → FbInfo → Unset → Option ℕ → (start_x start_y : ℕ) → Machine → ℤ × Machine
logo_found sb d fb u none start_x start_y s = (negsuc 0, s)
logo_found sb d fb u (some i) start_x start_y s =
    logo_file d fb u (get_or sb.files i no_file) start_x start_y s

-- The result code and the machine; `none` is a fault of `kfs_find`.
pub fblogo :
    Superblock
    → Disk
    → FbInfo
    → Unset
    → (filename : List ℕ) → (start_x start_y : ℕ) → Machine
    → Option (ℤ × Machine)
fblogo sb d fb u filename start_x start_y s =
    Option.map (λ f. logo_found sb d fb u f start_x start_y s) (kfs_find sb filename)
