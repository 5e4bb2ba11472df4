-- ===== src/Uex.antt =====
-- kernel/exe/uex.c and kernel/lib/exec.c: loading a program from the file system, and running it. The
-- memory is its bytes by address; the program that runs is not code of the repository. `none` is a
-- fault.
pub mod Bytes
pub mod Load
pub mod Place
pub mod Start
pub mod Run
mod Tests
use mathlib.Core.Option
use system.Common.{
  List, Option, none, some, ℕ, [], drop, get_or, if◌then◌else◌, ltb, not, replicate, suc, take,
  zero, ◌%◌, ◌++◌, ◌+◌, ◌-◌, ◌/◌, ◌==◌, ◌^◌, ◌∷◌,
}
use system.Ata.{Disk, address, ata_read_sectors, registers}
use system.Kfs.{Superblock, KfsFile, kfs_find, no_file, word_at}
use system.Pmm.{Pmm, pmm_alloc, pmm_free}

abbrev pub uex_magic : ℕ
uex_magic = 0x31555845

pub record UexHdr : Type 0 where
  pub magic : ℕ
  pub entry : ℕ
  pub load_addr : ℕ
  pub file_size : ℕ
  pub mem_size : ℕ
  pub flags : ℕ

pub record UexAlloc : Type 0 where
  pub base : ℕ
  pub pages : ℕ

pub record Machine : Type 0 where
  pub pmm : Pmm
  pub memory : ℕ → ℕ

-- The six words at the start of the first sector.
pub header_of : List ℕ → UexHdr
header_of secbuf = record {
  magic = word_at secbuf 0;
  entry = word_at (drop 4 secbuf) 0;
  load_addr = word_at (drop 8 secbuf) 0;
  file_size = word_at (drop 12 secbuf) 0;
  mem_size = word_at (drop 16 secbuf) 0;
  flags = word_at (drop 20 secbuf) 0;
}

-- Bytes stored from a 32-bit address on.
pub put_bytes : (ℕ → ℕ) → (dest : ℕ) → List ℕ → ℕ → ℕ
put_bytes memory dest [] = memory
put_bytes memory dest (c ∷ cs) =
    put_bytes (λ b. if b == dest % 2 ^ 32 then c else memory b) (dest + 1) cs

-- What the loop of `ata_read_sectors` has put in its buffer when it returns, also where it ends at an
-- error.
pub transferred : Disk → (n a : ℕ) → List ℕ
transferred d zero a = []
transferred d (suc n) a = if d.bad a then [] else d.sector a ++ transferred d n (a + 1)

pub transfer : (lba count : ℕ) → Disk → List ℕ
transfer lba count d =
    let c = count % 256 in if c == 0 then [] else transferred d c (address (registers lba c))

-- The result code, what `*alloc` gets where it is set, and the machine; or the entry point.
pub data Outcome : Type 0 where
  refused : (error : ℕ) → Option UexAlloc → Machine → Outcome
  started : (entry : ℕ) → UexAlloc → Machine → Outcome

-- ERR_NOT_FOUND, ERR_IO, ERR_FORMAT and ERR_OOM.
abbrev pub err_not_found : ℕ
err_not_found = 1

abbrev pub err_io : ℕ
err_io = 2

abbrev pub err_format : ℕ
err_format = 3

abbrev pub err_oom : ℕ
err_oom = 5

-- The `memset` behind the file's bytes.
pub clear_rest : UexHdr → (dest : ℕ) → Machine → Machine
clear_rest h dest s =
    let zeros = put_bytes s.memory (dest + h.file_size) (replicate (h.mem_size - h.file_size) 0) in
    if ltb h.file_size h.mem_size then record s { memory = zeros } else s

-- `*entry`.
pub entry_of : UexHdr → (dest : ℕ) → ℕ
entry_of h dest = if h.load_addr == 0 then (dest + h.entry) % 2 ^ 32 else h.entry

-- What follows the second transfer.
pub rest_read : Option (List ℕ) → UexHdr → UexAlloc → (dest : ℕ) → Machine → Outcome
rest_read none h alloc dest s = refused err_io (some alloc) s
rest_read (some bytes) h alloc dest s = started (entry_of h dest) alloc (clear_rest h dest s)

-- The sectors behind the first, to the address behind the `copied` bytes.
pub load_rest : Disk → (lba copied : ℕ) → UexHdr → UexAlloc → (dest : ℕ) → Machine → Outcome
load_rest d lba copied h alloc dest s =
    let sectors = (h.file_size - copied + 511) % 2 ^ 32 / 512 in
    let s' = record s {
      memory = put_bytes s.memory (dest + copied) (transfer (lba + 1) sectors d);
    } in
    rest_read (ata_read_sectors (lba + 1) sectors d) h alloc dest s'

-- The part of `uexExec` behind the choice of `dest`. The file's start is a 32-bit sector number.
pub load_at : Disk → (lba : ℕ) → (secbuf : List ℕ) → UexAlloc → (dest : ℕ) → Machine → Outcome
load_at d lba secbuf alloc dest s =
    let h = header_of secbuf in
    let n = if ltb h.file_size 488 then h.file_size else 488 in
    let s' = record s { memory = put_bytes s.memory dest (take n (drop 24 secbuf)) } in
    if ltb n h.file_size
    then load_rest d lba n h alloc dest s'
    else started (entry_of h dest) alloc (clear_rest h dest s')

pub load_header : Disk → (lba : ℕ) → (secbuf : List ℕ) → Machine → Outcome
load_header d lba secbuf s =
    let h = header_of secbuf in
    let pages = (h.mem_size + 4095) % 2 ^ 32 / 4096 in
    let (dest, pmm') = pmm_alloc s.pmm pages in
    let s' = record s { pmm = pmm' } in
    if not (h.magic == uex_magic)
    then refused err_format none s
    else if not (h.load_addr == 0)
    then load_at d lba secbuf (record { base = 0; pages = 0 }) h.load_addr s
    else if dest == 0
    then refused err_oom none s'
    else load_at d lba secbuf (record { base = dest; pages = pages }) dest s'

pub first_read : Disk → (lba : ℕ) → Option (List ℕ) → Machine → Outcome
first_read d lba none s = refused err_io none s
first_read d lba (some secbuf) s = load_header d lba secbuf s

pub load_file : Disk → KfsFile → Machine → Outcome
load_file d f s =
    if ltb f.size 24
    then refused err_format none s
    else first_read d f.start_lba (ata_read_sectors f.start_lba 1 d) s

pub load_found : Superblock → Disk → Option ℕ → Machine → Outcome
load_found sb d none s = refused err_not_found none s
load_found sb d (some i) s = load_file d (get_or sb.files i no_file) s

-- Every caller passes an `alloc`.
pub uex_exec : Superblock → Disk → (name : List ℕ) → Machine → Option Outcome
uex_exec sb d name s = Option.map (λ f. load_found sb d f s) (kfs_find sb name)

-- `prog` is the effect of the code at an address, called with no arguments or with `argv`.
pub run : (prog : ℕ → Machine → Machine) → Outcome → ℕ × Machine
run prog (refused error alloc s) = (err_format, s)
run prog (started entry alloc s) =
    let s' = prog entry s in
    (0, if alloc.base == 0 then s' else record s' { pmm = pmm_free s'.pmm alloc.base alloc.pages })

pub exec :
    (prog : ℕ → Machine → Machine)
    → Superblock
    → Disk
    → (file : List ℕ) → Machine
    → Option (ℕ × Machine)
exec prog sb d file s = Option.map (run prog) (uex_exec sb d file s)

pub execv :
    (prog : ℕ → List ℕ → Machine → Machine)
    → Superblock
    → Disk
    → (file argv : List ℕ) → Machine
    → Option (ℕ × Machine)
execv prog sb d file argv s = Option.map (run (λ e. prog e argv)) (uex_exec sb d file s)
