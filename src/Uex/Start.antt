-- ===== src/Uex/Start.antt =====
-- `uexExec` on a file that it loads.
use system.Common.{
  some, ap, arith, false, get_or, if◌then◌else◌, leb, ltb, ℕ, ◌%◌, ◌&&◌, ◌*◌, ◌+◌, ◌-◌, ◌/◌, ◌<◌,
  ◌==◌, ◌^◌, ◌∙◌, ◌≡◌, ◌≤◌, true, List, ◌≢◌, inl, inr, ◌⊎◌,
}
use system.Ata.{Disk, ata_read_sectors}
use system.Ata.Sectors.{byte_of, read_one}
use system.Kfs.{Superblock, kfs_find, no_file}
use system.Pmm.{pmm_alloc}
use system.Uex.{
  Machine, Outcome, UexAlloc, UexHdr, entry_of, header_of, load_at, started, first_read, load_file,
  load_found, load_header, uex_exec, uex_magic,
}
use system.Uex.Load.{loaded, Fits, bytes_copied}
use system.Uex.Place.{Starts, load_at_lem}

abbrev pub pages_of : UexHdr → ℕ
pages_of h = (h.mem_size + 4095) % 2 ^ 32 / 4096

-- Where a program goes: to its own address, or to pages that the allocator gives.
pub data Chosen (h : UexHdr) (s : Machine) : UexAlloc → ℕ → Machine → Type 0 where
  fixed : h.load_addr ≢ 0 → Chosen h s (record { base = 0; pages = 0 }) h.load_addr s
  allocated :
      h.load_addr ≡ 0
      → (pmm_alloc s.pmm (pages_of h)).0 ≢ 0
      → Chosen h s
          (record { base = (pmm_alloc s.pmm (pages_of h)).0; pages = pages_of h })
          (pmm_alloc s.pmm (pages_of h)).0
          (record s { pmm = (pmm_alloc s.pmm (pages_of h)).1 })

pub load_header-Chosen :
    (d : Disk) (lba : ℕ) (h : UexHdr) (s : Machine) (dest : ℕ) (s' : Machine) (alloc : UexAlloc)
    → header_of (d.sector lba) ≡ h
    → h.magic ≡ uex_magic
    → Chosen h s alloc dest s'
    → load_header d lba (d.sector lba) s ≡ load_at d lba (d.sector lba) alloc dest s'
unfolding load_header
load_header-Chosen d lba h s dest s' alloc e m (fixed ne) =
    let t : (h.magic == uex_magic) ≡ true = ground arith in
    let f : (h.load_addr == 0) ≡ false = ground arith in rw (e, t, f)
load_header-Chosen d lba h s dest s' alloc e m (allocated z ne) =
    let t : (h.magic == uex_magic) ≡ true = ground arith in
    let f : (h.load_addr == 0) ≡ true = ground arith in
    let n : ((pmm_alloc s.pmm (pages_of h)).0 == 0) ≡ false = ground arith in rw (e, t, f, n)

-- A file that the superblock has, with its first sector and the header in it.
pub record IsProgram (sb : Superblock) (d : Disk) (name : List ℕ) (i : ℕ) (h : UexHdr)
    : Type 0 where
  pub found : kfs_find sb name ≡ some (some i)
  pub has_header : 24 ≤ (get_or sb.files i no_file).size
  pub header : header_of (d.sector (get_or sb.files i no_file).start_lba) ≡ h
  pub has_magic : h.magic ≡ uex_magic

-- A program in a file of at least 24 bytes, with the magic in its header, is started at its entry point,
-- in its own place or in pages that the allocator gave, under these conditions: the sectors that are read
-- are good and of 512 bytes, and the first one is more than 256 below sector 2 ^ 28; where the file does not end in the first sector, the number of
-- sectors behind it is no multiple of 256; its size is more than 23 bytes below 4 GB; and what is stored
-- and its memory end by the top of the address space. The file's bytes behind the header lie from there on
-- in whole sectors, as many as the low byte of their number says; those from `file_size` to `mem_size` are
-- 0, and no other byte of the memory changes.
pub uex_exec-Starts :
    (sb : Superblock) (d : Disk) (name : List ℕ) (i dest : ℕ) (s s' : Machine) (alloc : UexAlloc)
    (h : UexHdr)
    → IsProgram sb d name i h
    → Chosen h s alloc dest s'
    → Fits d (get_or sb.files i no_file).start_lba h dest
    → (o : Outcome) × (uex_exec sb d name s ≡ some o)
      × Starts d (get_or sb.files i no_file).start_lba h alloc dest s' o
unfolding uex_exec load_found load_file first_read
uex_exec-Starts sb d name i dest s s' alloc h p ch f = (
  load_at d lba (d.sector lba) alloc dest s',
  shape,
  load_at_lem d lba alloc dest s' h p.header f,
)
  where
    lba : ℕ
    lba = (get_or sb.files i no_file).start_lba

    same_lba : lba + 0 ≡ lba
    same_lba = omega arith

    read : ata_read_sectors lba 1 d ≡ some (d.sector lba)
    read = read_one d lba (omega (arith, f.near)) (rw same_lba at (f.sectors.good 0 (omega arith)))

    shape : uex_exec sb d name s ≡ some (load_at d lba (d.sector lba) alloc dest s')
    shape =
        let l : ltb (get_or sb.files i no_file).size 24 ≡ false = ground (arith, p.has_header) in
        rw (p.found, l, read, load_header-Chosen d lba h s dest s' alloc p.header p.has_magic ch)

-- A program in pages of the allocator, and a byte outside these pages: it gets a byte of the disk
-- where the whole sectors reach so far, and otherwise it is kept.
pub uex_exec-outside :
    (sb : Superblock) (d : Disk) (name : List ℕ) (i : ℕ) (s : Machine) (h : UexHdr) (b : ℕ)
    → IsProgram sb d name i h
    → h.load_addr ≡ 0
    → (pmm_alloc s.pmm (pages_of h)).0 ≢ 0
    → Fits d (get_or sb.files i no_file).start_lba h (pmm_alloc s.pmm (pages_of h)).0
    → h.mem_size ≤ 2 ^ 32 - 4096
    → (b < (pmm_alloc s.pmm (pages_of h)).0)
      ⊎ ((pmm_alloc s.pmm (pages_of h)).0 + 4096 * pages_of h ≤ b)
    → (s' : Machine) × (uex_exec sb d name s
        ≡ some (
            started
              (((pmm_alloc s.pmm (pages_of h)).0 + h.entry) % 2 ^ 32)
              (record { base = (pmm_alloc s.pmm (pages_of h)).0; pages = pages_of h })
              s'))
      × (s'.memory b ≡ (
          if leb (pmm_alloc s.pmm (pages_of h)).0 b
            && ltb (b - (pmm_alloc s.pmm (pages_of h)).0) (bytes_copied h)
          then byte_of d
              (get_or sb.files i no_file).start_lba
              (24 + (b - (pmm_alloc s.pmm (pages_of h)).0))
          else s.memory b))
unfolding entry_of
uex_exec-outside sb d name i s h b p z ne f small out =
    let r = uex_exec-Starts sb d name i _ s _ _ h p (allocated z ne) f in
    let t : (h.load_addr == 0) ≡ true = ground arith in
    let e : entry_of h (pmm_alloc s.pmm (pages_of h)).0
        ≡ ((pmm_alloc s.pmm (pages_of h)).0 + h.entry) % 2 ^ 32 =
      rw t in
    (
      r.2.0,
      r.1
          ∙ ap some (
              r.2.1
              ∙ ap
                  (λ e.
                    started e
                      (record { base = (pmm_alloc s.pmm (pages_of h)).0; pages = pages_of h })
                      r.2.0)
                  e),
      r.2.3 b ∙ outside_pages (pmm_alloc s.pmm (pages_of h)).0 out,
    )
  where
    outside_pages :
        (dest : ℕ)
        → (b < dest) ⊎ (dest + 4096 * pages_of h ≤ b)
        → loaded d (get_or sb.files i no_file).start_lba h dest s.memory b ≡ (
            if leb dest b && ltb (b - dest) (bytes_copied h)
            then byte_of d (get_or sb.files i no_file).start_lba (24 + (b - dest))
            else s.memory b)
    outside_pages dest (inl lt) = ground arith
    outside_pages dest (inr ge) =
        let q : h.mem_size ≤ b - dest = omega arith in
        let no_zero : ltb (b - dest) h.mem_size ≡ false = ground arith in
        let ge' : dest ≤ b = omega arith in
        let l : ltb b dest ≡ false = ground arith in
        let l' : leb dest b ≡ true = ground arith in rw (no_zero, l, l') (ground arith)
