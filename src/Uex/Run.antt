-- ===== src/Uex/Run.antt =====
-- `exec`: what becomes of the pages of a program.
use mathlib.Core.Option
use native.Mathlib.Decide.{ℕ_discrete}
use system.Common.{
  List, some, ap, arith, get_or, true, ℕ, ◌<◌, ◌∙◌, ◌≡◌, ◌≢◌, false, if◌then◌else◌, ltb, none, refl,
  ◌%◌, ◌+◌, ◌-◌, ◌/◌, ◌==◌, ◌^◌, drop, take,
}
use system.Ata.{Disk, ata_read_sectors}
use system.Ata.Sectors.{read_one}
use system.Kfs.{Superblock, no_file}
use system.Pmm.{pmm_alloc, test_bit, pmm_free}
use system.Pmm.Alloc.{pmm_alloc-zero}
use system.Pmm.Free.{pmm_free-pmm_alloc}
use system.Pmm.Runs.{IsValid}
use system.Uex.{
  Machine, UexHdr, entry_of, exec, run, started, err_format, first_read, load_at, load_file,
  load_found, load_rest, rest_read, uex_exec, UexAlloc, err_io, header_of, put_bytes, refused,
  transfer,
}
use system.Uex.Load.{Fits, rest_sectors, loaded}
use system.Uex.Start.{IsProgram, pages_of, uex_exec-Starts, allocated, load_header-Chosen}

-- The program runs on the machine that it was started on, and its pages are given back.
run-started :
    (prog : ℕ → Machine → Machine) (e base pages : ℕ) (m : Machine)
    → base ≢ 0
    → run prog (started e (record { base = base; pages = pages }) m)
      ≡ (0, record (prog e m) { pmm = pmm_free (prog e m).pmm base pages })
unfolding run
run-started prog e base pages m ne = let f : (base == 0) ≡ false = ground arith in rw f refl

-- The transfer behind the first sector fails.
load_at-fails :
    (d : Disk) (lba : ℕ) (alloc : UexAlloc) (dest : ℕ) (s : Machine) (h : UexHdr)
    → header_of (d.sector lba) ≡ h
    → 488 < h.file_size
    → h.file_size < 2 ^ 32 - 23
    → ata_read_sectors (lba + 1) (rest_sectors h) d ≡ none
    → (m : ℕ → ℕ) × (load_at d lba (d.sector lba) alloc dest s
        ≡ refused err_io (some alloc) (record s { memory = m }))
unfolding load_at load_rest rest_read
load_at-fails d lba alloc dest s h e gt small bad =
    let n : (if ltb h.file_size 488 then h.file_size else 488) ≡ 488 = ground arith in
    let more : ltb 488 h.file_size ≡ true = ground arith in
    let q : (h.file_size - 488 + 511) % 2 ^ 32 / 512 ≡ rest_sectors h = omega (arith, small) in
    (
      put_bytes (put_bytes s.memory dest (take 488 (drop 24 (d.sector lba)))) (dest + 488)
          (transfer (lba + 1) (rest_sectors h) d),
      rw (e, n, more, q, bad),
    )

module _ (sb : Superblock) (d : Disk) (name : List ℕ) (i : ℕ) (s : Machine) (h : UexHdr)
    (p : IsProgram sb d name i h) (z : h.load_addr ≡ 0) (prog : ℕ → Machine → Machine) where
  dest : ℕ
  dest = (pmm_alloc s.pmm (pages_of h)).0

  some_pages : dest ≢ 0 → 0 < pages_of h
  unfolding dest
  some_pages ne = elim (ℕ_discrete (pages_of h) 0) [
    | yes e ↦ absurd (ne (ap (λ n. (pmm_alloc s.pmm n).0) e ∙ ap (λ r. r.0) (pmm_alloc-zero s.pmm)))
    | no n ↦ omega arith
  ]

  -- A program that fits is run on a machine that has it loaded, and when it leaves the allocator alone,
  -- afterwards every page is as free as it was, where the allocator is valid and page 0 in use.
  pub exec-returns_pages :
      (pmm_alloc s.pmm (pages_of h)).0 ≢ 0
      → Fits d (get_or sb.files i no_file).start_lba h (pmm_alloc s.pmm (pages_of h)).0
      → IsValid s.pmm
      → test_bit s.pmm.bitmap 0 ≡ true
      → ((e : ℕ) (m : Machine) → (prog e m).pmm ≡ m.pmm)
      → (m : Machine) × ((b : ℕ)
          → m.memory b
            ≡ loaded d
                (get_or sb.files i no_file).start_lba
                h
                (pmm_alloc s.pmm (pages_of h)).0
                s.memory
                b)
        × (m.pmm ≡ (pmm_alloc s.pmm (pages_of h)).1)
        × (exec prog sb d name s
            ≡ some (
              0,
              record (prog (entry_of h (pmm_alloc s.pmm (pages_of h)).0) m) {
                pmm =
                    pmm_free
                      (prog (entry_of h (pmm_alloc s.pmm (pages_of h)).0) m).pmm
                      (pmm_alloc s.pmm (pages_of h)).0
                      (pages_of h);
              },
            ))
        × ((j : ℕ)
            → test_bit
                (pmm_free
                  (prog (entry_of h (pmm_alloc s.pmm (pages_of h)).0) m).pmm
                  (pmm_alloc s.pmm (pages_of h)).0
                  (pages_of h)).bitmap
                j
              ≡ test_bit s.pmm.bitmap j)
  unfolding exec dest
  exec-returns_pages ne f v used keeps =
      let r = uex_exec-Starts sb d name i _ s _ _ h p (allocated z ne) f in
      (
        r.2.0,
        r.2.3,
        r.2.2,
        ap (Option.map (run prog)) (r.1 ∙ ap some r.2.1)
            ∙ ap some (run-started prog (entry_of h dest) dest (pages_of h) r.2.0 ne),
        λ j.
            ap (λ q. test_bit (pmm_free q dest (pages_of h)).bitmap j) (keeps _ r.2.0 ∙ r.2.2)
            ∙ pmm_free-pmm_alloc s.pmm (pages_of h) v used (some_pages ne) j,
      )

  -- Where the read behind the first sector fails, the program is not run, and the pages that it was
  -- given stay taken.
  pub exec-keeps_pages :
      (pmm_alloc s.pmm (pages_of h)).0 ≢ 0
      → (get_or sb.files i no_file).start_lba < 2 ^ 28
      → d.bad (get_or sb.files i no_file).start_lba ≡ false
      → 488 < h.file_size
      → h.file_size < 2 ^ 32 - 23
      → ata_read_sectors ((get_or sb.files i no_file).start_lba + 1) (rest_sectors h) d ≡ none
      → (s' : Machine) × (exec prog sb d name s ≡ some (err_format, s'))
        × (s'.pmm ≡ (pmm_alloc s.pmm (pages_of h)).1)
  unfolding exec run uex_exec load_found load_file first_read
  exec-keeps_pages ne near good gt small bad =
      let l : ltb (get_or sb.files i no_file).size 24 ≡ false = ground (arith, p.has_header) in
      let r =
        load_at-fails d (get_or sb.files i no_file).start_lba
          (record { base = (pmm_alloc s.pmm (pages_of h)).0; pages = pages_of h })
          (pmm_alloc s.pmm (pages_of h)).0 (record s { pmm = (pmm_alloc s.pmm (pages_of h)).1 }) h
          p.header gt small bad in
      (
        record { pmm = (pmm_alloc s.pmm (pages_of h)).1; memory = r.0 },
        rw (
          p.found,
          l,
          read_one d (get_or sb.files i no_file).start_lba near good,
          load_header-Chosen d (get_or sb.files i no_file).start_lba h s _ _ _ p.header p.has_magic
              (allocated z ne),
          r.1,
        ),
        refl,
      )
