-- ===== src/Uex/Place.antt =====
-- What lies at the load address after the transfers of a file.
use native.Mathlib.Decide.{dec_le, dec_lt}
use system.Common.{
  some, ap, arith, drop, false, get_or, if◌then◌else◌, leb, ltb, take, ℕ, ◌%◌, ◌&&◌, ◌*◌, ◌+◌, ◌-◌,
  ◌/◌, ◌<◌, ◌==◌, ◌^◌, ◌∙◌, ◌≡◌, ◌≤◌, length, refl, suc, true,
}
use system.Ata.{Disk, address, ata_read_sectors, registers}
use system.Ata.Sectors.{Good, Good-suc, byte_of}
use system.Ata.Transfer.{address-registers}
use system.Uex.{
  Machine, Outcome, UexAlloc, UexHdr, clear_rest, entry_of, header_of, load_at, put_bytes, started,
  transfer, transferred, load_rest, rest_read,
}
use system.Uex.Bytes.{Bytes, put_bytes_lem, transferred-Bytes}
use system.Uex.Load.{loaded, Fits, rest_sectors, clear_rest-pmm, clear_rest_lem, put_first}

module _ (d : Disk) (lba count c : ℕ) (near : lba < 2 ^ 28) (low : count % 256 ≡ c)
    (one : 0 < c) where
  pub at_lba : address (registers lba c) ≡ lba
  at_lba = address-registers lba c (omega arith) ∙ omega arith

  nonzero : (c == 0) ≡ false
  nonzero = ground arith

  transfer-transferred : transfer lba count d ≡ transferred d c lba
  unfolding transfer
  transfer-transferred = rw (low, nonzero, at_lba)

  read-transferred : Good d lba c → ata_read_sectors lba count d ≡ some (transferred d c lba)
  unfolding ata_read_sectors
  read-transferred g = rw (low, nonzero, at_lba, (transferred-Bytes d c lba g).read)

-- The sectors behind the first.
put_rest :
    (d : Disk) (lba c dest b : ℕ) (memory : ℕ → ℕ)
    → Good d (lba + 1) c
    → dest + 488 + 512 * c ≤ 2 ^ 32
    → put_bytes memory (dest + 488) (transferred d c (lba + 1)) b ≡ (
        if leb (dest + 488) b && ltb b (dest + 488 + 512 * c)
        then byte_of d lba (24 + (b - dest))
        else memory b)
put_rest d lba c dest b memory g room =
    put_bytes_lem (transferred d c (lba + 1)) memory (dest + 488) b (omega (arith, r.count))
    ∙ ap read r.count
    ∙ bytes
  where
    r : Bytes d c (lba + 1)
    r = transferred-Bytes d c (lba + 1) g

    read : ℕ → ℕ
    read m =
        if leb (dest + 488) b && ltb b (dest + 488 + m)
        then get_or (transferred d c (lba + 1)) (b - (dest + 488)) 0
        else memory b

    bytes : read (512 * c) ≡ (
        if leb (dest + 488) b && ltb b (dest + 488 + 512 * c)
        then byte_of d lba (24 + (b - dest))
        else memory b)
    bytes = elim (dec_lt (b - (dest + 488)) (512 * c)) [
      | yes p ↦ elim (dec_le (dest + 488) b) [
        | yes q ↦
            let i = b - (dest + 488) in
            let e : lba + 1 + i / 512 ≡ lba + (24 + (b - dest)) / 512 = omega arith in
            let m : i % 512 ≡ (24 + (b - dest)) % 512 = omega arith in
            let at_i : get_or (transferred d c (lba + 1)) i 0 ≡ byte_of d lba (24 + (b - dest)) =
              r.bytes i p ∙ rw (e, m) in
            rw at_i
        | no nq ↦ ground arith
      ]
      | no np ↦ ground arith
    ]

-- The outcome is a start at the entry point, with the memory that `loaded` gives.
abbrev pub Starts : Disk → ℕ → UexHdr → UexAlloc → ℕ → Machine → Outcome → Type 0
Starts d lba h alloc dest s o =
    (s' : Machine) × (o ≡ started (entry_of h dest) alloc s')
    × (s'.pmm ≡ s.pmm)
    × ((b : ℕ) → s'.memory b ≡ loaded d lba h dest s.memory b)

module _ (d : Disk) (lba : ℕ) (alloc : UexAlloc) (dest : ℕ) (s : Machine) (h : UexHdr)
    (is_header : header_of (d.sector lba) ≡ h) (f : Fits d lba h dest) where
  first : ℕ → Machine
  first n = record s { memory = put_bytes s.memory dest (take n (drop 24 (d.sector lba))) }

  whole : length (d.sector lba) ≡ 512
  whole = let e : lba + 0 ≡ lba = omega arith in rw e at (f.sectors.whole 0 (omega arith))

  first_lem :
      (n b : ℕ)
      → n ≤ 488
      → (first n).memory b
        ≡ (if leb dest b && ltb b (dest + n) then byte_of d lba (24 + (b - dest)) else s.memory b)
  unfolding first
  first_lem n b le = put_first d lba n dest b s.memory whole le (omega (arith, f.room))

  -- The file lies in its first sector.
  load_at-short :
      h.file_size ≤ 488 → Starts d lba h alloc dest s (load_at d lba (d.sector lba) alloc dest s)
  unfolding first load_at
  load_at-short le = (
    clear_rest h dest (first h.file_size),
    shape,
    clear_rest-pmm h dest (first h.file_size) ∙ same_pmm,
    λ b.
        ground (
          arith,
          clear_rest_lem h dest (first h.file_size) b f.mem_room,
          first_lem h.file_size b le,
        ),
  )
    where
      same_pmm : (first h.file_size).pmm ≡ s.pmm
      same_pmm = refl

      shape :
          load_at d lba (d.sector lba) alloc dest s
          ≡ started (entry_of h dest) alloc (clear_rest h dest (first h.file_size))
      shape =
          let n : (if ltb h.file_size 488 then h.file_size else 488) ≡ h.file_size = ground arith in
          let no : ltb h.file_size h.file_size ≡ false = ground arith in rw (is_header, n, no)

  c : ℕ
  c = rest_sectors h % 256

  second : Machine
  second = record (first 488) {
    memory = put_bytes (first 488).memory (dest + 488) (transferred d c (lba + 1));
  }

  one : 488 < h.file_size → 0 < c
  unfolding c
  one gt = f.some_rest gt

  rest-Good : Good d (lba + 1) c
  unfolding c
  rest-Good =
      let e : 1 + rest_sectors h % 256 ≡ suc (rest_sectors h % 256) = omega arith in
      Good-suc d lba (rest_sectors h % 256) (rw e at f.sectors)

  load_rest_lem :
      488 < h.file_size
      → (t : Machine)
      → load_rest d lba 488 h alloc dest t
        ≡ started (entry_of h dest) alloc (
            clear_rest h dest
              (record t { memory = put_bytes t.memory (dest + 488) (transferred d c (lba + 1)) }))
  unfolding load_rest rest_read c
  load_rest_lem gt t =
      let q : (h.file_size - 488 + 511) % 2 ^ 32 / 512 ≡ rest_sectors h = omega (arith, f.small) in
      rw (
        q,
        transfer-transferred d (lba + 1) (rest_sectors h) c (omega (arith, f.near)) low (one gt),
        read-transferred d (lba + 1) (rest_sectors h) c (omega (arith, f.near)) low (one gt)
            rest-Good,
      )
    where
      low : rest_sectors h % 256 ≡ c
      low = refl

  load_at-long :
      488 < h.file_size → Starts d lba h alloc dest s (load_at d lba (d.sector lba) alloc dest s)
  unfolding first second load_at c
  load_at-long gt = (
    clear_rest h dest second,
    shape,
    clear_rest-pmm h dest second ∙ same_pmm,
    λ b. ground (
      arith,
      clear_rest_lem h dest second b f.mem_room,
      second_lem b,
      first_lem 488 b (omega arith),
    ),
  )
    where
      same_pmm : second.pmm ≡ s.pmm
      same_pmm = refl

      room : dest + 488 + 512 * c ≤ 2 ^ 32
      room = f.room

      second_lem :
          (b : ℕ)
          → second.memory b ≡ (
              if leb (dest + 488) b && ltb b (dest + 488 + 512 * c)
              then byte_of d lba (24 + (b - dest))
              else (first 488).memory b)
      second_lem b = put_rest d lba c dest b (first 488).memory rest-Good room

      shape :
          load_at d lba (d.sector lba) alloc dest s
          ≡ started (entry_of h dest) alloc (clear_rest h dest second)
      shape =
          let n : (if ltb h.file_size 488 then h.file_size else 488) ≡ 488 = ground arith in
          let yes' : ltb 488 h.file_size ≡ true = ground arith in
          rw (is_header, n, yes') (load_rest_lem gt (first 488))

  pub load_at_lem : Starts d lba h alloc dest s (load_at d lba (d.sector lba) alloc dest s)
  load_at_lem = elim (dec_lt 488 h.file_size) [
    | yes gt ↦ load_at-long gt
    | no ng ↦ load_at-short (omega arith)
  ]
