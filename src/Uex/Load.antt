-- ===== src/Uex/Load.antt =====
-- What a load leaves in the memory.
use native.Mathlib.Decide.{dec_lt}
use system.Common.{
  arith, false, get_or, get_or-replicate, if◌then◌else◌, leb, length, length-replicate, ltb,
  replicate, true, ℕ, ◌%◌, ◌&&◌, ◌*◌, ◌+◌, ◌-◌, ◌/◌, ◌<◌, ◌^◌, ◌∙◌, ◌≡◌, ◌≤◌, ap, drop, length-drop,
  length-take, take, get_or-drop, get_or-take,
}
use system.Ata.{Disk}
use system.Ata.Sectors.{Good, byte_of}
use system.Uex.{Machine, UexHdr, clear_rest, put_bytes}
use system.Uex.Bytes.{put_bytes_lem}

-- The sectors of the file behind its first.
abbrev pub rest_sectors : UexHdr → ℕ
rest_sectors h = (h.file_size - 488 + 511) / 512

-- How many bytes go from the disk to the memory: whole sectors behind the first, and their number is
-- taken by its low byte.
abbrev pub bytes_copied : UexHdr → ℕ
bytes_copied h = if leb h.file_size 488 then h.file_size else 488 + 512 * (rest_sectors h % 256)

-- The memory that a program loaded at `dest` leaves, at the address `b`.
abbrev pub loaded : Disk → (lba : ℕ) → UexHdr → (dest : ℕ) → (memory : ℕ → ℕ) → (b : ℕ) → ℕ
loaded d lba h dest memory b =
    if ltb b dest
    then memory b
    else if leb h.file_size (b - dest) && ltb (b - dest) h.mem_size
    then 0
    else if ltb (b - dest) (bytes_copied h)
    then byte_of d lba (24 + (b - dest))
    else memory b

-- The sectors that are read are good, and what is stored ends below the top of the address space.
pub record Fits (d : Disk) (lba : ℕ) (h : UexHdr) (dest : ℕ) : Type 0 where
  pub near : lba + 256 < 2 ^ 28
  pub sectors : Good d lba (1 + rest_sectors h % 256)
  pub some_rest : 488 < h.file_size → 0 < rest_sectors h % 256
  pub small : h.file_size < 2 ^ 32 - 23
  pub room : dest + 488 + 512 * (rest_sectors h % 256) ≤ 2 ^ 32
  pub mem_room : dest + h.mem_size ≤ 2 ^ 32

pub clear_rest-pmm : (h : UexHdr) (dest : ℕ) (s : Machine) → (clear_rest h dest s).pmm ≡ s.pmm
unfolding clear_rest
clear_rest-pmm h dest s = ground arith

put_zeros :
    (z a b : ℕ) (memory : ℕ → ℕ)
    → a + z ≤ 2 ^ 32
    → put_bytes memory a (replicate z 0) b ≡ (if leb a b && ltb b (a + z) then 0 else memory b)
put_zeros z a b memory room =
    put_bytes_lem (replicate z 0) memory a b (omega (arith, len)) ∙ ap read len ∙ zeros
  where
    len : length (replicate {A = ℕ} z 0) ≡ z
    len = length-replicate {A = ℕ} z 0

    read : ℕ → ℕ
    read n = if leb a b && ltb b (a + n) then get_or (replicate {A = ℕ} z 0) (b - a) 0 else memory b

    zeros : read z ≡ (if leb a b && ltb b (a + z) then 0 else memory b)
    zeros = elim (dec_lt (b - a) z) [
      | yes p ↦ rw (get_or-replicate {A = ℕ} z (b - a) 0 0 p)
      | no np ↦ ground arith
    ]

-- The bytes from `file_size` to `mem_size` become 0.
pub clear_rest_lem :
    (h : UexHdr) (dest : ℕ) (s : Machine) (b : ℕ)
    → dest + h.mem_size ≤ 2 ^ 32
    → (clear_rest h dest s).memory b ≡ (
        if leb dest b && (leb h.file_size (b - dest) && ltb (b - dest) h.mem_size)
        then 0
        else s.memory b)
unfolding clear_rest
clear_rest_lem h dest s b room = elim (dec_lt h.file_size h.mem_size) [
  | yes p ↦
      let t : ltb h.file_size h.mem_size ≡ true = ground arith in
      rw (t, put_zeros (h.mem_size - h.file_size) (dest + h.file_size) b s.memory (omega arith))
        (ground arith)
  | no np ↦ let f : ltb h.file_size h.mem_size ≡ false = ground arith in rw f (ground arith)
]

-- The bytes behind the header, from the first sector.
pub put_first :
    (d : Disk) (lba n dest b : ℕ) (memory : ℕ → ℕ)
    → length (d.sector lba) ≡ 512
    → n ≤ 488
    → dest + n ≤ 2 ^ 32
    → put_bytes memory dest (take n (drop 24 (d.sector lba))) b
      ≡ (if leb dest b && ltb b (dest + n) then byte_of d lba (24 + (b - dest)) else memory b)
put_first d lba n dest b memory whole le room =
    put_bytes_lem (take n (drop 24 (d.sector lba))) memory dest b (omega (arith, len))
    ∙ ap read len
    ∙ bytes
  where
    len : length (take n (drop 24 (d.sector lba))) ≡ n
    len =
        length-take n (drop 24 (d.sector lba)) ∙ omega (arith, length-drop 24 (d.sector lba), whole)

    read : ℕ → ℕ
    read m =
        if leb dest b && ltb b (dest + m)
        then get_or (take n (drop 24 (d.sector lba))) (b - dest) 0
        else memory b

    bytes :
        read n
        ≡ (if leb dest b && ltb b (dest + n) then byte_of d lba (24 + (b - dest)) else memory b)
    bytes = elim (dec_lt (b - dest) n) [
      | yes p ↦
          let q : lba + (24 + (b - dest)) / 512 ≡ lba = omega arith in
          let m : (24 + (b - dest)) % 512 ≡ 24 + (b - dest) = omega arith in
          rw (
            q,
            m,
            get_or-take n (b - dest) (drop 24 (d.sector lba)) 0 p,
            get_or-drop 24 (b - dest) (d.sector lba) 0,
          )
      | no np ↦ ground arith
    ]
