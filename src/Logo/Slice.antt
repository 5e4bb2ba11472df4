-- ===== src/Logo/Slice.antt =====
-- The bytes that `kfsExtension0` reads are those of the file from the offset on.
use native.Mathlib.Decide.{dec_lt, ℕ_discrete}
use system.Common.{
  min, List, some, ℕ, [], ap, arith, drop, get_or, length, length-append, length-drop, length-take,
  refl, suc, take, true, zero, ◌%◌, ◌++◌, ◌+◌, ◌-◌, ◌/◌, ◌<◌, ◌==◌, ◌^◌, ◌∙◌, ◌≡◌, ◌≢◌, ◌≤◌, false,
  if◌then◌else◌, ltb, leb, get_or-append-left, get_or-append-right, get_or-drop, get_or-take,
}
use system.Ata.{Disk}
use system.Ata.Sectors.{Good, byte_of, read_one}
use system.Kfs.{KfsFile}
use system.Logo.{round, rounds, kfs_extension0}

-- `n` bytes, which are those of the sectors from `sector` on, `offset` bytes further.
pub record IsSlice (d : Disk) (sector offset n : ℕ) (bytes : List ℕ) : Type 0 where
  pub count : length bytes ≡ n
  pub same_bytes : (i : ℕ) → i < n → get_or bytes i 0 ≡ byte_of d sector (offset + i)

-- A part of one sector in front of a slice that starts the next one.
IsSlice-append :
    (d : Disk) (sector offset copied n : ℕ) (rest : List ℕ)
    → length (d.sector sector) ≡ 512
    → offset + copied ≤ 512
    → (n ≢ 0 → offset + copied ≡ 512)
    → IsSlice d (sector + 1) 0 n rest
    → IsSlice d sector offset (copied + n) (take copied (drop offset (d.sector sector)) ++ rest)
IsSlice-append d sector offset copied n rest whole le full s = record {
  count = length-append first rest ∙ omega (arith, len, s.count);
  same_bytes = λ i lt. at_byte i lt;
}
  where
    first : List ℕ
    first = take copied (drop offset (d.sector sector))

    len : length first ≡ copied
    len =
        length-take copied (drop offset (d.sector sector))
        ∙ omega (arith, length-drop offset (d.sector sector), whole)

    at_byte : (i : ℕ) → i < copied + n → get_or (first ++ rest) i 0 ≡ byte_of d sector (offset + i)
    at_byte i lt = elim (dec_lt i copied) [
      | yes p ↦
          let q : sector + (offset + i) / 512 ≡ sector = omega arith in
          let m : (offset + i) % 512 ≡ offset + i = omega arith in
          get_or-append-left first rest i 0 (omega (arith, len))
          ∙ get_or-take copied i (drop offset (d.sector sector)) 0 p
          ∙ get_or-drop offset i (d.sector sector) 0
          ∙ rw (q, m)
      | no np ↦
          let f : offset + copied ≡ 512 = full (omega arith) in
          let split : i ≡ length first + (i - copied) = omega (arith, len) in
          let z : 0 + (i - copied) ≡ i - copied = omega arith in
          let q : sector + (offset + i) / 512 ≡ sector + 1 + (i - copied) / 512 = omega arith in
          let m : (offset + i) % 512 ≡ (i - copied) % 512 = omega arith in
          ap (λ j. get_or (first ++ rest) j 0) split
          ∙ get_or-append-right first rest (i - copied) 0
          ∙ s.same_bytes (i - copied) (omega arith)
          ∙ rw (q, m, z)
    ]

-- What one round copies: as much as there is left in the sector, or in the slice.
record Part (offset n c : ℕ) : Type 0 where
  some_bytes : 0 < c
  of_rest : c ≤ n
  in_sector : offset + c ≤ 512
  to_end : n - c ≢ 0 → offset + c ≡ 512

part :
    (offset n : ℕ)
    → offset < 512
    → n ≢ 0
    → Part offset n (if ltb n (512 - offset) then n else 512 - offset)
part offset n lo ne = record {
  some_bytes = ground arith;
  of_rest = ground arith;
  in_sector = ground arith;
  to_end = ground arith;
}

-- The sectors that hold `n` bytes from `offset` on are good.
abbrev pub GoodFor : Disk → (sector offset n : ℕ) → Type 0
GoodFor d sector offset n = Good d sector ((offset + n + 511) / 512)

GoodFor-rest :
    (d : Disk) (sector offset n c : ℕ)
    → Part offset n c
    → GoodFor d sector offset n
    → GoodFor d (sector + 1) 0 (n - c)
GoodFor-rest d sector offset n c p g = record {
  good = λ i lt.
      (let e : sector + 1 + i ≡ sector + suc i = omega arith in rw e (g.good (suc i) (later i lt)));
  whole = λ i lt.
      (let e : sector + 1 + i ≡ sector + suc i = omega arith in
        rw e (g.whole (suc i) (later i lt)));
}
  where
    later : (i : ℕ) → i < (0 + (n - c) + 511) / 512 → suc i < (offset + n + 511) / 512
    later i lt = let f : offset + c ≡ 512 = p.to_end (omega arith) in omega (arith, p.of_rest)

rounds-IsSlice :
    (fuel : ℕ) (d : Disk) (sector offset n : ℕ)
    → n ≤ fuel
    → offset < 512
    → sector + (offset + n + 511) / 512 ≤ 2 ^ 28
    → GoodFor d sector offset n
    → (bytes : List ℕ) × (rounds d fuel sector offset n ≡ some bytes)
      × IsSlice d sector offset n bytes
unfolding rounds round
rounds-IsSlice zero d sector offset n le lo near g =
    ([], refl, record { count = omega arith; same_bytes = λ i lt. absurd (omega arith) })
rounds-IsSlice (suc fuel) d sector offset n le lo near g = elim (ℕ_discrete n 0) [
  | yes e ↦
      let t : (n == 0) ≡ true = ground arith in
      ([], rw t, record { count = omega arith; same_bytes = λ i lt. absurd (omega arith) })
  | no ne ↦
      let f : (n == 0) ≡ false = ground arith in
      let c = if ltb n (512 - offset) then n else 512 - offset in
      let p = part offset n lo ne in
      let z : sector + 0 ≡ sector = omega arith in
      let good : d.bad sector ≡ false = rw z at (g.good 0 (omega arith)) in
      let whole : length (d.sector sector) ≡ 512 = rw z at (g.whole 0 (omega arith)) in
      let r =
        rounds-IsSlice fuel d (sector + 1) 0 (n - c) (omega (arith, p.some_bytes)) (omega arith)
          (reach ne c p) (GoodFor-rest d sector offset n c p g) in
      let sum : c + (n - c) ≡ n = omega (arith, p.of_rest) in
      (
        take c (drop offset (d.sector sector)) ++ r.0,
        rw (f, read_one d sector (omega arith) good, r.1),
        rw sum at (IsSlice-append d sector offset c (n - c) r.0 whole p.in_sector p.to_end r.2),
      )
]
  where
    reach : n ≢ 0 → (c : ℕ) → Part offset n c → sector + 1 + (0 + (n - c) + 511) / 512 ≤ 2 ^ 28
    reach ne c p = elim (ℕ_discrete (n - c) 0) [
      | yes e ↦ omega (arith, ne)
      | no more ↦ let f : offset + c ≡ 512 = p.to_end more in omega (arith, p.of_rest)
    ]

-- How many bytes of a file `kfsExtension0` reads from an offset in it: as many as are asked for, and not
-- those behind the file's end.
abbrev pub clipped : KfsFile → (offset size : ℕ) → ℕ
clipped f offset size = min size (f.size - offset)

-- From good sectors of 512 bytes, all of them below 2 ^ 28, an offset inside the file, whose sum with
-- the size asked for is below 2 ^ 32, gives the file's bytes from there on, as many as are asked for or as
-- there are: the loop ends, and the bytes are those of the disk at that place.
pub kfs_extension0-IsSlice :
    (d : Disk) (f : KfsFile) (offset size : ℕ)
    → offset < f.size
    → offset + size < 2 ^ 32
    → f.start_lba + offset / 512 + (offset % 512 + clipped f offset size + 511) / 512 ≤ 2 ^ 28
    → GoodFor d (f.start_lba + offset / 512) (offset % 512) (clipped f offset size)
    → (bytes : List ℕ) × (kfs_extension0 d f offset size ≡ some bytes)
      × (length bytes ≡ clipped f offset size)
      × ((i : ℕ)
          → i < clipped f offset size
          → get_or bytes i 0 ≡ byte_of d f.start_lba (offset + i))
unfolding kfs_extension0
kfs_extension0-IsSlice d f offset size inside small near g =
    let r =
      rounds-IsSlice (clipped f offset size) d (f.start_lba + offset / 512) (offset % 512)
        (clipped f offset size) (omega arith) (omega arith) near g in
    (r.0, shape ∙ r.1, r.2.count, λ i lt. r.2.same_bytes i lt ∙ same_place i)
  where
    shape :
        kfs_extension0 d f offset size
        ≡ rounds d
            (clipped f offset size)
            (f.start_lba + offset / 512)
            (offset % 512)
            (clipped f offset size)
    shape =
        let l : leb f.size offset ≡ false = ground arith in
        let w : (offset + size) % 2 ^ 32 ≡ offset + size = omega arith in
        let c : (if ltb f.size (offset + size) then f.size - offset else size)
            ≡ clipped f offset size =
          ground arith in
        let a : (f.start_lba + offset / 512) % 2 ^ 32 ≡ f.start_lba + offset / 512 = omega arith in
        rw (l, w, c, a)

    same_place :
        (i : ℕ)
        → byte_of d (f.start_lba + offset / 512) (offset % 512 + i)
          ≡ byte_of d f.start_lba (offset + i)
    same_place i =
        let q : f.start_lba + offset / 512 + (offset % 512 + i) / 512
            ≡ f.start_lba + (offset + i) / 512 =
          omega arith in
        let m : (offset % 512 + i) % 512 ≡ (offset + i) % 512 = omega arith in rw (q, m)
