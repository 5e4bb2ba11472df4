-- ===== src/Ata/Transfer.antt =====
-- The address that a transfer uses, and what is read after a write.
use mathlib.Core.List.{append-nil}
use system.Common.{
  ==_iff, List, all_below, all_below_sound, arith, bit_and, bit_or, drop, false, none, pos, refl,
  suc, take, true, zero, ℕ, ℤ, ◌%◌, ◌*◌, ◌+◌, ◌/◌, ◌<◌, ◌==◌, ◌^◌, ◌∙◌, ◌≡◌, ◌≤◌, ◌⊎◌, ap,
  drop-drop, if◌then◌else◌, inl, negsuc, Bool, [], some, sym, ◌++◌, ◌∷◌,
}
use system.Ata.{
  Disk, address, ata_read_sectors, ata_write_sectors, err_failed, put_sector, registers, write_loop,
  read_loop,
}

drive_table : all_below 256 (λ x. bit_or 0xE0 (bit_and x 0x0F) % 16 == (x % 16)) ≡ true
unfolding all_below
drive_table = refl

-- Of a 32-bit sector number the drive sees the low 28 bits.
pub address-registers :
    (lba count : ℕ) → lba < 2 ^ 32 → address (registers lba count) ≡ lba % 2 ^ 28
unfolding registers
address-registers lba count h = omega (
  arith,
  (==_iff (bit_or 0xE0 (bit_and (lba / 2 ^ 24) 0x0F) % 16) (lba / 2 ^ 24 % 16)).0 (
      all_below_sound 256 (λ x. bit_or 0xE0 (bit_and x 0x0F) % 16 == (x % 16)) (lba / 2 ^ 24)
        drive_table (omega arith)),
)

-- A count that is a multiple of 256, none among them, transfers nothing and fails.
pub count_wraps :
    (lba count : ℕ) (buffer : List ℕ) (d : Disk)
    → count % 256 ≡ 0
    → (ata_read_sectors lba count d ≡ none)
      × (ata_write_sectors lba count buffer d ≡ (err_failed, d))
unfolding ata_read_sectors ata_write_sectors
count_wraps lba count buffer d e = let z : (count % 256 == 0) ≡ true = ground arith in (rw z, rw z)

-- The drive reports no error at the `n` sectors from `a` on.
abbrev pub Healthy : Disk → (n a : ℕ) → Type 0
Healthy d n a = (b : ℕ) → a ≤ b → b < a + n → d.bad b ≡ false

-- What a write leaves: the result is the count, the sectors outside stay, those inside hold the
-- buffer, and the drive's errors are the same.
pub record Written (d : Disk) (n a : ℕ) (buffer : List ℕ) (r : ℤ) (d' : Disk) : Type 0 where
  pub result : r ≡ pos n
  pub outside : (b : ℕ) → (b < a) ⊎ (a + n ≤ b) → d'.sector b ≡ d.sector b
  pub inside : (i : ℕ) → i < n → d'.sector (a + i) ≡ take 512 (drop (512 * i) buffer)
  pub same_bad : d'.bad ≡ d.bad

pub write_loop-Written :
    (n a : ℕ) (buffer : List ℕ) (d : Disk)
    → Healthy d n a
    → Written d n a buffer (write_loop n a buffer d).0 (write_loop n a buffer d).1
unfolding write_loop put_sector
write_loop-Written zero a buffer d h = record {
  result = refl;
  outside = λ b o. refl;
  inside = λ i lt. absurd (omega arith);
  same_bad = refl;
}
write_loop-Written (suc n) a buffer d h = rw (h a (omega arith) (omega arith)) (
    first_then (
      write_loop-Written n (a + 1) (drop 512 buffer) (put_sector d a (take 512 buffer))
        (λ b lo hi. h b (omega arith) (omega arith))))
  where
    first_then :
        {r : ℤ} {d' : Disk}
        → Written (put_sector d a (take 512 buffer)) n (a + 1) (drop 512 buffer) r d'
        → Written d (suc n) a buffer (elim r [ pos k ↦ pos (suc k) | negsuc k ↦ negsuc k ]) d'
    first_then {d' = d'} w = record {
      result = rw w.result;
      outside =
          λ b o. w.outside b (omega arith) ∙ (let e : (b == a) ≡ false = ground arith in rw e);
      inside = inside_lem w.outside w.inside;
      same_bad = w.same_bad;
    }
      where
        inside_lem :
            ((b : ℕ)
              → (b < a + 1) ⊎ (a + 1 + n ≤ b)
              → d'.sector b ≡ (if b == a then take 512 buffer else d.sector b))
            → ((i : ℕ)
                → i < n
                → d'.sector (a + 1 + i) ≡ take 512 (drop (512 * i) (drop 512 buffer)))
            → (i : ℕ) → i < suc n
            → d'.sector (a + i) ≡ take 512 (drop (512 * i) buffer)
        inside_lem out into zero lt =
            let e : a + 0 ≡ a = omega arith in
            let t : (a == a) ≡ true = ground arith in rw e (out a (inl (omega arith)) ∙ rw t)
        inside_lem out into (suc i) lt =
            let e : a + suc i ≡ a + 1 + i = omega arith in
            let m : 512 * suc i ≡ 512 + 512 * i = omega arith in
            rw (e, m) (into i (omega arith) ∙ ap (take 512) (drop-drop 512 (512 * i) buffer))

take-add : (m n : ℕ) (xs : List ℕ) → take (m + n) xs ≡ take m xs ++ take n (drop m xs)
take-add zero n xs = let e : 0 + n ≡ n = omega arith in rw e
take-add (suc m) n [] = let e : suc m + n ≡ suc (m + n) = omega arith in rw e (sym (take-nil n))
  where
    take-nil : (n : ℕ) → ◌≡◌ {A = List ℕ} (take n []) []
    take-nil zero = refl
    take-nil (suc n) = refl
take-add (suc m) n (x ∷ xs) =
    let e : suc m + n ≡ suc (m + n) = omega arith in rw e (ap (◌∷◌ x) (take-add m n xs))

-- Sectors that hold a buffer are read as its bytes.
read_loop-buffer :
    (n a : ℕ) (buffer : List ℕ) (d : Disk)
    → Healthy d n a
    → ((i : ℕ) → i < n → d.sector (a + i) ≡ take 512 (drop (512 * i) buffer))
    → read_loop d n a ≡ some (take (512 * n) buffer)
unfolding read_loop
read_loop-buffer zero a buffer d h s = refl
read_loop-buffer (suc n) a buffer d h s =
    let rest =
      read_loop-buffer n (a + 1) (drop 512 buffer) d (λ b lo hi. h b (omega arith) (omega arith))
        later in
    let e : a + 0 ≡ a = omega arith in
    let m : 512 * suc n ≡ 512 + 512 * n = omega arith in
    let first : d.sector a ≡ take 512 buffer = rw e at (s 0 (omega arith)) in
    rw (h a (omega arith) (omega arith), rest, first, m, take-add 512 (512 * n) buffer)
  where
    later : (i : ℕ) → i < n → d.sector (a + 1 + i) ≡ take 512 (drop (512 * i) (drop 512 buffer))
    later i lt =
        let e : a + 1 + i ≡ a + suc i = omega arith in
        let m : 512 * suc i ≡ 512 + 512 * i = omega arith in
        rw (e, drop-drop 512 (512 * i) buffer, ← m) (s (suc i) (omega arith))

module _ (lba count : ℕ) (hl : lba < 2 ^ 28) (hc : count < 256) (pos_count : 0 < count) where
  small : count % 256 ≡ count
  small = omega arith

  at_lba : address (registers lba count) ≡ lba
  at_lba = address-registers lba count (omega arith) ∙ omega arith

  nonzero : (count == 0) ≡ false
  nonzero = ground arith

  -- A write of one to 255 sectors to good sectors at a 28-bit number puts the buffer there, sector
  -- by sector, leaves the other sectors, and returns the count.
  pub ata_write_sectors-Written :
      (buffer : List ℕ) (d : Disk)
      → Healthy d count lba
      → Written d count lba buffer
          (ata_write_sectors lba count buffer d).0
          (ata_write_sectors lba count buffer d).1
  unfolding ata_write_sectors
  ata_write_sectors-Written buffer d h =
      rw (small, nonzero, at_lba) (write_loop-Written count lba buffer d h)

  pub ata_read_sectors_lem : (d : Disk) → ata_read_sectors lba count d ≡ read_loop d count lba
  unfolding ata_read_sectors
  ata_read_sectors_lem d = rw (small, nonzero, at_lba)

  -- Good sectors that hold a buffer are read as it.
  pub ata_read-buffer :
      (buffer : List ℕ) (d : Disk)
      → Healthy d count lba
      → ((i : ℕ) → i < count → d.sector (lba + i) ≡ take 512 (drop (512 * i) buffer))
      → ata_read_sectors lba count d ≡ some (take (512 * count) buffer)
  ata_read-buffer buffer d h s = ata_read_sectors_lem d ∙ read_loop-buffer count lba buffer d h s

  -- What was written to good sectors is read back: one to 255 sectors, at a 28-bit sector number.
  pub ata_read-ata_write :
      (buffer : List ℕ) (d : Disk)
      → Healthy d count lba
      → ata_read_sectors lba count (ata_write_sectors lba count buffer d).1
        ≡ some (take (512 * count) buffer)
  ata_read-ata_write buffer d h =
      let w = ata_write_sectors-Written buffer d h in
      ata_read-buffer buffer (ata_write_sectors lba count buffer d).1
        (λ b lo hi. ap (λ (f : ℕ → Bool). f b) w.same_bad ∙ h b lo hi) w.inside

-- A read of the first sector.
pub read_first : (d : Disk) → d.bad 0 ≡ false → ata_read_sectors 0 1 d ≡ some (d.sector 0)
unfolding read_loop
read_first d g =
    ata_read_sectors_lem 0 1 (omega arith) (omega arith) (omega arith) d
    ∙ rw g (ap some (append-nil (d.sector 0)))
