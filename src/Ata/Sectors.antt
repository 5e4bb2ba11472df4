-- ===== src/Ata/Sectors.antt =====
-- Good sectors, their bytes, and the read of one.
use mathlib.Core.List.{append-nil}
use system.Common.{some, ap, arith, false, get_or, length, suc, ℕ, ◌%◌, ◌+◌, ◌/◌, ◌<◌, ◌^◌, ◌≡◌}
use system.Ata.{Disk, ata_read_sectors, read_loop}
use system.Ata.Transfer.{address-registers}

-- The `n` sectors from `a` are good, and whole.
pub record Good (d : Disk) (a n : ℕ) : Type 0 where
  pub good : (i : ℕ) → i < n → d.bad (a + i) ≡ false
  pub whole : (i : ℕ) → i < n → length (d.sector (a + i)) ≡ 512

pub Good-suc : (d : Disk) (a n : ℕ) → Good d a (suc n) → Good d (a + 1) n
Good-suc d a n g = record {
  good =
      λ i lt. (let e : a + 1 + i ≡ a + suc i = omega arith in rw e (g.good (suc i) (omega arith)));
  whole =
      λ i lt. (let e : a + 1 + i ≡ a + suc i = omega arith in rw e (g.whole (suc i) (omega arith)));
}

-- Byte `i` of the sectors from `a` on.
abbrev pub byte_of : Disk → (a i : ℕ) → ℕ
byte_of d a i = get_or (d.sector (a + i / 512)) (i % 512) 0

pub read_one :
    (d : Disk) (lba : ℕ)
    → lba < 2 ^ 28
    → d.bad lba ≡ false
    → ata_read_sectors lba 1 d ≡ some (d.sector lba)
unfolding ata_read_sectors read_loop
read_one d lba near g =
    let low : lba % 2 ^ 28 ≡ lba = omega arith in
    rw (address-registers lba 1 (omega arith), low, g) (ap some (append-nil (d.sector lba)))
