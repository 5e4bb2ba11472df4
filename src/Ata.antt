-- ===== src/Ata.antt =====
-- kernel/drivers/ata.c: reading and writing sectors. The drive is not code of the repository: it is
-- its sectors and the addresses at which it reports an error. What the driver hands it are the values
-- of the task file registers; the waits for BSY and DRQ are over when the drive answers.
pub mod Transfer
pub mod Sectors
pub mod Wait
mod Tests
use mathlib.Core.Option
use system.Common.{
  Bool, List, Option, [], bit_and, bit_or, drop, if◌then◌else◌, negsuc, none, pos, some, suc, take,
  zero, ℕ, ℤ, ◌%◌, ◌*◌, ◌++◌, ◌+◌, ◌/◌, ◌==◌, ◌^◌,
}

pub record Disk : Type 0 where
  pub sector : ℕ → List ℕ
  pub bad : ℕ → Bool

pub record Registers : Type 0 where
  pub drive : ℕ
  pub seccount : ℕ
  pub lba_lo : ℕ
  pub lba_mid : ℕ
  pub lba_hi : ℕ

-- What the six writes to the ports set up.
unfoldable pub registers : (lba count : ℕ) → Registers
registers lba count = record {
  drive = bit_or 0xE0 (bit_and (lba / 2 ^ 24) 0x0F);
  seccount = count;
  lba_lo = lba % 2 ^ 8;
  lba_mid = lba / 2 ^ 8 % 2 ^ 8;
  lba_hi = lba / 2 ^ 16 % 2 ^ 8;
}

-- The address that the drive takes from its registers: 28 bits, the top four in the drive register.
abbrev pub address : Registers → ℕ
address r = r.drive % 16 * 2 ^ 24 + r.lba_hi * 2 ^ 16 + r.lba_mid * 2 ^ 8 + r.lba_lo

-- ERR_FAILED, and the count of sectors that a transfer returns.
abbrev pub err_failed : ℤ
err_failed = negsuc 0

-- The loop over `n` sectors from address `a`; `none` where the status has ERR set.
unfoldable pub read_loop : Disk → (n a : ℕ) → Option (List ℕ)
read_loop d zero a = some []
read_loop d (suc n) a =
    if d.bad a then none else Option.map (λ rest. d.sector a ++ rest) (read_loop d n (a + 1))

-- The bytes read, or `none` for ERR_FAILED. The count is a `uint8_t`.
unfoldable pub ata_read_sectors : (lba count : ℕ) → Disk → Option (List ℕ)
ata_read_sectors lba count d =
    let c = count % 256 in if c == 0 then none else read_loop d c (address (registers lba c))

unfoldable pub put_sector : Disk → ℕ → List ℕ → Disk
put_sector d a bytes = record d { sector = λ b. if b == a then bytes else d.sector b }

unfoldable pub write_loop : (n a : ℕ) → List ℕ → Disk → ℤ × Disk
write_loop zero a buffer d = (pos 0, d)
write_loop (suc n) a buffer d =
    let (r, d') = write_loop n (a + 1) (drop 512 buffer) (put_sector d a (take 512 buffer)) in
    if d.bad a then (err_failed, d) else (elim r [ pos k ↦ pos (suc k) | negsuc k ↦ negsuc k ], d')

unfoldable pub ata_write_sectors : (lba count : ℕ) → List ℕ → Disk → ℤ × Disk
ata_write_sectors lba count buffer d =
    let c = count % 256 in
    if c == 0 then (err_failed, d) else write_loop c (address (registers lba c)) buffer d
