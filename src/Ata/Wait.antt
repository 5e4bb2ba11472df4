-- ===== src/Ata/Wait.antt =====
-- The waits for the drive, and `ata_init`. `status k` is what read number `k` of the status port gives.
use system.Common.{
  List, [], ◌∷◌, Option, Bool, none, some, not, true, false, bit_and, if◌then◌else◌, suc, zero, ℕ,
  ◌+◌, ◌<◌, ◌==◌, ◌≡◌, arith, refl,
}
use system.Interrupts.{PortWrite, out}

abbrev pub status_bsy : ℕ
status_bsy = 0x80

abbrev pub status_drq : ℕ
status_drq = 0x08

-- A loop that reads the status until `test` fails, from read `k` on: the number of the read that ends
-- it, or `none` where the fuel is out.
pub poll : (test : ℕ → Bool) → (status : ℕ → ℕ) → (fuel k : ℕ) → Option ℕ
poll test status zero k = none
poll test status (suc fuel) k =
    let rest = poll test status fuel (k + 1) in if test (status k) then rest else some k

abbrev pub is_busy : ℕ → Bool
is_busy s = not (bit_and s status_bsy == 0)

abbrev pub no_data : ℕ → Bool
no_data s = bit_and s status_drq == 0

pub ata_wait_busy : (status : ℕ → ℕ) → (fuel k : ℕ) → Option ℕ
ata_wait_busy status fuel k = poll is_busy status fuel k

pub ata_wait_drq : (status : ℕ → ℕ) → (fuel k : ℕ) → Option ℕ
ata_wait_drq status fuel k = poll no_data status fuel k

-- The write, and the number of the first read behind the four that follow it.
pub ata_init : (k : ℕ) → List PortWrite × ℕ
ata_init k = (out 0x1F6 0xA0 ∷ [], k + 4)

poll_lem :
    (test : ℕ → Bool) (status : ℕ → ℕ) (n k : ℕ)
    → ((i : ℕ) → i < n → test (status (k + i)) ≡ true)
    → test (status (k + n)) ≡ false
    → poll test status (suc n) k ≡ some (k + n)
unfolding poll
poll_lem test status zero k before ends =
    let e : k + 0 ≡ k = omega arith in rw e (rw (rw e at ends) refl)
poll_lem test status (suc n) k before ends =
    let z : k + 0 ≡ k = omega arith in
    let e : k + suc n ≡ k + 1 + n = omega arith in
    let t : test (status k) ≡ true = rw z at (before 0 (omega arith)) in
    let r =
      poll_lem test status n (k + 1)
        (λ i lt.
          (let d : k + suc i ≡ k + 1 + i = omega arith in rw d at (before (suc i) (omega arith))))
        (rw e at ends) in
    rw (t, e) r

-- A drive that is busy for `n` reads of its status and then not is waited for until just that read, and
-- one that shows DRQ first at read `n` behind it is waited for until that read.
pub waits_end :
    (status : ℕ → ℕ) (n m k : ℕ)
    → ((i : ℕ) → i < n → is_busy (status (k + i)) ≡ true)
    → is_busy (status (k + n)) ≡ false
    → ((i : ℕ) → i < m → no_data (status (k + n + 1 + i)) ≡ true)
    → no_data (status (k + n + 1 + m)) ≡ false
    → (ata_wait_busy status (suc n) k ≡ some (k + n))
      × (ata_wait_drq status (suc m) (k + n + 1) ≡ some (k + n + 1 + m))
unfolding ata_wait_busy ata_wait_drq
waits_end status n m k busy ready no_drq drq =
    (poll_lem is_busy status n k busy ready, poll_lem no_data status m (k + n + 1) no_drq drq)
