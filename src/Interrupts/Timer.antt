-- ===== src/Interrupts/Timer.antt =====
-- The divisor that `pitsetfreq` gives the timer.
use native.Mathlib.Nat.{div-lt_iff_lt-mul}
use system.Common.{[], ℕ, ◌∷◌, ◌≡◌, ◌*◌, ◌+◌, ◌/◌, ◌<◌, ◌≤◌, ◌↔◌, ◌^◌, arith, false, ◌%◌, ◌==◌}
use system.Interrupts.{out, pitsetfreq}

-- The two bytes written to the channel's port, the low one first.
abbrev pub Loads : ℕ → ℕ → Type 0
Loads hz divisor =
    (lo : ℕ) × (hi : ℕ) × (pitsetfreq hz ≡ out 0x43 0x36 ∷ out 0x40 lo ∷ out 0x40 hi ∷ [])
    × (lo < 256)
    × (hi < 256)
    × (lo + 256 * hi ≡ divisor)

-- The timer is loaded with the whole divisor exactly for frequencies from 19 Hz on; below, the 16 bits
-- of the divisor do not hold it.
pub pitsetfreq-Loads_iff : (hz : ℕ) → 0 < hz → Loads hz (1193182 / hz) ↔ (19 ≤ hz)
unfolding pitsetfreq
pitsetfreq-Loads_iff hz h = (
  λ l. omega (arith, l.3, l.4, l.5, (div-lt_iff_lt-mul {k = hz} {x = 1193182} {y = 65536} h).0),
  λ le.
      let small = (div-lt_iff_lt-mul {k = hz} {x = 1193182} {y = 65536} h).1 (omega arith) in
      let z : (hz == 0) ≡ false = ground arith in
      let div = 1193182 / hz % 2 ^ 16 in
      (div % 256, div / 2 ^ 8 % 256, rw z, omega arith, omega arith, omega arith),
)
