-- ===== src/Time/Ends.antt =====
-- The waits end, on time.
use native.Mathlib.Decide.{dec_lt}
use system.Common.{
  ℕ, suc, ◌+◌, ◌≤◌, ◌%◌, ◌^◌, arith, some, zero, false, ltb, true, ◌-◌, ◌<◌, ◌≡◌, ◌*◌,
}
use system.Time.{wait, sleep, usleep}

-- How many ticks there were at each read of the count, from some start: between two reads there is at
-- most one tick, and the ticks go on. `when m` is a read by which there were `m` ticks.
pub record Ticking : Type 0 where
  pub elapsed : ℕ → ℕ
  pub grows : (k : ℕ) → elapsed k ≤ elapsed (suc k)
  pub by_one : (k : ℕ) → elapsed (suc k) ≤ elapsed k + 1
  pub when : ℕ → ℕ
  pub goes_on : (m : ℕ) → m ≤ elapsed (when m)

module _ (c : Ticking) where
  -- The 32-bit count.
  abbrev pub tick_reads : ℕ → ℕ
  tick_reads k = c.elapsed k % 2 ^ 32

  elapsed_mono : (j k : ℕ) → c.elapsed j ≤ c.elapsed (j + k)
  elapsed_mono j zero = let e : j + 0 ≡ j = omega arith in rw e (omega arith)
  elapsed_mono j (suc k) =
      let e : j + suc k ≡ suc (j + k) = omega arith in
      rw e (omega (arith, elapsed_mono j k, c.grows (j + k)))

  earlier : (j k : ℕ) → c.elapsed j < c.elapsed k → j < k
  earlier j k h = elim (dec_lt j k) [
    | yes lt ↦ lt
    | no ge ↦
        let e : k + (j - k) ≡ j = omega arith in
        absurd (omega (arith, rw e at (elapsed_mono k (j - k))))
  ]

  module _ (time : ℕ) (small : time < 2 ^ 32) where
    wait_lem :
        (fuel k : ℕ)
        → c.elapsed 0 ≤ c.elapsed k
        → c.elapsed k ≤ c.elapsed 0 + time
        → k ≤ c.when (c.elapsed 0 + time)
        → c.when (c.elapsed 0 + time) < k + fuel
        → (j : ℕ) × (wait tick_reads (tick_reads 0) time fuel k ≡ some j)
          × (c.elapsed j ≡ c.elapsed 0 + time)
    unfolding wait
    wait_lem zero k lo hi before enough = absurd (omega arith)
    wait_lem (suc fuel) k lo hi before enough =
        let gone : (tick_reads k + 2 ^ 32 - tick_reads 0) % 2 ^ 32 ≡ c.elapsed k - c.elapsed 0 =
          omega arith in
        elim (dec_lt (c.elapsed k - c.elapsed 0) time) [
          | yes lt ↦
              let t : ltb (c.elapsed k - c.elapsed 0) time ≡ true = ground arith in
              let sooner : k < c.when (c.elapsed 0 + time) =
                earlier k (c.when (c.elapsed 0 + time))
                  (omega (arith, c.goes_on (c.elapsed 0 + time))) in
              let e : suc k ≡ k + 1 = omega arith in
              let above : c.elapsed 0 ≤ c.elapsed (suc k) = omega (arith, c.grows k) in
              let below : c.elapsed (suc k) ≤ c.elapsed 0 + time = omega (arith, c.by_one k) in
              rw (gone, t)
                (wait_lem fuel (k + 1) (rw e at above) (rw e at below) (omega arith) (omega arith))
          | no ge ↦
              let f : ltb (c.elapsed k - c.elapsed 0) time ≡ false = ground arith in
              (k, rw (gone, f), omega arith)
        ]

    -- The first round of a wait that is not empty.
    wait_from_first :
        0 < time
        → (j : ℕ) × (wait tick_reads (tick_reads 0) time (c.when (c.elapsed 0 + time)) 1 ≡ some j)
          × (c.elapsed j ≡ c.elapsed 0 + time)
    wait_from_first positive =
        let w = c.when (c.elapsed 0 + time) in
        let far = c.goes_on (c.elapsed 0 + time) in
        wait_lem w 1 (omega (arith, c.grows 0)) (omega (arith, c.by_one 0))
          (earlier 0 w (omega arith)) (omega arith)

  -- While the ticks go on by one, `usleep` ends, and it ends at the very tick, `time` ticks after its
  -- start, also where the 32-bit count wraps in between.
  pub usleep_lem :
      (time : ℕ)
      → 0 < time
      → time < 2 ^ 32
      → (j : ℕ) × (usleep tick_reads (c.when (c.elapsed 0 + time)) time ≡ some j)
        × (c.elapsed j ≡ c.elapsed 0 + time)
  unfolding usleep
  usleep_lem time positive small = wait_from_first time small positive

  -- `sleep` ends after 1000 ticks for each unit of `time`, up to 4294967 units, from where on the
  -- product does not fit 32 bits.
  pub sleep_lem :
      (time : ℕ)
      → 0 < time
      → time ≤ 4294967
      → (j : ℕ) × (sleep tick_reads (c.when (c.elapsed 0 + time * 1000)) time ≡ some j)
        × (c.elapsed j ≡ c.elapsed 0 + time * 1000)
  unfolding sleep
  sleep_lem time positive small =
      let e : time * 1000 % 2 ^ 32 ≡ time * 1000 = omega arith in
      rw e (wait_from_first (time * 1000) (omega arith) (omega arith))
