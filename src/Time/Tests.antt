-- ===== src/Time/Tests.antt =====
-- Waits on a count that goes on at each read.
use system.Common.{ℕ, refl, some, ◌+◌, ◌≡◌, arith, ◌*◌}
use system.Time.{sleep, usleep, wait}
use system.Time.Ends.{Ticking, sleep_lem, tick_reads, usleep_lem}

-- It starts five ticks before the 32-bit count wraps.
abbrev each_read : Ticking
each_read = record {
  elapsed = λ k. k + 4294967291;
  grows = λ k. omega arith;
  by_one = λ k. omega arith;
  when = λ m. m;
  goes_on = λ m. omega arith;
}

waits : usleep (tick_reads each_read) 40 20 ≡ some 20
unfolding usleep wait
waits = refl

-- The product of a long time wraps.
oversleeps_not : sleep (tick_reads each_read) 1000 4294968 ≡ some 704
unfolding sleep wait
oversleeps_not = refl

usleep_example :
    (j : ℕ) × (usleep (tick_reads each_read) 4294967311 20 ≡ some j)
    × (j + 4294967291 ≡ 0 + 4294967291 + 20)
usleep_example = usleep_lem each_read 20 (omega arith) (omega arith)

sleep_example :
    (j : ℕ) × (sleep (tick_reads each_read) 4294969291 2 ≡ some j)
    × (j + 4294967291 ≡ 0 + 4294967291 + 2 * 1000)
sleep_example = sleep_lem each_read 2 (omega arith) (omega arith)
