-- ===== src/Time.antt =====
-- kernel/lib/time.c: waiting by the tick count. `ticks` is volatile: `reads k` is what its read number
-- `k` gives. The result is the number of the read that ends the loop, `none` where the fuel is out.
pub mod Ends
mod Tests
use mathlib.Core.Option
use system.Common.{Option, if◌then◌else◌, ltb, none, some, suc, zero, ℕ, ◌%◌, ◌*◌, ◌+◌, ◌-◌, ◌^◌}

-- `while (ticks - init < target)`, from read `k` on.
pub wait : (reads : ℕ → ℕ) → (init target fuel k : ℕ) → Option ℕ
wait reads init target zero k = none
wait reads init target (suc fuel) k =
    let rest = wait reads init target fuel (k + 1) in
    if ltb ((reads k + 2 ^ 32 - init) % 2 ^ 32) target then rest else some k

pub usleep : (reads : ℕ → ℕ) → (fuel time : ℕ) → Option ℕ
usleep reads fuel time = wait reads (reads 0) time fuel 1

pub sleep : (reads : ℕ → ℕ) → (fuel time : ℕ) → Option ℕ
sleep reads fuel time = wait reads (reads 0) (time * 1000 % 2 ^ 32) fuel 1
