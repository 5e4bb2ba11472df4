-- ===== src/Rand.antt =====
-- kernel/lib/rand.c: the generator, on 32-bit words. `rand` starts from the tick count.
pub mod Mix
use system.Common.{bit_xor, ℕ, ◌%◌, ◌*◌, ◌+◌, ◌/◌, ◌^◌}

-- The four steps.
pub fold : ℕ → ℕ
fold seed = bit_xor (bit_xor seed 61) (seed / 2 ^ 16)

pub times_nine : ℕ → ℕ
times_nine seed = (seed + seed * 2 ^ 3 % 2 ^ 32) % 2 ^ 32

pub fold_four : ℕ → ℕ
fold_four seed = bit_xor seed (seed / 2 ^ 4)

pub multiply : ℕ → ℕ
multiply seed = seed * 0x27d4eb2d % 2 ^ 32

pub srand : ℕ → ℕ
srand seed = multiply (fold_four (times_nine (fold seed)))

pub rand : (ticks : ℕ) → ℕ
rand ticks = multiply (fold_four (times_nine (fold ticks)))
