-- ===== src/Common/Bytes.antt =====
-- Setting and clearing a bit of a byte, and what the byte's bits read then, checked over all bytes.
use Prim.Native.Nat.{ℕ, ◌+◌, ◌-◌, ◌*◌, ◌/◌, ◌%◌, ◌^◌, ◌<◌, bit_and, bit_or}
use mathlib.Core.Path.{◌≡◌, refl}
use mathlib.Core.Bool.{Bool, true, false, not, ◌&&◌}
use native.Mathlib.Omega.{arith}
use system.Common.Tests.{◌==◌, if◌then◌else◌, ltb}
use system.Common.Tables.{all_below, all_below_sound, same}

abbrev pub IsByte : ℕ → Type 0
IsByte b = b < 256

abbrev pub byte_test : ℕ → ℕ → Bool
byte_test b k = not (bit_and b (2 ^ k) == 0)

-- A byte `b` and two bit numbers `k` and `j`, as the digits of one number.
abbrev code3 : ℕ → ℕ → ℕ → ℕ
code3 b k j = b * 64 + k * 8 + j

abbrev or_case : ℕ → Bool
or_case n =
    let b = n / 64 in
    let k = n / 8 % 8 in
    let j = n % 8 in
    same (byte_test (bit_or b (2 ^ k)) j) (if k == j then true else byte_test b j)
    && ltb (bit_or b (2 ^ k)) 256

abbrev and_case : ℕ → Bool
and_case n =
    let b = n / 64 in
    let k = n / 8 % 8 in
    let j = n % 8 in
    same (byte_test (bit_and b (255 - 2 ^ k)) j) (if k == j then false else byte_test b j)
    && ltb (bit_and b (255 - 2 ^ k)) 256

or_table : all_below 16384 or_case ≡ true
unfolding all_below
or_table = refl

and_table : all_below 16384 and_case ≡ true
unfolding all_below
and_table = refl

-- A case of a table, by digits.
or_bits :
    (b k j : ℕ)
    → (same (byte_test (bit_or b (2 ^ k)) j) (if k == j then true else byte_test b j)
        && ltb (bit_or b (2 ^ k)) 256)
      ≡ true
    → (byte_test (bit_or b (2 ^ k)) j ≡ (if k == j then true else byte_test b j))
      × (bit_or b (2 ^ k) < 256)
or_bits b k j h = ground arith

and_bits :
    (b k j : ℕ)
    → (same (byte_test (bit_and b (255 - 2 ^ k)) j) (if k == j then false else byte_test b j)
        && ltb (bit_and b (255 - 2 ^ k)) 256)
      ≡ true
    → (byte_test (bit_and b (255 - 2 ^ k)) j ≡ (if k == j then false else byte_test b j))
      × (bit_and b (255 - 2 ^ k) < 256)
and_bits b k j h = ground arith

module _ (b k j : ℕ) (hb : IsByte b) (hk : k < 8) (hj : j < 8) where
  high : code3 b k j / 64 ≡ b
  high = omega arith

  middle : code3 b k j / 8 % 8 ≡ k
  middle = omega arith

  low : code3 b k j % 8 ≡ j
  low = omega arith

  pub bit_or_byte :
      (byte_test (bit_or b (2 ^ k)) j ≡ (if k == j then true else byte_test b j))
      × (bit_or b (2 ^ k) < 256)
  bit_or_byte = or_bits b k j (
      rw (high, middle, low) at
        (all_below_sound 16384 or_case (code3 b k j) or_table (omega arith)))

  pub bit_and_byte :
      (byte_test (bit_and b (255 - 2 ^ k)) j ≡ (if k == j then false else byte_test b j))
      × (bit_and b (255 - 2 ^ k) < 256)
  bit_and_byte = and_bits b k j (
      rw (high, middle, low) at
        (all_below_sound 16384 and_case (code3 b k j) and_table (omega arith)))
