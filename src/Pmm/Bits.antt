-- ===== src/Pmm/Bits.antt =====
-- The bit macros of pmm.c: what a bit reads after a bit was set or cleared, and what a full word says
-- of its bits. The facts of one byte are checked over all bytes.
use native.Mathlib.Decide.{ℕ_discrete}
use native.Mathlib.Nat.{add-zero}
use system.Common.{
  ==_iff, All, All-get_or, All-set, Bool, List, arith, false, get_or, get_or-set_ne,
  get_or-set_self, if◌then◌else◌, length, length-set, refl, set, suc, true, zero, ℕ, ◌%◌, ◌*◌, ◌+◌,
  ◌/◌, ◌<◌, ◌==◌, ◌^◌, ◌≡◌, all_below, all_below_sound, get_or-replicate, replicate, IsByte,
  bit_and_byte, bit_or_byte, byte_test,
}
use system.Pmm.{clear_bit, set_bit, test_bit, word_full}

-- The byte of a valid bitmap that holds a bit.
byte_at : (bm : List ℕ) (i : ℕ) → All IsByte bm → get_or bm i 0 < 256
byte_at bm i ok = All-get_or IsByte bm i 0 (omega arith) ok

-- A write of one byte at `k / 8` whose bits are known, read back by bits.
test-set :
    (bm : List ℕ) (k j v : ℕ) (x : Bool)
    → k / 8 < length bm
    → (byte_test v (j % 8)
        ≡ (if (k % 8) == (j % 8) then x else byte_test (get_or bm (k / 8) 0) (j % 8)))
    → test_bit (set bm (k / 8) v) j ≡ (if k == j then x else test_bit bm j)
unfolding test_bit
test-set bm k j v x h e = elim (ℕ_discrete (k / 8) (j / 8)) [
  | yes p ↦ rw (← p, get_or-set_self bm (k / 8) v 0 h) (ground arith)
  | no p ↦ rw (get_or-set_ne bm (k / 8) (j / 8) v 0 p) (ground arith)
]

module _ (bm : List ℕ) (ok : All IsByte bm) where
  -- A bit that is set reads true, and the others keep their value.
  pub test_bit-set_bit :
      (k j : ℕ)
      → k / 8 < length bm
      → test_bit (set_bit bm k) j ≡ (if k == j then true else test_bit bm j)
  unfolding set_bit
  test_bit-set_bit k j h =
      test-set bm k j _ true h
        (bit_or_byte (get_or bm (k / 8) 0) (k % 8) (j % 8) (byte_at bm (k / 8) ok) (omega arith)
          (omega arith)).0

  pub test_bit-clear_bit :
      (k j : ℕ)
      → k / 8 < length bm
      → test_bit (clear_bit bm k) j ≡ (if k == j then false else test_bit bm j)
  unfolding clear_bit
  test_bit-clear_bit k j h =
      test-set bm k j _ false h
        (bit_and_byte (get_or bm (k / 8) 0) (k % 8) (j % 8) (byte_at bm (k / 8) ok) (omega arith)
          (omega arith)).0

  pub set_bit-IsByte : (k : ℕ) → All IsByte (set_bit bm k)
  unfolding set_bit
  set_bit-IsByte k =
      All-set IsByte bm (k / 8) _
        (bit_or_byte (get_or bm (k / 8) 0) (k % 8) 0 (byte_at bm (k / 8) ok) (omega arith)
          (omega arith)).1
        ok

  pub clear_bit-IsByte : (k : ℕ) → All IsByte (clear_bit bm k)
  unfolding clear_bit
  clear_bit-IsByte k =
      All-set IsByte bm (k / 8) _
        (bit_and_byte (get_or bm (k / 8) 0) (k % 8) 0 (byte_at bm (k / 8) ok) (omega arith)
          (omega arith)).1
        ok

pub length-set_bit : (bm : List ℕ) (k : ℕ) → length (set_bit bm k) ≡ length bm
unfolding set_bit
length-set_bit bm k = length-set bm (k / 8) _

pub length-clear_bit : (bm : List ℕ) (k : ℕ) → length (clear_bit bm k) ≡ length bm
unfolding clear_bit
length-clear_bit bm k = length-set bm (k / 8) _

ones_table : all_below 8 (byte_test 255) ≡ true
unfolding all_below
ones_table = refl

-- A bitmap of bytes with all bits set.
pub test_bit-replicate : (n j : ℕ) → j < 8 * n → test_bit (replicate n 0xFF) j ≡ true
unfolding test_bit
test_bit-replicate n j h =
    rw (get_or-replicate {A = ℕ} n (j / 8) 0xFF 0 (omega arith))
      (all_below_sound 8 (byte_test 255) (j % 8) ones_table (omega arith))

four_bytes :
    (a b c d : ℕ)
    → a < 256
    → b < 256
    → c < 256
    → d < 256
    → a + 2 ^ 8 * b + 2 ^ 16 * c + 2 ^ 24 * d ≡ 0xffff_ffff
    → (a ≡ 255) × (b ≡ 255) × (c ≡ 255) × (d ≡ 255)
four_bytes a b c d ha hb hc hd e = omega arith

-- The bytes of a full word are all ones.
word_byte :
    (bm : List ℕ) (w r : ℕ)
    → All IsByte bm
    → word_full bm w ≡ true
    → r < 4
    → get_or bm (4 * w + r) 0 ≡ 255
unfolding word_full
word_byte bm w r ok h lt =
    pick
      (four_bytes _ _ _ _ (byte_at bm (4 * w) ok) (byte_at bm (4 * w + 1) ok)
        (byte_at bm (4 * w + 2) ok) (byte_at bm (4 * w + 3) ok) ((==_iff _ _).0 h))
      r lt
  where
    pick :
        (get_or bm (4 * w) 0 ≡ 255)
          × (get_or bm (4 * w + 1) 0 ≡ 255)
          × (get_or bm (4 * w + 2) 0 ≡ 255)
          × (get_or bm (4 * w + 3) 0 ≡ 255)
        → (r : ℕ) → r < 4
        → get_or bm (4 * w + r) 0 ≡ 255
    pick f zero l = rw (add-zero) f.0
    pick f (suc zero) l = f.1
    pick f (suc (suc zero)) l = f.2
    pick f (suc (suc (suc zero))) l = f.3
    pick f (suc (suc (suc (suc r)))) l = absurd (omega arith)

-- Every bit of a full word is set.
pub test_bit_of_word_full :
    (bm : List ℕ) (i : ℕ) → All IsByte bm → word_full bm (i / 32) ≡ true → test_bit bm i ≡ true
unfolding test_bit
test_bit_of_word_full bm i ok h =
    let e : 4 * (i / 32) + i / 8 % 4 ≡ i / 8 = omega arith in
    rw (← e, word_byte bm (i / 32) (i / 8 % 4) ok h (omega arith))
      (all_below_sound 8 (byte_test 255) (i % 8) ones_table (omega arith))
