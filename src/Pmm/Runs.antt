-- ===== src/Pmm/Runs.antt =====
-- Runs of pages: the predicates by which pmm.c is specified, and the loops that set or clear the bits
-- of a run.
use Prim.Native.Nat.{max}
use system.Common.{
  All, Bool, List, arith, false, if◌then◌else◌, leb, length, ltb, refl, suc, true, zero, ℕ, ◌&&◌,
  ◌*◌, ◌+◌, ◌<◌, ◌==◌, ◌^◌, ◌∙◌, ◌≡◌, ◌≤◌, IsByte,
}
use system.Pmm.{Pmm, clear_bit, clear_run, set_bit, set_run, test_bit}
use system.Pmm.Bits.{
  clear_bit-IsByte, length-clear_bit, length-set_bit, set_bit-IsByte, test_bit-clear_bit,
  test_bit-set_bit,
}

-- The bitmap holds bytes and has a bit for every page; a page number fits the 32-bit address space.
pub record IsValid (s : Pmm) : Type 0 where
  pub bytes : All IsByte s.bitmap
  pub covers : s.max_pages ≤ 8 * length s.bitmap
  pub hint : s.last_free_page ≤ s.max_pages
  pub small : s.max_pages ≤ 2 ^ 20

-- The `n` pages from `b` on are free.
abbrev pub RunFree : List ℕ → ℕ → ℕ → Type 0
RunFree bm b n = (j : ℕ) → j < n → test_bit bm (b + j) ≡ false

abbrev pub in_run : ℕ → ℕ → ℕ → Bool
in_run b n j = leb b j && ltb j (b + n)

pub set_run-IsByte : (n : ℕ) (bm : List ℕ) (b : ℕ) → All IsByte bm → All IsByte (set_run bm b n)
unfolding set_run
set_run-IsByte zero bm b ok = ok
set_run-IsByte (suc n) bm b ok = set_run-IsByte n (set_bit bm b) (b + 1) (set_bit-IsByte bm ok b)

pub length-set_run : (n : ℕ) (bm : List ℕ) (b : ℕ) → length (set_run bm b n) ≡ length bm
unfolding set_run
length-set_run zero bm b = refl
length-set_run (suc n) bm b = length-set_run n (set_bit bm b) (b + 1) ∙ length-set_bit bm b

-- After the loop exactly the bits of the run are set besides those that were.
pub test_bit-set_run :
    (n : ℕ) (bm : List ℕ) (b j : ℕ)
    → All IsByte bm
    → b + n ≤ 8 * length bm
    → test_bit (set_run bm b n) j ≡ (if in_run b n j then true else test_bit bm j)
unfolding set_run
test_bit-set_run zero bm b j ok h = ground arith
test_bit-set_run (suc n) bm b j ok h = ground (
  arith,
  test_bit-set_run n (set_bit bm b) (b + 1) j (set_bit-IsByte bm ok b),
  length-set_bit bm b,
  test_bit-set_bit bm ok b j,
)

guarded : ℕ → List ℕ → ℕ → List ℕ
guarded max bm b = if ltb b max then clear_bit bm b else bm

guarded-IsByte : (max : ℕ) (bm : List ℕ) (b : ℕ) → All IsByte bm → All IsByte (guarded max bm b)
unfolding guarded
guarded-IsByte max bm b ok =
    elim (ltb b max) as (λ t. All IsByte (if t then clear_bit bm b else bm)) [
      | true ↦ clear_bit-IsByte bm ok b
      | false ↦ ok
    ]

length-guarded : (max : ℕ) (bm : List ℕ) (b : ℕ) → length (guarded max bm b) ≡ length bm
unfolding guarded
length-guarded max bm b = ground (arith, length-clear_bit bm b)

test_bit-guarded :
    (max : ℕ) (bm : List ℕ) (b j : ℕ)
    → All IsByte bm
    → max ≤ 8 * length bm
    → test_bit (guarded max bm b) j ≡ (if ltb b max && (b == j) then false else test_bit bm j)
unfolding guarded
test_bit-guarded max bm b j ok h = ground (arith, test_bit-clear_bit bm ok b j)

pub clear_run-IsByte :
    (max n : ℕ) (bm : List ℕ) (b : ℕ) → All IsByte bm → All IsByte (clear_run max bm b n)
unfolding clear_run guarded
clear_run-IsByte max zero bm b ok = ok
clear_run-IsByte max (suc n) bm b ok =
    clear_run-IsByte max n (guarded max bm b) (b + 1) (guarded-IsByte max bm b ok)

pub length-clear_run : (max n : ℕ) (bm : List ℕ) (b : ℕ) → length (clear_run max bm b n) ≡ length bm
unfolding clear_run guarded
length-clear_run max zero bm b = refl
length-clear_run max (suc n) bm b =
    length-clear_run max n (guarded max bm b) (b + 1) ∙ length-guarded max bm b

clear_run-suc :
    (max n : ℕ) (bm : List ℕ) (b : ℕ)
    → clear_run max bm b (suc n) ≡ clear_run max (guarded max bm b) (b + 1) n
unfolding clear_run guarded
clear_run-suc max n bm b = refl

clear_run-zero : (max : ℕ) (bm : List ℕ) (b : ℕ) → clear_run max bm b zero ≡ bm
unfolding clear_run
clear_run-zero max bm b = refl

-- After the loop the bits of the run that belong to pages are clear, and the others are as they were.
pub test_bit-clear_run :
    (max n : ℕ) (bm : List ℕ) (b j : ℕ)
    → All IsByte bm
    → max ≤ 8 * length bm
    → test_bit (clear_run max bm b n) j
      ≡ (if in_run b n j && ltb j max then false else test_bit bm j)
test_bit-clear_run max zero bm b j ok h = rw (clear_run-zero max bm b) (ground arith)
test_bit-clear_run max (suc n) bm b j ok h = ground (
  arith,
  clear_run-suc max n bm b,
  test_bit-clear_run max n (guarded max bm b) (b + 1) j (guarded-IsByte max bm b ok),
  length-guarded max bm b,
  test_bit-guarded max bm b j ok,
)
