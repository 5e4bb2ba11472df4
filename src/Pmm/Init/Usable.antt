-- ===== src/Pmm/Init/Usable.antt =====
-- The pages that `pmm_init` frees, and the regions of the memory map in 64 bits.
use system.Common.{
  All, List, ℕ, ◌∷◌, ◌≡◌, ◌*◌, ◌+◌, ◌≤◌, ◌<◌, ◌^◌, ◌%◌, ◌/◌, arith, false, length, true, [], ◌⊎◌,
}
use system.Pmm.{test_bit}
use system.Pmm.Init.{E820Entry, Init, no_memory, no_place, overruns, pages_for, pmm_init, ready}
use system.Pmm.Init.Boot.{Boots, pmm_init-Boots}
use system.Pmm.Init.Regions.{InEntry, first, later}
use system.Pmm.Runs.{IsValid}

-- Where a region starts and how long it is.
abbrev pub base_of : E820Entry → ℕ
base_of e = e.base_high * 2 ^ 32 + e.base_low

abbrev pub length_of : E820Entry → ℕ
length_of e = e.length_high * 2 ^ 32 + e.length_low

-- Every byte of page `j` lies in one of the map's usable regions.
pub data Usable (j : ℕ) : List E820Entry → Type 0 where
  in_first :
      {e : E820Entry} {es : List E820Entry}
      → e.kind ≡ 1
      → base_of e ≤ j * 4096
      → (j + 1) * 4096 ≤ base_of e + length_of e
      → Usable j (e ∷ es)
  in_later : {e : E820Entry} {es : List E820Entry} → Usable j es → Usable j (e ∷ es)

-- A usable region starts below 4 GB and at a page's start, and is shorter than 4 GB.
abbrev pub LowAligned : E820Entry → Type 0
LowAligned e = e.kind ≡ 1 → (e.base_high ≡ 0) × (e.length_high ≡ 0) × (e.base_low % 4096 ≡ 0)

InEntry-Usable : (j : ℕ) (es : List E820Entry) → All LowAligned es → InEntry j es → Usable j es
InEntry-Usable j [] low u = elim u [ ]
InEntry-Usable j (e ∷ es) low (first k from below) =
    let l = low.0 k in
    in_first k (omega (arith, l.0, l.2, from)) (omega (arith, l.0, l.1, l.2, from, below))
InEntry-Usable j (e ∷ es) low (later u) = in_later (InEntry-Usable j es low.1 u)

Usable-InEntry : (j : ℕ) (es : List E820Entry) → All LowAligned es → Usable j es → InEntry j es
Usable-InEntry j [] low u = elim u [ ]
Usable-InEntry j (e ∷ es) low (in_first k from to) =
    let l = low.0 k in
    first k (omega (arith, l.0, l.2, from)) (omega (arith, l.0, l.1, l.2, from, to))
Usable-InEntry j (e ∷ es) low (in_later u) = later (Usable-InEntry j es low.1 u)

-- What `pmm_init` leaves where it gets to its end.
abbrev pub FreesUsable : List E820Entry → Init → Type 0
FreesUsable es no_memory = Unit
FreesUsable es no_place = Unit
FreesUsable es overruns = Unit
FreesUsable es (ready base s) =
    IsValid s
    × (test_bit s.bitmap 0 ≡ true)
    × ((j : ℕ)
        → base / 4096 ≤ j
        → j < base / 4096 + pages_for (length s.bitmap)
        → test_bit s.bitmap j ≡ true)
    × ((j : ℕ) → j < s.max_pages → test_bit s.bitmap j ≡ false → Usable j es)
    × ((j : ℕ)
        → j < s.max_pages
        → 0 < j
        → (j < base / 4096) ⊎ (base / 4096 + pages_for (length s.bitmap) ≤ j)
        → Usable j es
        → test_bit s.bitmap j ≡ false)

-- On a memory map whose usable regions start below 4 GB and at a page's start and are shorter than 4 GB,
-- and where `pmm_init` gets to its end without a write outside the bitmap: the allocator is in a valid
-- state, page 0 and the pages of the bitmap are in use, and of the other pages below `max_pages` exactly
-- those are free that lie wholly in a region that the map, read in 64 bits, calls usable.
pub pmm_init-FreesUsable : (es : List E820Entry) → All LowAligned es → FreesUsable es (pmm_init es)
pmm_init-FreesUsable es low = by_result (pmm_init es) (pmm_init-Boots es)
  where
    by_result : (r : Init) → Boots es r → FreesUsable es r
    by_result no_memory b = tt
    by_result no_place b = tt
    by_result overruns b = tt
    by_result (ready base s) b = (
      b.0,
      b.1,
      b.2,
      λ j lt e. InEntry-Usable j es low (b.3 j lt e),
      λ j lt pos out u. b.4 j lt pos out (Usable-InEntry j es low u),
    )
