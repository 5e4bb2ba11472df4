-- ===== src/Pmm/Init/Tests.antt =====
-- The start of the allocator on a small memory map.
use system.Common.{All, false, List, ℕ, ◌≡◌, ◌∷◌, [], refl, some, arith}
use system.Pmm.{test_bit, clear_bit, clear_run}
use system.Pmm.Init.{
  E820Entry, free_regions, Init, pmm_init, fill_bitmap, init_at, max_addr_from, place, place_from,
  bytes_for, pages_for, no_memory, no_place, overruns, ready,
}
use system.Pmm.Init.Usable.{FreesUsable, LowAligned, pmm_init-FreesUsable}

abbrev high : E820Entry
high = record { base_low = 0; base_high = 1; length_low = 0x8000; length_high = 0; kind = 1 }

-- 640 KB of low memory without its first page, a region in use, and 16 KB from 1 MB on.
abbrev map_entries : List E820Entry
map_entries =
    record { base_low = 4096; base_high = 0; length_low = 0x9f000; length_high = 0; kind = 1 }
    ∷ record { base_low = 0xf0000; base_high = 0; length_low = 0x10000; length_high = 0; kind = 2 }
    ∷ record { base_low = 0x100000; base_high = 0; length_low = 0x4000; length_high = 0; kind = 1 }
    ∷ []

map_entries-LowAligned : All LowAligned map_entries
map_entries-LowAligned =
    (λ k. (refl, refl, refl), (λ k. absurd (omega (arith, k)), (λ k. (refl, refl, refl), tt)))

pmm_init-FreesUsable_example : FreesUsable map_entries (pmm_init map_entries)
pmm_init-FreesUsable_example = pmm_init-FreesUsable map_entries map_entries-LowAligned

-- A region above 4 GB frees pages below 1 MB that no usable region has.
frees_high_region : test_bit (free_regions (high ∷ []) 8 (255 ∷ [])) 3 ≡ false
unfolding free_regions clear_run test_bit clear_bit
frees_high_region = refl

-- With 260 pages, the bitmap lies at 1 MB.
places : place map_entries 33 ≡ some 0x100000
unfolding place place_from
places = refl

counts_pages : max_addr_from map_entries 0 ≡ 0x104000
unfolding max_addr_from
counts_pages = refl

pages_of : Init → ℕ
pages_of no_memory = 0
pages_of no_place = 0
pages_of overruns = 0
pages_of (ready base s) = s.max_pages

-- The start succeeds.
starts : pages_of (pmm_init map_entries) ≡ 260
unfolding pages_of pmm_init init_at fill_bitmap place place_from max_addr_from bytes_for pages_for
starts = refl
