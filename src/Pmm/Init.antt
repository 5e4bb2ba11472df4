-- ===== src/Pmm/Init.antt =====
-- `pmm_init` of kernel/mm/pmm.c, on the entries of the firmware's memory map (kernel/mm/lmm.h). The
-- map is read as it was before the bitmap is written.
pub mod Regions
pub mod Boot
pub mod Usable
mod Tests
use system.Common.{
  List, Option, [], if◌then◌else◌, leb, ltb, none, replicate, some, ℕ, ◌%◌, ◌&&◌, ◌||◌, ◌*◌, ◌+◌,
  ◌/◌, ◌==◌, ◌^◌, ◌∷◌,
}
use system.Pmm.{Pmm, clear_run, page_size, set_bit, set_run}

-- `struct e820_entry`. The fields are 32-bit words; `kind` is `type`.
pub record E820Entry : Type 0 where
  pub base_low : ℕ
  pub base_high : ℕ
  pub length_low : ℕ
  pub length_high : ℕ
  pub kind : ℕ

-- The highest end of a usable region: `base + length` in 32 bits, with the low and high words added.
pub max_addr_from : List E820Entry → ℕ → ℕ
max_addr_from [] max_addr = max_addr
max_addr_from (e ∷ es) max_addr =
    let base = (e.base_low + e.base_high) % 2 ^ 32 in
    let len = (e.length_low + e.length_high) % 2 ^ 32 in
    let top = (base + len) % 2 ^ 32 in
    max_addr_from es (if (e.kind == 1) && ltb max_addr top then top else max_addr)

-- The first usable region from address `lowest` on that is large enough.
pub place_from : List E820Entry → (bitmap_size lowest : ℕ) → Option ℕ
place_from [] bitmap_size lowest = none
place_from (e ∷ es) bitmap_size lowest =
    let rest = place_from es bitmap_size lowest in
    if (e.kind == 1) && leb bitmap_size e.length_low && leb lowest e.base_low
    then some e.base_low
    else rest

-- Usable regions are marked as free.
pub free_regions : List E820Entry → (max_pages : ℕ) → List ℕ → List ℕ
free_regions [] max_pages bitmap = bitmap
free_regions (e ∷ es) max_pages bitmap = free_regions es max_pages (
    if e.kind == 1
    then clear_run max_pages bitmap (e.base_low / page_size) (e.length_low / page_size)
    else bitmap)

-- The ways out: no usable memory, no place for the bitmap, a page of the bitmap, or page 0, that the
-- bitmap has no bit for, and the allocator with the address of its bitmap.
pub data Init : Type 0 where
  no_memory no_place overruns : Init
  ready : ℕ → Pmm → Init

pub bytes_for : ℕ → ℕ
bytes_for max_pages = max_pages / 8 + (if max_pages % 8 == 0 then 0 else 1)

pub pages_for : ℕ → ℕ
pages_for bitmap_size = bitmap_size / page_size + (if bitmap_size % page_size == 0 then 0 else 1)

-- What is done with the bitmap at physical address `base`; the offset of the mapping is a multiple
-- of 2 ^ 32 and is lost in a 32-bit pointer.
pub fill_bitmap : List E820Entry → (max_pages base : ℕ) → Init
fill_bitmap es max_pages base =
    let bitmap_size = bytes_for max_pages in
    let freed = free_regions es max_pages (replicate bitmap_size 0xFF) in
    let start = base / page_size in
    if ltb (8 * bitmap_size) (start + pages_for bitmap_size) || (bitmap_size == 0)
    then overruns
    else ready base (record {
      bitmap = set_bit (set_run freed start (pages_for bitmap_size)) 0;
      max_pages = max_pages;
      last_free_page = 0;
    })

-- Above 1 MB first, then anywhere but at address 0.
pub place : List E820Entry → ℕ → Option ℕ
place es bitmap_size = elim (place_from es bitmap_size 0x100000) [
  | some base ↦ some base
  | none ↦ place_from es bitmap_size 1
]

pub init_at : List E820Entry → (max_pages : ℕ) → Option ℕ → Init
init_at es max_pages none = no_place
init_at es max_pages (some base) = fill_bitmap es max_pages base

pub pmm_init : List E820Entry → Init
pmm_init es =
    let max_addr = max_addr_from es 0 in
    let max_pages = max_addr / page_size in
    if max_addr == 0 then no_memory else init_at es max_pages (place es (bytes_for max_pages))
