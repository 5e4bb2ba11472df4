-- ===== src/Pmm.antt =====
-- kernel/mm/pmm.c: the physical page allocator, a bitmap with one bit for each page of 4 KB.
-- The bitmap is its list of bytes; pointers are addresses, and NULL is 0.
pub mod Bits
pub mod Init
pub mod Runs
pub mod Scan
pub mod Alloc
pub mod Valid
pub mod Free
pub mod Retry
mod Tests
use system.Common.{
  ℕ, zero, suc, ◌+◌, ◌-◌, ◌*◌, ◌/◌, ◌%◌, ◌^◌, bit_and, bit_or, Bool, true, not, ◌&&◌, Option, none,
  some, List, ltb, leb, ◌==◌, if◌then◌else◌, get_or, set,
}

abbrev pub page_size : ℕ
page_size = 4096

-- The statics of the file. `bitmap` holds the bytes that the pointer of that name leads to.
pub record Pmm : Type 0 where
  pub bitmap : List ℕ
  pub max_pages : ℕ
  pub last_free_page : ℕ

-- BITMAP_SET, BITMAP_CLEAR and BITMAP_TEST. `~(1 << k)` has the low byte 255 - 2 ^ k.
unfoldable pub set_bit : List ℕ → ℕ → List ℕ
set_bit bitmap bit = set bitmap (bit / 8) (bit_or (get_or bitmap (bit / 8) 0) (2 ^ (bit % 8)))

pub clear_bit : List ℕ → ℕ → List ℕ
clear_bit bitmap bit =
    set bitmap (bit / 8) (bit_and (get_or bitmap (bit / 8) 0) (255 - 2 ^ (bit % 8)))

unfoldable pub test_bit : List ℕ → ℕ → Bool
test_bit bitmap bit = not (bit_and (get_or bitmap (bit / 8) 0) (2 ^ (bit % 8)) == 0)

-- `bitmap_words[w] == (uint32_t)-1`, the word read from its four bytes, low byte first.
unfoldable pub word_full : List ℕ → ℕ → Bool
word_full bitmap w =
    get_or bitmap (4 * w) 0
      + 2 ^ 8 * get_or bitmap (4 * w + 1) 0
      + 2 ^ 16 * get_or bitmap (4 * w + 2) 0
      + 2 ^ 24 * get_or bitmap (4 * w + 3) 0
    == 0xffff_ffff

-- The inner `while` that skips full words. `within` is the further condition of the second pass,
-- `i + 32 <= search_limit`. The fuel is a number of rounds.
unfoldable pub skip_words : List ℕ → ℕ → (ℕ → Bool) → ℕ → ℕ → ℕ
skip_words bitmap max_words within zero i = i
skip_words bitmap max_words within (suc fuel) i =
    let next = skip_words bitmap max_words within fuel (i + 32) in
    if ltb (i / 32) max_words && within i && word_full bitmap (i / 32) then next else i

-- The skip at the start of a word, taken only outside a run.
unfoldable pub advance : List ℕ → ℕ → (ℕ → Bool) → ℕ → ℕ → ℕ → ℕ
advance bitmap max_words within fuel i consecutive =
    if (i % 32 == 0) && (consecutive == 0) then skip_words bitmap max_words within fuel i else i

-- One of the two `for` loops of `pmm_alloc`, up to `limit`: the first bit of the run that it takes,
-- or `none` where it ends without one.
unfoldable pub scan :
    List ℕ → ℕ → (ℕ → Bool) → (limit pages fuel i consecutive start_bit : ℕ) → Option ℕ
scan bitmap max_words within limit pages zero i consecutive start_bit = none
scan bitmap max_words within limit pages (suc fuel) i consecutive start_bit =
    let i' = advance bitmap max_words within limit i consecutive in
    let start_bit' = if consecutive == 0 then i' else start_bit in
    let restart = scan bitmap max_words within limit pages fuel (i' + 1) 0 start_bit in
    let longer =
      scan bitmap max_words within limit pages fuel (i' + 1) (consecutive + 1) start_bit' in
    if leb limit i
    then none
    else if leb limit i'
    then none
    else if test_bit bitmap i'
    then restart
    else if consecutive + 1 == pages
    then some start_bit'
    else longer

-- `for (j = 0; j < pages; j++) BITMAP_SET(start_bit + j);`
unfoldable pub set_run : List ℕ → ℕ → ℕ → List ℕ
set_run bitmap start_bit zero = bitmap
set_run bitmap start_bit (suc n) = set_run (set_bit bitmap start_bit) (start_bit + 1) n

-- What both loops do with a run that they found. The address is cast to a 32-bit pointer.
unfoldable pub take_run : Pmm → ℕ → ℕ → ℕ × Pmm
take_run s pages start_bit = (
  start_bit * page_size % 2 ^ 32,
  record s { bitmap = set_run s.bitmap start_bit pages; last_free_page = start_bit + pages },
)

unfoldable pub first_pass : Pmm → ℕ → Option ℕ
first_pass s pages =
    scan s.bitmap (s.max_pages / 32) (λ _. true) s.max_pages pages (s.max_pages + 1)
      s.last_free_page 0 0

pub second_pass : Pmm → ℕ → Option ℕ
second_pass s pages =
    scan s.bitmap (s.max_pages / 32) (λ i. leb (i + 32) s.last_free_page) s.last_free_page pages
      (s.last_free_page + 1) 0 0 0

pub second_search : Pmm → ℕ → ℕ × Pmm
second_search s pages =
    if ltb 0 s.last_free_page
    then (elim (second_pass s pages) [
      | some start_bit ↦ take_run s pages start_bit
      | none ↦ (0, record s { last_free_page = 0 })
    ])
    else (0, s)

unfoldable pub pmm_alloc : Pmm → ℕ → ℕ × Pmm
pmm_alloc s pages = if pages == 0 then (0, s) else (elim (first_pass s pages) [
  | some start_bit ↦ take_run s pages start_bit
  | none ↦ second_search s pages
])

-- `for (i = 0; i < pages; i++) if (start_bit + i < max_pages) BITMAP_CLEAR(start_bit + i);`
pub clear_run : ℕ → List ℕ → ℕ → ℕ → List ℕ
clear_run max_pages bitmap start_bit zero = bitmap
clear_run max_pages bitmap start_bit (suc n) =
    clear_run max_pages (if ltb start_bit max_pages then clear_bit bitmap start_bit else bitmap)
      (start_bit + 1) n

pub pmm_free : Pmm → ℕ → ℕ → Pmm
pmm_free s ptr pages =
    let start_bit = ptr / page_size in
    if ptr == 0 then s else record s {
      bitmap = clear_run s.max_pages s.bitmap start_bit pages;
      last_free_page = if ltb start_bit s.last_free_page then start_bit else s.last_free_page;
    }
