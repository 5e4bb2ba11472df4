-- ===== src/Pmm/Init/Boot.antt =====
-- What `pmm_init` leaves.
use system.Common.{
  List, ℕ, arith, ◌≡◌, ◌+◌, ◌*◌, ◌/◌, ◌<◌, ◌≤◌, true, false, length, All, Bool, [], if◌then◌else◌,
  inl, inr, refl, ◌==◌, ◌∙◌, ◌∷◌, ◌⊎◌, All-replicate, length-replicate, replicate, ◌^◌, Option, ltb,
  none, some, ◌||◌, IsByte,
}
use system.Pmm.{set_run, set_bit, test_bit, Pmm}
use system.Pmm.Bits.{test_bit-replicate, length-set_bit, test_bit-set_bit, set_bit-IsByte}
use system.Pmm.Init.{
  Init, bytes_for, pages_for, overruns, ready, no_memory, no_place, E820Entry, free_regions,
  max_addr_from, fill_bitmap, init_at, place, pmm_init,
}
use system.Pmm.Init.Regions.{
  InEntry, free_regions-IsByte, length-free_regions, free_regions-InEntry, free_regions-clears,
}
use system.Pmm.Runs.{in_run, IsValid, length-set_run, set_run-IsByte, test_bit-set_run}

max_addr_from-small : (es : List E820Entry) (m : ℕ) → m < 2 ^ 32 → max_addr_from es m < 2 ^ 32
unfolding max_addr_from
max_addr_from-small [] m h = h
max_addr_from-small (e ∷ es) m h = max_addr_from-small es _ (ground arith)

-- The allocator works from the start, on a bitmap in which page 0 and the pages of the bitmap are in
-- use, and of the other pages those are free that an entry for a usable region names.
abbrev pub Boots : List E820Entry → Init → Type 0
Boots es no_memory = Unit
Boots es no_place = Unit
Boots es overruns = Unit
Boots es (ready base s) =
    IsValid s
    × (test_bit s.bitmap 0 ≡ true)
    × ((j : ℕ)
        → base / 4096 ≤ j
        → j < base / 4096 + pages_for (length s.bitmap)
        → test_bit s.bitmap j ≡ true)
    × ((j : ℕ) → j < s.max_pages → test_bit s.bitmap j ≡ false → InEntry j es)
    × ((j : ℕ)
        → j < s.max_pages
        → 0 < j
        → (j < base / 4096) ⊎ (base / 4096 + pages_for (length s.bitmap) ≤ j)
        → InEntry j es
        → test_bit s.bitmap j ≡ false)

module _ (es : List E820Entry) (pages base : ℕ) (small : pages ≤ 2 ^ 20) where
  size : ℕ
  size = bytes_for pages

  room : pages ≤ 8 * size
  unfolding size bytes_for
  room = ground arith

  freed : List ℕ
  freed = free_regions es pages (replicate size 0xFF)

  freed-IsByte : All IsByte freed
  unfolding freed
  freed-IsByte =
      free_regions-IsByte es pages (replicate size 0xFF)
        (All-replicate IsByte size 0xFF (omega arith))

  length-freed : length freed ≡ size
  unfolding freed
  length-freed =
      length-free_regions es pages (replicate size 0xFF) ∙ length-replicate {A = ℕ} size 0xFF

  taken : List ℕ
  taken = set_run freed (base / 4096) (pages_for size)

  taken-IsByte : All IsByte taken
  unfolding taken
  taken-IsByte = set_run-IsByte (pages_for size) freed (base / 4096) freed-IsByte

  length-taken : length taken ≡ size
  unfolding taken
  length-taken = length-set_run (pages_for size) freed (base / 4096) ∙ length-freed

  final : List ℕ
  final = set_bit taken 0

  length-final : length final ≡ size
  unfolding final
  length-final = length-set_bit taken 0 ∙ length-taken

  module _ (fits : base / 4096 + pages_for size ≤ 8 * size) (some_size : 0 < size) where
    final_bit : (j : ℕ) → test_bit final j ≡ (if 0 == j then true else test_bit taken j)
    unfolding final
    final_bit j = test_bit-set_bit taken taken-IsByte 0 j (omega (arith, length-taken))

    taken_bit :
        (j : ℕ)
        → test_bit taken j
          ≡ (if in_run (base / 4096) (pages_for size) j then true else test_bit freed j)
    unfolding taken
    taken_bit j =
        test_bit-set_run (pages_for size) freed (base / 4096) j freed-IsByte
          (omega (arith, length-freed, fits))

    final-own :
        (j : ℕ) → base / 4096 ≤ j → j < base / 4096 + pages_for size → test_bit final j ≡ true
    final-own j lo hi =
        let t : in_run (base / 4096) (pages_for size) j ≡ true = ground arith in
        final_bit j ∙ rw (taken_bit j, t) (either (0 == j))
      where
        either : (b : Bool) → (if b then true else true) ≡ true
        either true = refl
        either false = refl

    clear_before : (j : ℕ) → test_bit final j ≡ false → test_bit freed j ≡ false
    clear_before j e = ground (arith, final_bit j, taken_bit j)

    final-InEntry : (j : ℕ) → j < pages → test_bit final j ≡ false → InEntry j es
    unfolding freed
    final-InEntry j lt e =
        elim (free_regions-InEntry es pages (replicate size 0xFF) j
          (All-replicate IsByte size 0xFF (omega arith))
          (omega (arith, room, length-replicate {A = ℕ} size 0xFF)) (clear_before j e)) [
            | inl u ↦ u
            | inr f ↦ absurd (ground (arith, f, test_bit-replicate size j (omega (arith, room))))
          ]

    final-free :
        (j : ℕ)
        → j < pages
        → 0 < j
        → (j < base / 4096) ⊎ (base / 4096 + pages_for size ≤ j)
        → InEntry j es
        → test_bit final j ≡ false
    unfolding freed
    final-free j lt pos out u =
        let f : (0 == j) ≡ false = ground arith in
        let g : in_run (base / 4096) (pages_for size) j ≡ false = ground arith in
        final_bit j
        ∙ rw (f, taken_bit j, g)
            (free_regions-clears es pages (replicate size 0xFF) j
              (All-replicate IsByte size 0xFF (omega arith))
              (omega (arith, room, length-replicate {A = ℕ} size 0xFF)) lt u)

  fill_bitmap-Boots : Boots es (fill_bitmap es pages base)
  unfolding fill_bitmap final taken freed size
  fill_bitmap-Boots = by_room (ltb (8 * size) (base / 4096 + pages_for size) || (size == 0)) refl
    where
      s : Pmm
      s = record { bitmap = final; max_pages = pages; last_free_page = 0 }

      made : base / 4096 + pages_for size ≤ 8 * size → 0 < size → Boots es (ready base s)
      made fits some_size = (
        record {
          bytes = set_bit-IsByte taken taken-IsByte 0;
          covers = omega (arith, room, length-final);
          hint = omega arith;
          small = small;
        },
        final_bit fits some_size 0,
        λ j lo hi. final-own fits some_size j lo (rw length-final at hi),
        λ j lt e. final-InEntry fits some_size j lt e,
        λ j lt pos out u. final-free fits some_size j lt pos (rw length-final at out) u,
      )

      by_room :
          (b : Bool)
          → (ltb (8 * size) (base / 4096 + pages_for size) || (size == 0)) ≡ b
          → Boots es (if b then overruns else ready base s)
      by_room true e = tt
      by_room false e = made (ground arith) (ground arith)

init_at-Boots :
    (es : List E820Entry) (pages : ℕ) (o : Option ℕ)
    → pages ≤ 2 ^ 20
    → Boots es (init_at es pages o)
unfolding init_at
init_at-Boots es pages none h = tt
init_at-Boots es pages (some base) h = fill_bitmap-Boots es pages base h

-- Where `pmm_init` gets to its end without a write outside the bitmap, the allocator is in a valid
-- state, page 0 and the pages of the bitmap are in use, and of the others those are free that an entry for
-- a usable region names.
pub pmm_init-Boots : (es : List E820Entry) → Boots es (pmm_init es)
unfolding pmm_init
pmm_init-Boots es = by_memory (max_addr_from es 0 == 0)
  where
    total : ℕ
    total = max_addr_from es 0 / 4096

    by_memory :
        (b : Bool)
        → Boots es (if b then no_memory else init_at es total (place es (bytes_for total)))
    by_memory true = tt
    by_memory false =
        init_at-Boots es total (place es (bytes_for total))
          (omega (arith, max_addr_from-small es 0 (omega arith)))
