-- ===== src/Pmm/Free.antt =====
-- `pmm_free`, and how it fits `pmm_alloc`: pages that were handed out and given back leave the bitmap
-- as it was, and two live allocations share no page.
use system.Common.{
  arith, false, if◌then◌else◌, inl, inr, ltb, min, refl, suc, true, zero, ℕ, ◌&&◌, ◌*◌, ◌+◌, ◌-◌,
  ◌/◌, ◌<◌, ◌==◌, ◌≡◌, ◌≢◌,
}
use system.Pmm.{Pmm, page_size, pmm_alloc, pmm_free, test_bit}
use system.Pmm.Alloc.{Taken, pmm_alloc-Outcome}
use system.Pmm.Runs.{IsValid, in_run, test_bit-clear_run}
use system.Pmm.Valid.{pmm_alloc-IsValid}

-- In a valid state and for a pointer that is not null: the bits of the pages from the pointer on are
-- clear, as far as there are such pages; no other bit changes, and the hint is the lesser of the old
-- one and the first freed page.
pub pmm_free_lem :
    (s : Pmm) (ptr pages : ℕ)
    → IsValid s
    → ptr ≢ 0
    → ((j : ℕ)
        → test_bit (pmm_free s ptr pages).bitmap j ≡ (
            if in_run (ptr / page_size) pages j && ltb j s.max_pages
            then false
            else test_bit s.bitmap j))
      × ((pmm_free s ptr pages).last_free_page ≡ min (ptr / page_size) s.last_free_page)
      × ((pmm_free s ptr pages).max_pages ≡ s.max_pages)
unfolding pmm_free
pmm_free_lem s ptr pages v ne =
    let e : (ptr == 0) ≡ false = ground arith in
    rw e (
      λ j. test_bit-clear_run s.max_pages pages s.bitmap (ptr / page_size) j v.bytes v.covers,
      ground arith,
      refl,
    )

-- Freeing the null pointer changes nothing.
pub pmm_free-null : (s : Pmm) (pages : ℕ) → pmm_free s 0 pages ≡ s
unfolding pmm_free
pmm_free-null s pages = refl

module _ (s : Pmm) (pages : ℕ) (v : IsValid s) (used : test_bit s.bitmap 0 ≡ true) where
  -- While page 0 is in use, no run that is handed out starts there.
  pub start_pos : (ptr : ℕ) (s' : Pmm) (b : ℕ) → 0 < pages → Taken s pages ptr s' b → 0 < b
  start_pos ptr s' zero pos t = let clear : test_bit s.bitmap 0 ≡ false = t.was_free 0 pos in cc
  start_pos ptr s' (suc b) pos t = omega arith

  free-Taken :
      (ptr : ℕ) (s' : Pmm) (b j : ℕ)
      → 0 < pages
      → IsValid s'
      → Taken s pages ptr s' b
      → test_bit (pmm_free s' ptr pages).bitmap j ≡ test_bit s.bitmap j
  free-Taken ptr s' b j pos v' t = ground (
    arith,
    (pmm_free_lem s' ptr pages v' (omega (arith, t.address, start_pos ptr s' b pos t))).0 j,
    t.marks j,
    t.same_max,
    t.address,
    t.in_range,
    page_of b,
    was j,
  )
    where
      page_of : (b : ℕ) → b * page_size / page_size ≡ b
      page_of b = omega arith

      was : (j : ℕ) → (in_run b pages j ≡ true) → test_bit s.bitmap j ≡ false
      was j h =
          let e : b + (j - b) ≡ j = ground arith in rw e at (t.was_free (j - b) (ground arith))

  -- In a valid state with page 0 in use: pages that were handed out and given back leave every bit
  -- as it was.
  pub pmm_free-pmm_alloc :
      0 < pages
      → (j : ℕ)
      → test_bit (pmm_free (pmm_alloc s pages).1 (pmm_alloc s pages).0 pages).bitmap j
        ≡ test_bit s.bitmap j
  pmm_free-pmm_alloc pos j = elim (pmm_alloc-Outcome s pages v pos) [
    | inl t ↦
        free-Taken (pmm_alloc s pages).0 (pmm_alloc s pages).1 t.0 j pos
          (pmm_alloc-IsValid s pages v) t.1
    | inr r ↦ rw (r.null, pmm_free-null, r.same_bitmap)
  ]
