-- ===== src/Pmm/Alloc.antt =====
-- `pmm_alloc`: what it returns and what it leaves, on every path.
use system.Common.{
  arith, if◌then◌else◌, refl, true, ℕ, ◌*◌, ◌+◌, ◌≡◌, ◌≤◌, ◌⊎◌, Bool-cases, Option, false, inl, inr,
  ltb, none, some, ◌/◌, ◌<◌, ◌==◌,
}
use system.Pmm.{
  Pmm, page_size, take_run, test_bit, first_pass, pmm_alloc, second_pass, second_search,
}
use system.Pmm.Runs.{IsValid, RunFree, in_run, test_bit-set_run}
use system.Pmm.Scan.{FirstFit, search-FirstFit}

-- `ptr` is the address of a run of `pages` pages that was free; the run is in use in `s'`, every
-- other page is as it was, and the next search starts behind the run. The run does not lie across
-- the hint.
pub record Taken (s : Pmm) (pages ptr : ℕ) (s' : Pmm) (b : ℕ) : Type 0 where
  pub address : ptr ≡ b * page_size
  pub in_range : b + pages ≤ s.max_pages
  pub was_free : RunFree s.bitmap b pages
  pub placed : (s.last_free_page ≤ b) ⊎ (b + pages ≤ s.last_free_page)
  pub marks :
      (j : ℕ) → test_bit s'.bitmap j ≡ (if in_run b pages j then true else test_bit s.bitmap j)
  pub same_max : s'.max_pages ≡ s.max_pages
  pub next : s'.last_free_page ≡ b + pages

-- The null pointer, with the bitmap as it was and the next search from page 0: no run of that size
-- lies behind the hint, and none before it.
pub record Refused (s : Pmm) (pages ptr : ℕ) (s' : Pmm) : Type 0 where
  pub null : ptr ≡ 0
  pub same_bitmap : s'.bitmap ≡ s.bitmap
  pub same_max : s'.max_pages ≡ s.max_pages
  pub rewound : s'.last_free_page ≡ 0
  pub none_behind :
      (b : ℕ) → s.last_free_page ≤ b → b + pages ≤ s.max_pages → ¬ RunFree s.bitmap b pages
  pub none_before : (b : ℕ) → b + pages ≤ s.last_free_page → ¬ RunFree s.bitmap b pages

abbrev pub Outcome : Pmm → ℕ → ℕ × Pmm → Type 0
Outcome s pages (ptr, s') = ((b : ℕ) × Taken s pages ptr s' b) ⊎ Refused s pages ptr s'

module _ (s : Pmm) (pages : ℕ) (v : IsValid s) (pos : 0 < pages) where
  take_run-Taken :
      (b : ℕ)
      → b + pages ≤ s.max_pages
      → RunFree s.bitmap b pages
      → (s.last_free_page ≤ b) ⊎ (b + pages ≤ s.last_free_page)
      → Taken s pages (take_run s pages b).0 (take_run s pages b).1 b
  unfolding take_run
  take_run-Taken b h free side = record {
    address = omega (arith, v.small);
    in_range = h;
    was_free = free;
    placed = side;
    marks = λ j. test_bit-set_run pages s.bitmap b j v.bytes (omega (arith, v.covers));
    same_max = refl;
    next = refl;
  }

  pub first_pass-FirstFit :
      FirstFit s.bitmap s.last_free_page s.max_pages pages (first_pass s pages)
  unfolding first_pass
  first_pass-FirstFit =
      search-FirstFit s.bitmap (s.max_pages / 32) _ v.bytes s.last_free_page s.max_pages pages
        (s.max_pages + 1) 0 (omega arith) pos

  pub second_pass-FirstFit : FirstFit s.bitmap 0 s.last_free_page pages (second_pass s pages)
  unfolding second_pass
  second_pass-FirstFit =
      search-FirstFit s.bitmap (s.max_pages / 32) _ v.bytes 0 s.last_free_page pages
        (s.last_free_page + 1) 0 (omega arith) pos

  abbrev NoneBehind : Type 0
  NoneBehind = FirstFit s.bitmap s.last_free_page s.max_pages pages none

  second_answer :
      NoneBehind
      → (r : Option ℕ) → FirstFit s.bitmap 0 s.last_free_page pages r
      → Outcome s pages (elim r [
        | some start_bit ↦ take_run s pages start_bit
        | none ↦ (0, record s { last_free_page = 0 })
      ])
  second_answer behind (some b) f = inl (b, take_run-Taken b (omega (arith, v.hint)) f.2 (inr f.1))
  second_answer behind none f = inr (record {
    null = refl;
    same_bitmap = refl;
    same_max = refl;
    rewound = refl;
    none_behind = behind;
    none_before = λ b h. f b (omega arith) h;
  })

  second_search-Outcome : NoneBehind → Outcome s pages (second_search s pages)
  unfolding second_search
  second_search-Outcome behind = elim (Bool-cases (ltb 0 s.last_free_page)) [
    | inl t ↦ rw t (second_answer behind (second_pass s pages) second_pass-FirstFit)
    | inr f ↦ rw f (
        inr (record {
          null = refl;
          same_bitmap = refl;
          same_max = refl;
          rewound = ground arith;
          none_behind = behind;
          none_before = λ b h. absurd (ground arith);
        }))
  ]

  first_answer :
      (r : Option ℕ)
      → FirstFit s.bitmap s.last_free_page s.max_pages pages r
      → Outcome s pages
          (elim r [ some start_bit ↦ take_run s pages start_bit | none ↦ second_search s pages ])
  first_answer (some b) f = inl (b, take_run-Taken b f.1 f.2 (inl f.0))
  first_answer none f = second_search-Outcome f

  -- In a valid state, a request for one page or more takes a run of that size that was free, and
  -- marks just its pages; or it returns null and leaves the bitmap, because no free run of that size
  -- lies wholly behind the hint or wholly before it.
  pub pmm_alloc-Outcome : Outcome s pages (pmm_alloc s pages)
  unfolding pmm_alloc
  pmm_alloc-Outcome =
      let e : (pages == 0) ≡ false = ground arith in
      rw e (first_answer (first_pass s pages) first_pass-FirstFit)

-- A request for no page gives the null pointer and changes nothing.
pub pmm_alloc-zero : (s : Pmm) → pmm_alloc s 0 ≡ (0, s)
unfolding pmm_alloc
pmm_alloc-zero s = refl
