-- ===== src/Pmm/Valid.antt =====
-- `pmm_alloc` and `pmm_free` keep the invariant of the allocator.
use native.Mathlib.Decide.{ℕ_discrete}
use system.Common.{
  refl, ◌≡◌, ◌∙◌, Bool-cases, Option, arith, inl, inr, ltb, none, some, ℕ, ◌+◌, ◌/◌, ◌<◌, ◌==◌, ◌≤◌,
  ap,
}
use system.Pmm.{
  Pmm, test_bit, first_pass, page_size, pmm_alloc, pmm_free, second_pass, second_search, take_run,
}
use system.Pmm.Alloc.{
  pmm_alloc-zero, pmm_alloc-Outcome, Outcome, first_pass-FirstFit, second_pass-FirstFit,
}
use system.Pmm.Runs.{
  test_bit-clear_run, IsValid, clear_run-IsByte, length-clear_run, length-set_run, set_run-IsByte,
}
use system.Pmm.Scan.{FirstFit}

take_run-IsValid :
    (s : Pmm) (pages b : ℕ) → IsValid s → b + pages ≤ s.max_pages → IsValid (take_run s pages b).1
unfolding take_run
take_run-IsValid s pages b v h = record {
  bytes = set_run-IsByte pages s.bitmap b v.bytes;
  covers = omega (arith, v.covers, length-set_run pages s.bitmap b);
  hint = h;
  small = v.small;
}

-- A search within the pages leads to a valid allocator, whatever it answers.
answer-IsValid :
    (s : Pmm) (pages from limit : ℕ) (r : Option ℕ) (otherwise : ℕ × Pmm)
    → IsValid s
    → limit ≤ s.max_pages
    → FirstFit s.bitmap from limit pages r
    → IsValid otherwise.1
    → let out : ℕ × Pmm = elim r [ some b ↦ take_run s pages b | none ↦ otherwise ] in IsValid out.1
answer-IsValid s pages from limit (some b) other v h f w =
    take_run-IsValid s pages b v (omega (arith, f.1))
answer-IsValid s pages from limit none other v h f w = w

module _ (s : Pmm) (pages : ℕ) (v : IsValid s) (pos : 0 < pages) where
  rewound-IsValid : IsValid (record s { last_free_page = 0 })
  rewound-IsValid = record {
    bytes = v.bytes;
    covers = v.covers;
    hint = omega arith;
    small = v.small;
  }

  second_search-IsValid : IsValid (second_search s pages).1
  unfolding second_search
  second_search-IsValid = elim (Bool-cases (ltb 0 s.last_free_page)) [
    | inl t ↦ rw t (
        answer-IsValid s pages 0 s.last_free_page (second_pass s pages) _ v v.hint
          (second_pass-FirstFit s pages v pos) rewound-IsValid)
    | inr f ↦ rw f v
  ]

-- `pmm_alloc` keeps the invariant, whether it succeeds or not.
pub pmm_alloc-IsValid : (s : Pmm) (pages : ℕ) → IsValid s → IsValid (pmm_alloc s pages).1
unfolding pmm_alloc
pmm_alloc-IsValid s pages v = elim (Bool-cases (pages == 0)) [
  | inl none_asked ↦ rw none_asked v
  | inr asked ↦ rw asked (
      answer-IsValid s pages s.last_free_page s.max_pages (first_pass s pages)
        (second_search s pages) v (omega arith) (first_pass-FirstFit s pages v (ground arith))
        (second_search-IsValid s pages v (ground arith)))
]

-- `pmm_free` keeps the invariant, for any pointer and any number of pages.
pub pmm_free-IsValid : (s : Pmm) (ptr pages : ℕ) → IsValid s → IsValid (pmm_free s ptr pages)
unfolding pmm_free
pmm_free-IsValid s ptr pages v = elim (Bool-cases (ptr == 0)) [
  | inl t ↦ rw t v
  | inr f ↦ rw f (record {
    bytes = clear_run-IsByte s.max_pages pages s.bitmap (ptr / page_size) v.bytes;
    covers = omega (arith, v.covers, length-clear_run s.max_pages pages s.bitmap (ptr / page_size));
    hint = ground (arith, v.hint);
    small = v.small;
  })
]

-- What calls of the allocator lead to, in any order and with any arguments.
pub data Calls (s : Pmm) : Pmm → Type 0 where
  start : Calls s s
  alloc : (s' : Pmm) (pages : ℕ) → Calls s s' → Calls s (pmm_alloc s' pages).1
  free : (s' : Pmm) (ptr pages : ℕ) → Calls s s' → Calls s (pmm_free s' ptr pages)

-- What the calls leave alone: the number of pages, and the bits of the bitmap behind those of the pages.
pub record Within (s s' : Pmm) : Type 0 where
  pub same_max : s'.max_pages ≡ s.max_pages
  pub behind : (j : ℕ) → s.max_pages ≤ j → test_bit s'.bitmap j ≡ test_bit s.bitmap j

Within-then : (s t u : Pmm) → Within s t → Within t u → Within s u
Within-then s t u a b = record {
  same_max = b.same_max ∙ a.same_max;
  behind = λ j h. b.behind j (omega (arith, a.same_max)) ∙ a.behind j h;
}

pmm_alloc-Within : (s : Pmm) (pages : ℕ) → IsValid s → Within s (pmm_alloc s pages).1
pmm_alloc-Within s pages v = elim (ℕ_discrete pages 0) [
  | yes e ↦ rw (e, pmm_alloc-zero s) (record { same_max = refl; behind = λ j h. refl })
  | no ne ↦ by_outcome (pmm_alloc s pages) (pmm_alloc-Outcome s pages v (omega arith))
]
  where
    by_outcome : (out : ℕ × Pmm) → Outcome s pages out → Within s out.1
    by_outcome out (inl (b, t)) = record {
      same_max = t.same_max;
      behind = λ j h. ground (arith, t.marks j, t.in_range);
    }
    by_outcome out (inr r) = record {
      same_max = r.same_max;
      behind = λ j h. ap (λ bm. test_bit bm j) r.same_bitmap;
    }

pmm_free-Within : (s : Pmm) (ptr pages : ℕ) → IsValid s → Within s (pmm_free s ptr pages)
unfolding pmm_free
pmm_free-Within s ptr pages v = elim (Bool-cases (ptr == 0)) [
  | inl t ↦ rw t (record { same_max = refl; behind = λ j h. refl })
  | inr f ↦ rw f (record {
    same_max = refl;
    behind = λ j h.
        ground (
          arith,
          test_bit-clear_run s.max_pages pages s.bitmap (ptr / page_size) j v.bytes v.covers,
        );
  })
]

-- Whatever pages are asked for and given back, with whatever pointers and counts, the state stays
-- valid: a bitmap of bytes with a bit for every page, and a hint that is not behind the last page.
-- The number of pages stays, and no bit of the bitmap behind those of the pages is set or cleared.
pub Calls-IsValid : (s s' : Pmm) → IsValid s → Calls s s' → IsValid s' × Within s s'
Calls-IsValid s s' v start = (v, record { same_max = refl; behind = λ j h. refl })
Calls-IsValid s s' v (alloc t pages r) =
    let i = Calls-IsValid s t v r in
    (
      pmm_alloc-IsValid t pages i.0,
      Within-then s t (pmm_alloc t pages).1 i.1 (pmm_alloc-Within t pages i.0),
    )
Calls-IsValid s s' v (free t ptr pages r) =
    let i = Calls-IsValid s t v r in
    (
      pmm_free-IsValid t ptr pages i.0,
      Within-then s t (pmm_free t ptr pages) i.1 (pmm_free-Within t ptr pages i.0),
    )
