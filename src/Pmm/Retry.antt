-- ===== src/Pmm/Retry.antt =====
-- When `pmm_alloc` gives up: the second pass stops at the hint, so a run that lies across the hint is
-- not found. A refusal sets the hint to page 0, so the next try looks everywhere.
use native.Mathlib.Decide.{dec_lt}
use system.Common.{arith, inl, inr, true, ℕ, ◌+◌, ◌<◌, ◌↔◌, ◌≡◌, ◌≢◌, ◌≤◌}
use system.Pmm.{Pmm, pmm_alloc, test_bit}
use system.Pmm.Alloc.{Refused, Taken, pmm_alloc-Outcome}
use system.Pmm.Free.{start_pos}
use system.Pmm.Runs.{IsValid, RunFree}
use system.Pmm.Valid.{pmm_alloc-IsValid}

-- Every free run of that size lies across the hint.
abbrev pub OnlyAcross : Pmm → ℕ → Type 0
OnlyAcross s pages =
    (b : ℕ)
    → b + pages ≤ s.max_pages
    → RunFree s.bitmap b pages
    → (b < s.last_free_page) × (s.last_free_page < b + pages)

module _ (s : Pmm) (pages : ℕ) (v : IsValid s) (used : test_bit s.bitmap 0 ≡ true)
    (pos : 0 < pages) where
  ne_null : (ptr : ℕ) (s' : Pmm) (b : ℕ) → Taken s pages ptr s' b → ptr ≢ 0
  ne_null ptr s' b t = omega (arith, t.address, start_pos s pages v used ptr s' b pos t)

  Refused-OnlyAcross : (ptr : ℕ) (s' : Pmm) → Refused s pages ptr s' → OnlyAcross s pages
  Refused-OnlyAcross ptr s' r b h free = (before, behind)
    where
      before : b < s.last_free_page
      before = elim (dec_lt b s.last_free_page) [
        | yes lt ↦ lt
        | no ge ↦ absurd (r.none_behind b (omega arith) h free)
      ]

      behind : s.last_free_page < b + pages
      behind = elim (dec_lt s.last_free_page (b + pages)) [
        | yes lt ↦ lt
        | no ge ↦ absurd (r.none_before b (omega arith) free)
      ]

  not-Taken : (ptr : ℕ) (s' : Pmm) (b : ℕ) → Taken s pages ptr s' b → ¬ OnlyAcross s pages
  not-Taken ptr s' b t across =
      let w : (b < s.last_free_page) × (s.last_free_page < b + pages) =
        across b t.in_range t.was_free in
      omega (arith, t.placed)

  -- In a valid state with page 0 in use, a request for one page or more returns the null pointer
  -- exactly when every free run of the asked size lies across the hint. So it may be returned though
  -- such a run is there.
  pub pmm_alloc-null_iff : ((pmm_alloc s pages).0 ≡ 0) ↔ OnlyAcross s pages
  pmm_alloc-null_iff = elim (pmm_alloc-Outcome s pages v pos) [
    | inl t ↦ (
      λ e. absurd (ne_null (pmm_alloc s pages).0 (pmm_alloc s pages).1 t.0 t.1 e),
      λ a. absurd (not-Taken (pmm_alloc s pages).0 (pmm_alloc s pages).1 t.0 t.1 a),
    )
    | inr r ↦ (λ e. Refused-OnlyAcross (pmm_alloc s pages).0 (pmm_alloc s pages).1 r, λ a. r.null)
  ]

-- In a valid state with page 0 in use: if a request for one page or more is refused though there is
-- a free run of that size, the same request succeeds on the next try.
pub pmm_alloc-retry :
    (s : Pmm) (pages b : ℕ)
    → IsValid s
    → test_bit s.bitmap 0 ≡ true
    → 0 < pages
    → b + pages ≤ s.max_pages
    → RunFree s.bitmap b pages
    → (pmm_alloc s pages).0 ≡ 0
    → (pmm_alloc (pmm_alloc s pages).1 pages).0 ≢ 0
pmm_alloc-retry s pages b v used pos h free e again = elim (pmm_alloc-Outcome s pages v pos) [
  | inl t ↦ ne_null s pages v used pos (pmm_alloc s pages).0 (pmm_alloc s pages).1 t.0 t.1 e
  | inr r ↦
      let s' = (pmm_alloc s pages).1 in
      let across : OnlyAcross s' pages =
        (pmm_alloc-null_iff s' pages (pmm_alloc-IsValid s pages v) (rw r.same_bitmap used) pos).0
          again in
      omega (arith, across b (omega (arith, r.same_max)) (rw r.same_bitmap free), r.rewound)
]
