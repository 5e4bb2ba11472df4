-- ===== src/Pmm/Tests.antt =====
-- Tests of the allocator, and its theorems at a small memory.
use system.Common.{[], arith, refl, suc, true, zero, ◌*◌, ◌↔◌, ◌∷◌, ◌≡◌}
use system.Pmm.{
  Pmm, advance, first_pass, pmm_alloc, pmm_free, scan, second_pass, second_search, set_bit, set_run,
  skip_words, take_run, test_bit, word_full,
}
use system.Pmm.Alloc.{Outcome, pmm_alloc-Outcome}
use system.Pmm.Free.{pmm_free-pmm_alloc}
use system.Pmm.Retry.{OnlyAcross, pmm_alloc-null_iff}
use system.Pmm.Runs.{IsValid, RunFree}
use system.Pmm.Valid.{Within, Calls-IsValid, alloc, free, start}

-- 64 pages, of which 0 to 31 and 36 to 39 are in use.
abbrev small : Pmm
small = record {
  bitmap = 255 ∷ 255 ∷ 255 ∷ 255 ∷ 240 ∷ 0 ∷ 0 ∷ 0 ∷ [];
  max_pages = 64;
  last_free_page = 0;
}

-- Pages 4 and 5 alone are free, with the hint between them.
abbrev across : Pmm
across = record { bitmap = 207 ∷ []; max_pages = 8; last_free_page = 5 }

alloc_skips_word : (pmm_alloc small 3).0 ≡ 32 * 4096
unfolding pmm_alloc first_pass scan advance skip_words word_full test_bit take_run set_run set_bit
alloc_skips_word = refl

alloc_past_hole : (pmm_alloc small 5).0 ≡ 40 * 4096
unfolding pmm_alloc first_pass scan advance skip_words word_full test_bit take_run set_run set_bit
alloc_past_hole = refl

alloc_across : ((pmm_alloc across 2).0 ≡ 0) × ((pmm_alloc (pmm_alloc across 2).1 2).0 ≡ 4 * 4096)
unfolding pmm_alloc first_pass second_search second_pass scan advance skip_words word_full test_bit
    take_run set_run set_bit
alloc_across = (refl, refl)

small-IsValid : IsValid small
small-IsValid = omega arith

across-IsValid : IsValid across
across-IsValid = omega arith

small-used : test_bit small.bitmap 0 ≡ true
unfolding test_bit
small-used = refl

across-used : test_bit across.bitmap 0 ≡ true
unfolding test_bit
across-used = refl

across-RunFree : RunFree across.bitmap 4 2
unfolding test_bit
across-RunFree zero h = refl
across-RunFree (suc zero) h = refl
across-RunFree (suc (suc j)) h = absurd (omega arith)

pmm_alloc-Outcome_example : Outcome small 3 (pmm_alloc small 3)
pmm_alloc-Outcome_example = pmm_alloc-Outcome small 3 small-IsValid (omega arith)

pmm_free-pmm_alloc_example :
    test_bit (pmm_free (pmm_alloc small 3).1 (pmm_alloc small 3).0 3).bitmap 33
    ≡ test_bit small.bitmap 33
pmm_free-pmm_alloc_example = pmm_free-pmm_alloc small 3 small-IsValid small-used (omega arith) 33

pmm_alloc-null_iff_example : ((pmm_alloc across 2).0 ≡ 0) ↔ OnlyAcross across 2
pmm_alloc-null_iff_example = pmm_alloc-null_iff across 2 across-IsValid across-used (omega arith)

-- Three pages, given back, and two of them asked for again.
abbrev state : Pmm
state = (pmm_alloc (pmm_free (pmm_alloc small 3).1 0x20000 3) 2).1

Calls-IsValid_example : IsValid state × Within small state
Calls-IsValid_example = Calls-IsValid small state small-IsValid (
    alloc (pmm_free (pmm_alloc small 3).1 0x20000 3) 2
      (free (pmm_alloc small 3).1 0x20000 3 (alloc small 3 start)))
