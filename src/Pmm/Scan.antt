-- ===== src/Pmm/Scan.antt =====
-- The search loop of `pmm_alloc`: skipping full words does not change what it finds. It takes the
-- first free run of the asked size between where it starts and its limit, or there is none.
use native.Mathlib.Decide.{dec_lt}
use system.Common.{
  All, Bool, Bool-cases, List, Option, arith, false, inl, inr, ltb, none, refl, some, suc, true,
  zero, ℕ, ◌%◌, ◌&&◌, ◌+◌, ◌-◌, ◌/◌, ◌<◌, ◌==◌, ◌≡◌, ◌≤◌, ◌⊎◌, if◌then◌else◌, leb, ◌≢◌, IsByte,
}
use system.Pmm.{advance, skip_words, test_bit, word_full, scan}
use system.Pmm.Bits.{test_bit_of_word_full}
use system.Pmm.Runs.{RunFree}

-- What a search over the pages from `from` up to `limit` must answer.
abbrev pub FirstFit : List ℕ → (from limit pages : ℕ) → Option ℕ → Type 0
FirstFit bm from limit pages none = (b : ℕ) → from ≤ b → b + pages ≤ limit → ¬ RunFree bm b pages
FirstFit bm from limit pages (some b) =
    (from ≤ b)
    × (b + pages ≤ limit)
    × RunFree bm b pages
    × ((b' : ℕ) → from ≤ b' → b' < b → ¬ RunFree bm b' pages)

-- A set bit spoils every run that holds it.
spoils : (bm : List ℕ) (p b n : ℕ) → test_bit bm p ≡ true → b ≤ p → p < b + n → ¬ RunFree bm b n
spoils bm p b n t lo hi free =
    let e : b + (p - b) ≡ p = omega arith in
    let clear : test_bit bm p ≡ false = rw e at (free (p - b) (omega arith)) in cc

module _ (bm : List ℕ) (max_words : ℕ) (within : ℕ → Bool) (bytes : All IsByte bm) where
  -- The bits from `i` up to `i'` are set.
  abbrev AllSet : ℕ → ℕ → Type 0
  AllSet i i' = (p : ℕ) → i ≤ p → p < i' → test_bit bm p ≡ true

  record Skipped (i i' : ℕ) : Type 0 where
    forward : i ≤ i'
    full : AllSet i i'

  skip_words-Skipped : (fuel i : ℕ) → i % 32 ≡ 0 → Skipped i (skip_words bm max_words within fuel i)
  unfolding skip_words
  skip_words-Skipped zero i e = record {
    forward = omega arith;
    full = λ p lo hi. absurd (omega arith);
  }
  skip_words-Skipped (suc fuel) i e =
      elim (Bool-cases (ltb (i / 32) max_words && within i && word_full bm (i / 32))) [
        | inl t ↦ rw t (further (word_full-of t) (skip_words-Skipped fuel (i + 32) (omega arith)))
        | inr f ↦ rw f (record { forward = omega arith; full = λ p lo hi. absurd (omega arith) })
      ]
    where
      word_full-of :
          (ltb (i / 32) max_words && within i && word_full bm (i / 32)) ≡ true
          → word_full bm (i / 32) ≡ true
      word_full-of h = ground arith

      further : word_full bm (i / 32) ≡ true → {i' : ℕ} → Skipped (i + 32) i' → Skipped i i'
      further w s = record {
        forward = omega (arith, s.forward);
        full = λ p lo hi. elim (dec_lt p (i + 32)) [
          | yes lt ↦
              let same : p / 32 ≡ i / 32 = omega arith in
              test_bit_of_word_full bm p bytes (rw same w)
          | no ge ↦ s.full p (omega arith) hi
        ];
      }

  advance-Skipped :
      (fuel i c : ℕ)
      → Skipped i (advance bm max_words within fuel i c)
        × ((c ≡ 0) ⊎ (advance bm max_words within fuel i c ≡ i))
  unfolding advance
  advance-Skipped fuel i c = elim (Bool-cases ((i % 32 == 0) && (c == 0))) [
    | inl t ↦ rw t (skip_words-Skipped fuel i (ground arith), inl (ground arith))
    | inr f ↦
        rw f (record { forward = omega arith; full = λ p lo hi. absurd (omega arith) }, inr refl)
  ]

  module _ (from limit pages : ℕ) where
    -- Before page `i`, with a run of `c` free pages that starts at `st`.
    record Searching (i c st : ℕ) : Type 0 where
      short : c < pages
      past : from + c ≤ i
      start : c ≢ 0 → st + c ≡ i
      free : (p : ℕ) → i ≤ p + c → p < i → test_bit bm p ≡ false
      none_before : (b : ℕ) → from ≤ b → b + c < i → ¬ RunFree bm b pages

    Searching-start : (st : ℕ) → 0 < pages → Searching from 0 st
    Searching-start st h = record {
      short = h;
      past = omega arith;
      start = λ ne. absurd (ne refl);
      free = λ p lo hi. absurd (omega arith);
      none_before = λ b lo hi. absurd (omega arith);
    }

    Searching-skip :
        {i i' c st : ℕ} → Skipped i i' → (c ≡ 0) ⊎ (i' ≡ i) → Searching i c st → Searching i' c st
    Searching-skip k (inr e) s = rw e s
    Searching-skip {i} k (inl e) s = record {
      short = s.short;
      past = omega (arith, k.forward, s.past);
      start = λ ne. absurd (ne e);
      free = λ p lo hi. absurd (omega arith);
      none_before = λ b lo hi. elim (dec_lt b i) [
        | yes lt ↦ s.none_before b lo (omega arith)
        | no ge ↦
            spoils bm b b pages (k.full b (omega arith) (omega arith)) (omega arith)
              (omega (arith, s.short))
      ];
    }

    Searching-used : {i c st : ℕ} → Searching i c st → test_bit bm i ≡ true → Searching (i + 1) 0 st
    Searching-used {i} {c} s t = record {
      short = omega (arith, s.short);
      past = omega (arith, s.past);
      start = λ ne. absurd (ne refl);
      free = λ p lo hi. absurd (omega arith);
      none_before = λ b lo hi. elim (dec_lt (b + c) i) [
        | yes lt ↦ s.none_before b lo lt
        | no ge ↦ spoils bm i b pages t (omega arith) (omega (arith, s.short))
      ];
    }

    abbrev grown : ℕ → ℕ → ℕ → ℕ
    grown i c st = if c == 0 then i else st

    grown_lem : {i c st : ℕ} → Searching i c st → grown i c st + c ≡ i
    grown_lem {i} {c} {st} s = ground (arith, s.start)

    free_until :
        {i c st : ℕ}
        → Searching i c st
        → test_bit bm i ≡ false
        → (p : ℕ) → i ≤ p + c
        → p < i + 1
        → test_bit bm p ≡ false
    free_until {i} s t p lo hi = elim (dec_lt p i) [
      | yes lt ↦ s.free p lo lt
      | no ge ↦ let e : p ≡ i = omega arith in rw e t
    ]

    Searching-free :
        {i c st : ℕ}
        → Searching i c st
        → test_bit bm i ≡ false
        → c + 1 < pages
        → Searching (i + 1) (c + 1) (grown i c st)
    Searching-free s t h = record {
      short = h;
      past = omega (arith, s.past);
      start = λ _. omega (arith, grown_lem s);
      free = λ p lo hi. free_until s t p (omega arith) hi;
      none_before = λ b lo hi. s.none_before b lo (omega arith);
    }

    FirstFit-found :
        {i c st : ℕ}
        → Searching i c st
        → test_bit bm i ≡ false
        → c + 1 ≡ pages
        → i < limit
        → FirstFit bm from limit pages (some (grown i c st))
    FirstFit-found s t h lt = (
      omega (arith, grown_lem s, s.past),
      omega (arith, grown_lem s),
      λ j hj. free_until s t _ (omega (arith, grown_lem s)) (omega (arith, grown_lem s)),
      λ b lo hi. s.none_before b lo (omega (arith, grown_lem s)),
    )

    FirstFit-none : {i c st : ℕ} → Searching i c st → limit ≤ i → FirstFit bm from limit pages none
    FirstFit-none s h b lo hi = s.none_before b lo (omega (arith, s.short))

    -- The loop answers as a search page by page does, with fuel for every page up to the limit.
    scan-FirstFit :
        (fuel i c st : ℕ)
        → limit ≤ i + fuel
        → Searching i c st
        → FirstFit bm from limit pages (scan bm max_words within limit pages fuel i c st)
    unfolding scan
    scan-FirstFit zero i c st h s = FirstFit-none s (omega arith)
    scan-FirstFit (suc fuel) i c st h s = elim (Bool-cases (leb limit i)) [
      | inl over ↦ rw over (FirstFit-none s (ground arith))
      | inr in_range ↦ rw in_range (
          at_page (advance bm max_words within limit i c) (advance-Skipped limit i c).0
            (Searching-skip (advance-Skipped limit i c).0 (advance-Skipped limit i c).1 s)
            (λ i' k s'. scan-FirstFit fuel (i' + 1) 0 st (omega (arith, k.forward)) s')
            (λ i' k s'.
              scan-FirstFit fuel (i' + 1) (c + 1) (grown i' c st) (omega (arith, k.forward)) s'))
    ]
      where
        at_page :
            (i' : ℕ)
            → Skipped i i'
            → Searching i' c st
            → ((i' : ℕ)
                → Skipped i i'
                → Searching (i' + 1) 0 st
                → FirstFit bm from limit pages
                    (scan bm max_words within limit pages fuel (i' + 1) 0 st))
            → ((i' : ℕ)
                → Skipped i i'
                → Searching (i' + 1) (c + 1) (grown i' c st)
                → FirstFit bm from limit pages
                    (scan bm max_words within limit pages fuel (i' + 1) (c + 1) (grown i' c st)))
            → FirstFit bm from limit pages (
                if leb limit i'
                then none
                else if test_bit bm i'
                then scan bm max_words within limit pages fuel (i' + 1) 0 st
                else if c + 1 == pages
                then some (grown i' c st)
                else scan bm max_words within limit pages fuel (i' + 1) (c + 1) (grown i' c st))
        at_page i' k s' restart longer = elim (Bool-cases (leb limit i')) [
          | inl over ↦ rw over (FirstFit-none s' (ground arith))
          | inr in_range ↦ rw in_range (elim (Bool-cases (test_bit bm i')) [
            | inl t ↦ rw t (restart i' k (Searching-used s' t))
            | inr t ↦ rw t (elim (Bool-cases (c + 1 == pages)) [
              | inl last ↦ rw last (FirstFit-found s' t (ground arith) (ground arith))
              | inr more ↦ rw more (
                  longer i' k (
                    Searching-free s' t
                      (omega (arith, s'.short, (λ (e : c + 1 ≡ pages). ne_of more e)))))
            ])
          ])
        ]
          where
            ne_of : (c + 1 == pages) ≡ false → c + 1 ≢ pages
            ne_of h = ground arith

    -- From the start of a search, nothing is assumed but the fuel.
    pub search-FirstFit :
        (fuel st : ℕ)
        → limit ≤ from + fuel
        → 0 < pages
        → FirstFit bm from limit pages (scan bm max_words within limit pages fuel from 0 st)
    search-FirstFit fuel st h pos = scan-FirstFit fuel from 0 st h (Searching-start st pos)
