-- ===== src/Pmm/Init/Regions.antt =====
-- The loop of `pmm_init` that marks the usable regions as free.
use system.Common.{
  List, ℕ, arith, ◌≡◌, ◌+◌, ◌*◌, ◌/◌, ◌<◌, ◌≤◌, true, false, length, All, Bool, Bool-cases, [],
  if◌then◌else◌, inl, inr, refl, sym, ◌==◌, ◌∙◌, ◌∷◌, ◌⊎◌, IsByte,
}
use system.Pmm.{test_bit, clear_run}
use system.Pmm.Init.{E820Entry, free_regions}
use system.Pmm.Runs.{clear_run-IsByte, length-clear_run, test_bit-clear_run, in_run}

-- The page is one of those that an entry for a usable region names with its low words: from the page in
-- which `base_low` lies, as many as `length_low` has whole pages.
pub data InEntry (j : ℕ) : List E820Entry → Type 0 where
  first :
      {e : E820Entry} {es : List E820Entry}
      → e.kind ≡ 1
      → e.base_low / 4096 ≤ j
      → j < e.base_low / 4096 + e.length_low / 4096
      → InEntry j (e ∷ es)
  later : {e : E820Entry} {es : List E820Entry} → InEntry j es → InEntry j (e ∷ es)

pub free_regions-IsByte :
    (es : List E820Entry) (pages : ℕ) (bm : List ℕ)
    → All IsByte bm
    → All IsByte (free_regions es pages bm)
unfolding free_regions
free_regions-IsByte [] pages bm h = h
free_regions-IsByte (e ∷ es) pages bm h = free_regions-IsByte es pages _ (one (e.kind == 1))
  where
    one :
        (b : Bool)
        → All IsByte
            (if b then clear_run pages bm (e.base_low / 4096) (e.length_low / 4096) else bm)
    one true = clear_run-IsByte pages (e.length_low / 4096) bm (e.base_low / 4096) h
    one false = h

pub length-free_regions :
    (es : List E820Entry) (pages : ℕ) (bm : List ℕ) → length (free_regions es pages bm) ≡ length bm
unfolding free_regions
length-free_regions [] pages bm = refl
length-free_regions (e ∷ es) pages bm = length-free_regions es pages _ ∙ one (e.kind == 1)
  where
    one :
        (b : Bool)
        → length (if b then clear_run pages bm (e.base_low / 4096) (e.length_low / 4096) else bm)
          ≡ length bm
    one true = length-clear_run pages (e.length_low / 4096) bm (e.base_low / 4096)
    one false = refl

-- A bit that is clear after the loop was clear, or an entry names its page.
pub free_regions-InEntry :
    (es : List E820Entry) (pages : ℕ) (bm : List ℕ) (j : ℕ)
    → All IsByte bm
    → pages ≤ 8 * length bm
    → test_bit (free_regions es pages bm) j ≡ false
    → InEntry j es ⊎ (test_bit bm j ≡ false)
unfolding free_regions
free_regions-InEntry [] pages bm j h c e = inr e
free_regions-InEntry (r ∷ es) pages bm j h c e =
    by_kind (r.kind == 1) refl (λ bm' h' c' f. free_regions-InEntry es pages bm' j h' c' f) e
  where
    start : ℕ
    start = r.base_low / 4096

    count : ℕ
    count = r.length_low / 4096

    cleared :
        r.kind ≡ 1
        → test_bit (clear_run pages bm start count) j ≡ false
        → InEntry j (r ∷ es) ⊎ (test_bit bm j ≡ false)
    cleared k f = elim (Bool-cases (in_run start count j)) [
      | inl t ↦ inl (first k (ground arith) (ground arith))
      | inr n ↦ inr (sym (test_bit-clear_run pages count bm start j h c ∙ rw n) ∙ f)
    ]

    by_kind :
        (b : Bool)
        → (r.kind == 1) ≡ b
        → ((bm' : List ℕ)
            → All IsByte bm'
            → pages ≤ 8 * length bm'
            → test_bit (free_regions es pages bm') j ≡ false
            → InEntry j es ⊎ (test_bit bm' j ≡ false))
        → test_bit (free_regions es pages (if b then clear_run pages bm start count else bm)) j
          ≡ false
        → InEntry j (r ∷ es) ⊎ (test_bit bm j ≡ false)
    by_kind true k others f =
        elim (others (clear_run pages bm start count) (clear_run-IsByte pages count bm start h)
          (omega (arith, length-clear_run pages count bm start, c)) f) [
            | inl u ↦ inl (later u)
            | inr g ↦ cleared (ground arith) g
          ]
    by_kind false k others f = elim (others bm h c f) [ inl u ↦ inl (later u) | inr g ↦ inr g ]

-- The bitmap behind one entry.
abbrev behind_entry : E820Entry → ℕ → List ℕ → List ℕ
behind_entry e pages bm =
    if e.kind == 1 then clear_run pages bm (e.base_low / 4096) (e.length_low / 4096) else bm

behind_entry-IsByte :
    (e : E820Entry) (pages : ℕ) (bm : List ℕ) → All IsByte bm → All IsByte (behind_entry e pages bm)
behind_entry-IsByte e pages bm h = elim (Bool-cases (e.kind == 1)) [
  | inl t ↦ rw t (clear_run-IsByte pages (e.length_low / 4096) bm (e.base_low / 4096) h)
  | inr f ↦ rw f h
]

length-behind_entry :
    (e : E820Entry) (pages : ℕ) (bm : List ℕ) → length (behind_entry e pages bm) ≡ length bm
length-behind_entry e pages bm = elim (Bool-cases (e.kind == 1)) [
  | inl t ↦ rw t (length-clear_run pages (e.length_low / 4096) bm (e.base_low / 4096))
  | inr f ↦ rw f refl
]

-- A bit that is clear stays clear.
behind_entry-keeps :
    (e : E820Entry) (pages : ℕ) (bm : List ℕ) (j : ℕ)
    → All IsByte bm
    → pages ≤ 8 * length bm
    → test_bit bm j ≡ false
    → test_bit (behind_entry e pages bm) j ≡ false
behind_entry-keeps e pages bm j h c clear = elim (Bool-cases (e.kind == 1)) [
  | inl t ↦ rw t (
      ground
        (arith, test_bit-clear_run pages (e.length_low / 4096) bm (e.base_low / 4096) j h c, clear))
  | inr f ↦ rw f clear
]

free_regions-keeps :
    (es : List E820Entry) (pages : ℕ) (bm : List ℕ) (j : ℕ)
    → All IsByte bm
    → pages ≤ 8 * length bm
    → test_bit bm j ≡ false
    → test_bit (free_regions es pages bm) j ≡ false
unfolding free_regions
free_regions-keeps [] pages bm j h c clear = clear
free_regions-keeps (e ∷ es) pages bm j h c clear =
    free_regions-keeps es pages (behind_entry e pages bm) j (behind_entry-IsByte e pages bm h)
      (omega (arith, length-behind_entry e pages bm, c)) (behind_entry-keeps e pages bm j h c clear)

-- The bit of a page that an entry names is clear after the loop.
pub free_regions-clears :
    (es : List E820Entry) (pages : ℕ) (bm : List ℕ) (j : ℕ)
    → All IsByte bm
    → pages ≤ 8 * length bm
    → j < pages
    → InEntry j es
    → test_bit (free_regions es pages bm) j ≡ false
unfolding free_regions
free_regions-clears [] pages bm j h c lt u = elim u [ ]
free_regions-clears (e ∷ es) pages bm j h c lt (first k from to) =
    free_regions-keeps es pages (behind_entry e pages bm) j (behind_entry-IsByte e pages bm h)
      (omega (arith, length-behind_entry e pages bm, c)) cleared
  where
    cleared : test_bit (behind_entry e pages bm) j ≡ false
    cleared =
        let t : (e.kind == 1) ≡ true = ground arith in
        rw t (
          ground
            (arith, test_bit-clear_run pages (e.length_low / 4096) bm (e.base_low / 4096) j h c))
free_regions-clears (e ∷ es) pages bm j h c lt (later u) =
    free_regions-clears es pages (behind_entry e pages bm) j (behind_entry-IsByte e pages bm h)
      (omega (arith, length-behind_entry e pages bm, c)) lt u
