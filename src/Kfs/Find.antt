-- ===== src/Kfs/Find.antt =====
-- `kfs_find`: the entry of a name that no entry before it has.
use system.Common.{
  Option, inl, inr, ◌⊎◌, sym, List, get_elem?, get_or, length, suc, zero, ℕ, ℤ, ◌≡◌, ◌<◌, ◌≤◌, ◌+◌,
  ◌≢◌, pos, negsuc, some, arith, ap, get_elem?-get_or, refl, ◌∙◌,
}
use system.CString.{strcmp}
use system.CString.Compare.{IsZero, strcmp-IsZero_iff}
use system.CString.Text.{IsText, c_string}
use system.Kfs.{Superblock, kfs_find, KfsFile, find_from, compared, comparison, no_file}

-- The entry's 32 bytes hold the text `s` with its terminator.
abbrev pub Named : List ℕ → KfsFile → Type 0
Named s f = IsText s × ((rest : List ℕ) × (f.file_name ≡ c_string s rest))

-- They hold another text than `s`.
abbrev pub NamedOther : List ℕ → KfsFile → Type 0
NamedOther s f = (t : List ℕ) × Named t f × (t ≢ s)

find_from-differs :
    (files : List KfsFile) (name : List ℕ) (n i : ℕ) (z : ℤ)
    → comparison (get_elem? files i) name ≡ some z
    → ¬ IsZero z
    → find_from files name (suc n) i ≡ find_from files name n (i + 1)
unfolding find_from compared
find_from-differs files name n i (pos zero) e nz = absurd (nz refl)
find_from-differs files name n i (pos (suc k)) e nz = rw e
find_from-differs files name n i (negsuc k) e nz = rw e

find_from-equal :
    (files : List KfsFile) (name : List ℕ) (n i : ℕ) (z : ℤ)
    → comparison (get_elem? files i) name ≡ some z
    → IsZero z
    → find_from files name (suc n) i ≡ some (some i)
unfolding find_from compared
find_from-equal files name n i z e e0 = rw (e, e0)

module _ (files : List KfsFile) (s rest : List ℕ) (text : IsText s) where
  entry_lem :
      (t : List ℕ) (i : ℕ)
      → i < length files
      → Named t (get_or files i no_file)
      → (z : ℤ) × (comparison (get_elem? files i) (c_string s rest) ≡ some z)
        × ((IsZero z → t ≡ s) × (t ≡ s → IsZero z))
  unfolding comparison
  entry_lem t i lt h =
      let c = strcmp-IsZero_iff t s h.1.0 rest h.0 text in
      (
        c.0,
        rw (get_elem?-get_or files i no_file lt) (ap (λ b. strcmp b (c_string s rest)) h.1.1 ∙ c.1),
        c.2,
      )

  -- Behind entries of other names, in the array, the entry of the name is found.
  pub find_from-first :
      (n i : ℕ)
      → i + n < length files
      → ((j : ℕ) → i ≤ j → j < i + n → NamedOther s (get_or files j no_file))
      → Named s (get_or files (i + n) no_file)
      → find_from files (c_string s rest) (suc n) i ≡ some (some (i + n))
  find_from-first zero i h others here =
      let e : i + 0 ≡ i = omega arith in
      let c = entry_lem s i (omega arith) (rw e at here) in
      rw e (find_from-equal files (c_string s rest) 0 i c.0 c.1 (c.2.1 refl))
  find_from-first (suc n) i h others here =
      let o = others i (omega arith) (omega arith) in
      let c = entry_lem o.0 i (omega arith) o.1 in
      let e : i + suc n ≡ i + 1 + n = omega arith in
      find_from-differs files (c_string s rest) (suc n) i c.0 c.1 (λ z. o.2 (c.2.0 z))
      ∙ rw e (
          find_from-first n (i + 1) (omega arith) (λ j lo hi. others j (omega arith) (omega arith))
            (rw e at here))

IsZero-cases : (z : ℤ) → IsZero z ⊎ ¬ IsZero z
IsZero-cases (pos zero) = inl refl
IsZero-cases (pos (suc k)) = inr (λ e. suc_ne (ap magnitude e))
  where
    magnitude : ℤ → ℕ
    magnitude (pos n) = n
    magnitude (negsuc n) = 0

    suc_ne : suc k ≢ 0
    suc_ne q = omega (arith, q)
IsZero-cases (negsuc k) = inr (λ e. cc)

-- What the entries hold: a text each, in the `n` entries from `i` on.
abbrev pub AllNamed : List KfsFile → (n i : ℕ) → Type 0
AllNamed files n i = (j : ℕ) → i ≤ j → j < i + n → (t : List ℕ) × Named t (get_or files j no_file)

-- What is found depends on the text only, not on what lies behind its terminator.
find_from-same :
    (files : List KfsFile) (s rest rest' : List ℕ) (n i : ℕ)
    → IsText s
    → i + n ≤ length files
    → AllNamed files n i
    → find_from files (c_string s rest) n i ≡ find_from files (c_string s rest') n i
unfolding find_from
find_from-same files s rest rest' zero i text h names = refl
find_from-same files s rest rest' (suc n) i text h names =
    let t = names i (omega arith) (omega arith) in
    let c = entry_lem files s rest text t.0 i (omega arith) t.1 in
    let c' = entry_lem files s rest' text t.0 i (omega arith) t.1 in
    elim (IsZero-cases c.0) [
      | inl y ↦
          find_from-equal files (c_string s rest) n i c.0 c.1 y
          ∙ sym (find_from-equal files (c_string s rest') n i c'.0 c'.1 (c'.2.1 (c.2.0 y)))
      | inr no' ↦
          find_from-differs files (c_string s rest) n i c.0 c.1 no'
          ∙ find_from-same files s rest rest' n (i + 1) text (omega arith)
              (λ j lo hi. names j (omega arith) (omega arith))
          ∙ sym (
              find_from-differs files (c_string s rest') n i c'.0 c'.1
                (λ z. no' (c.2.1 (c'.2.0 z))))
    ]

some-index : {a b : ℕ} → ◌≡◌ {A = Option (Option ℕ)} (some (some a)) (some (some b)) → a ≡ b
some-index e = cc

-- The entry that is found has the name.
find_from-Named :
    (files : List KfsFile) (s rest : List ℕ) (n i k : ℕ)
    → IsText s
    → i + n ≤ length files
    → AllNamed files n i
    → find_from files (c_string s rest) n i ≡ some (some k)
    → Named s (get_or files k no_file)
unfolding find_from
find_from-Named files s rest zero i k text h names e = cc
find_from-Named files s rest (suc n) i k text h names e =
    let t = names i (omega arith) (omega arith) in
    let c = entry_lem files s rest text t.0 i (omega arith) t.1 in
    elim (IsZero-cases c.0) [
      | inl y ↦
          let at_k : i ≡ k =
            some-index (sym (find_from-equal files (c_string s rest) n i c.0 c.1 y) ∙ e) in
          named_at at_k (c.2.0 y) t.1
      | inr no' ↦
          find_from-Named files s rest n (i + 1) k text (omega arith)
            (λ j lo hi. names j (omega arith) (omega arith))
            (sym (find_from-differs files (c_string s rest) n i c.0 c.1 no') ∙ e)
    ]
  where
    named_at :
        {t : List ℕ}
        → i ≡ k
        → t ≡ s
        → Named t (get_or files i no_file)
        → Named s (get_or files k no_file)
    named_at p q h = rw (sym p, sym q) h

-- An entry that is found by a text is found by its own name as well.
pub kfs_find-own :
    (sb : Superblock) (s rest : List ℕ) (i : ℕ)
    → IsText s
    → sb.file_count ≤ length sb.files
    → AllNamed sb.files sb.file_count 0
    → kfs_find sb (c_string s rest) ≡ some (some i)
    → kfs_find sb (get_or sb.files i no_file).file_name ≡ some (some i)
unfolding kfs_find
kfs_find-own sb s rest i text h names e =
    let m = find_from-Named sb.files s rest sb.file_count 0 i text (omega arith) names e in
    ap (λ b. find_from sb.files b sb.file_count 0) m.1.1
    ∙ find_from-same sb.files s m.1.0 rest sb.file_count 0 text (omega arith) names
    ∙ e
