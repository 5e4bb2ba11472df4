-- ===== src/Logo/Bitmap/Stored.antt =====
-- What a successful read has stored, and the headers when all of their bytes are read.
use system.Common.{
  Bool-cases, List, Option, inl, inr, some, none, ℕ, suc, zero, ap, arith, drop, length, refl, take,
  false, true, ltb, leb, get_or-append-left, ◌++◌, ◌+◌, ◌<◌, ◌==◌, ◌∙◌, ◌≡◌,
}
use system.Ata.{Disk, ata_read_sectors}
use system.Kfs.{KfsFile, word_at}
use system.Logo.{kfs_extension0, round, rounds}
use system.Logo.Bitmap.{half_at, headers, over, stored, stored_at, stored_round}

round-stored :
    (temp rest : Option (List ℕ)) (sector_offset copy_len : ℕ) (bytes : List ℕ) (kept : List ℕ)
    → round temp sector_offset copy_len rest ≡ some bytes
    → ((b : List ℕ) → rest ≡ some b → kept ≡ b)
    → stored_round temp sector_offset copy_len kept ≡ bytes
unfolding round stored_round
round-stored none rest o c bytes kept e h = cc
round-stored (some temp) none o c bytes kept e h = cc
round-stored (some temp) (some rest) o c bytes kept e h =
    let k : kept ≡ rest = h rest refl in ap (λ (r : List ℕ). take c (drop o temp) ++ r) k ∙ cc

rounds-stored :
    (fuel : ℕ) (d : Disk) (sector offset n : ℕ) (bytes : List ℕ)
    → rounds d fuel sector offset n ≡ some bytes
    → stored d fuel sector offset n ≡ bytes
unfolding rounds stored
rounds-stored zero d sector offset n bytes e = cc
rounds-stored (suc fuel) d sector offset n bytes e = elim (Bool-cases (n == 0)) [
  | inl z ↦ rw z (let r = rw z at e in cc)
  | inr nz ↦ rw nz (
      round-stored (ata_read_sectors sector 1 d) _ offset _ bytes _ (rw nz at e)
        (λ b r. rounds-stored fuel d (sector + 1) 0 _ b r))
]

-- Where `kfsExtension0` succeeds, its buffer holds the bytes that the model returns.
pub kfs_extension0-stored_at :
    (d : Disk) (f : KfsFile) (offset size : ℕ) (bytes : List ℕ)
    → kfs_extension0 d f offset size ≡ some bytes
    → stored_at d f offset size ≡ bytes
unfolding kfs_extension0 stored_at
kfs_extension0-stored_at d f offset size bytes e = elim (Bool-cases (leb f.size offset)) [
  | inl behind ↦
      let l : ltb offset f.size ≡ false = ground arith in rw l (let r = rw behind at e in cc)
  | inr inside ↦
      let l : ltb offset f.size ≡ true = ground arith in
      rw l (rounds-stored _ d _ _ _ bytes (rw inside at e))
]

half_at-append :
    (bytes rest : List ℕ) (i : ℕ)
    → i + 1 < length bytes
    → half_at (bytes ++ rest) i ≡ half_at bytes i
half_at-append bytes rest i lt =
    rw
      (
        get_or-append-left bytes rest i 0 (omega arith),
        get_or-append-left bytes rest (i + 1) 0 (omega arith),
      )
      refl

word_at-append :
    (bytes rest : List ℕ) (i : ℕ)
    → i + 3 < length bytes
    → word_at (bytes ++ rest) i ≡ word_at bytes i
word_at-append bytes rest i lt =
    rw
      (
        get_or-append-left bytes rest i 0 (omega arith),
        get_or-append-left bytes rest (i + 1) 0 (omega arith),
        get_or-append-left bytes rest (i + 2) 0 (omega arith),
        get_or-append-left bytes rest (i + 3) 0 (omega arith),
      )
      refl

-- Headers that are read whole do not depend on what was in their place.
pub headers-over :
    (fh ih old_fh old_ih : List ℕ)
    → length fh ≡ 14
    → length ih ≡ 40
    → headers (over fh old_fh) (over ih old_ih) ≡ headers fh ih
unfolding headers
headers-over fh ih old_fh old_ih hf hi =
    rw
      (
        half_at-append fh (drop (length fh) old_fh) 0 (omega arith),
        word_at-append fh (drop (length fh) old_fh) 10 (omega arith),
        word_at-append ih (drop (length ih) old_ih) 4 (omega arith),
        word_at-append ih (drop (length ih) old_ih) 8 (omega arith),
        half_at-append ih (drop (length ih) old_ih) 14 (omega arith),
        word_at-append ih (drop (length ih) old_ih) 16 (omega arith),
      )
      refl
