-- ===== src/Logo/Bitmap/Pages.antt =====
-- The pages that `fblogo` takes for the pixels.
use native.Mathlib.Decide.{ℕ_discrete}
use system.Common.{
  Bool-cases, List, Option, inl, inr, none, some, ℕ, ℤ, ap, sym, refl, arith, not, true, get_or,
  ◌∙◌, ◌≡◌, ◌≢◌, ◌==◌, ◌||◌,
}
use system.Ata.{Disk}
use system.Fb.{FbInfo}
use system.Kfs.{Superblock, KfsFile, kfs_find, no_file}
use system.Logo.{kfs_extension0}
use system.Logo.Bitmap.{
  Headers, Unset, img_size, fblogo, headers, img_pages, logo_file, logo_found, pixels_read,
  info_read, file_read, over, show_image, with_headers,
}
use system.Pmm.{Pmm, pmm_alloc, pmm_free, test_bit}
use system.Pmm.Alloc.{pmm_alloc-zero}
use system.Pmm.Free.{pmm_free-null, pmm_free-pmm_alloc}
use system.Pmm.Runs.{IsValid}
use system.Uex.{Machine}

-- Every page is as free as before.
abbrev pub SamePages : Pmm → Pmm → Type 0
SamePages p q = (j : ℕ) → test_bit q.bitmap j ≡ test_bit p.bitmap j

pixels_read-pmm :
    (r : Option (List ℕ)) (fb : FbInfo) (w h x y img_buf : ℕ) (s : Machine)
    → (pixels_read r fb w h x y img_buf s).1.pmm ≡ s.pmm
unfolding pixels_read
pixels_read-pmm none fb w h x y img_buf s = refl
pixels_read-pmm (some bytes) fb w h x y img_buf s = refl

show_image-pmm :
    (d : Disk) (fb : FbInfo) (f : KfsFile) (hd : Headers) (x y img_buf : ℕ) (s : Machine)
    → (show_image d fb f hd x y img_buf s).1.pmm
      ≡ pmm_free s.pmm img_buf (img_pages hd.bi_width hd.bi_height)
unfolding show_image
show_image-pmm d fb f hd x y img_buf s =
    pixels_read-pmm (kfs_extension0 d f hd.bf_off_bits (img_size hd.bi_width hd.bi_height)) fb
      hd.bi_width hd.bi_height x y img_buf _

module _ (s : Machine) (v : IsValid s.pmm) (used : test_bit s.pmm.bitmap 0 ≡ true) where
  alloc_failed : (n : ℕ) → (pmm_alloc s.pmm n).0 ≡ 0 → SamePages s.pmm (pmm_alloc s.pmm n).1
  alloc_failed n e j = elim (ℕ_discrete n 0) [
    | yes z ↦ ap (λ (k : ℕ). test_bit (pmm_alloc s.pmm k).1.bitmap j) z ∙ rw (pmm_alloc-zero s.pmm)
    | no nz ↦
        sym (rw e (ap (λ (q : Pmm). test_bit q.bitmap j) (pmm_free-null (pmm_alloc s.pmm n).1 n)))
        ∙ pmm_free-pmm_alloc s.pmm n v used (omega arith) j
  ]

  alloc_used :
      (n : ℕ)
      → (pmm_alloc s.pmm n).0 ≢ 0
      → SamePages s.pmm (pmm_free (pmm_alloc s.pmm n).1 (pmm_alloc s.pmm n).0 n)
  alloc_used n ne j = elim (ℕ_discrete n 0) [
    | yes z ↦
        absurd (ne (ap (λ (k : ℕ). (pmm_alloc s.pmm k).0) z ∙ ap (λ r. r.0) (pmm_alloc-zero s.pmm)))
    | no nz ↦ pmm_free-pmm_alloc s.pmm n v used (omega arith) j
  ]

  with_headers-SamePages :
      (d : Disk) (fb : FbInfo) (f : KfsFile) (hd : Headers) (x y : ℕ)
      → SamePages s.pmm (with_headers d fb f hd x y s).1.pmm
  unfolding with_headers
  with_headers-SamePages d fb f hd x y j = elim (Bool-cases (hd.bf_type == 0x4D42)) [
    | inr no_type ↦ rw no_type refl
    | inl is_type ↦
        elim (Bool-cases (not (hd.bi_bit_count == 24) || not (hd.bi_compression == 0))) [
          | inl other ↦ rw (is_type, other) refl
          | inr plain ↦ elim (Bool-cases ((pmm_alloc s.pmm n).0 == 0)) [
            | inl null ↦ rw (is_type, plain, null) (alloc_failed n (ground arith) j)
            | inr found ↦
                rw (is_type, plain, found)
                  (ap (λ (q : Pmm). test_bit q.bitmap j)
                      (show_image-pmm d fb f hd x y (pmm_alloc s.pmm n).0
                        (record s { pmm = (pmm_alloc s.pmm n).1 }))
                    ∙ alloc_used n (ground arith) j)
          ]
        ]
  ]
    where
      n : ℕ
      n = img_pages hd.bi_width hd.bi_height

  info_read-SamePages :
      (r : Option (List ℕ)) (d : Disk) (fb : FbInfo) (u : Unset) (fh : List ℕ) (f : KfsFile)
      (x y : ℕ)
      → SamePages s.pmm (info_read r d fb u fh f x y s).1.pmm
  unfolding info_read
  info_read-SamePages none d fb u fh f x y = λ j. refl
  info_read-SamePages (some ih) d fb u fh f x y =
      with_headers-SamePages d fb f (headers (over fh u.fh) (over ih u.ih)) x y

  file_read-SamePages :
      (r : Option (List ℕ)) (d : Disk) (fb : FbInfo) (u : Unset) (f : KfsFile) (x y : ℕ)
      → SamePages s.pmm (file_read r d fb u f x y s).1.pmm
  unfolding file_read
  file_read-SamePages none d fb u f x y = λ j. refl
  file_read-SamePages (some fh) d fb u f x y =
      info_read-SamePages (kfs_extension0 d f 14 40) d fb u fh f x y

  logo_found-SamePages :
      (sb : Superblock) (d : Disk) (fb : FbInfo) (u : Unset) (i : Option ℕ) (x y : ℕ)
      → SamePages s.pmm (logo_found sb d fb u i x y s).1.pmm
  unfolding logo_found logo_file
  logo_found-SamePages sb d fb u none x y = λ j. refl
  logo_found-SamePages sb d fb u (some i) x y =
      file_read-SamePages (kfs_extension0 d (get_or sb.files i no_file) 0 14) d fb u
        (get_or sb.files i no_file) x y

  -- Where `kfs_find` returns, found or not, `fblogo` returns, and afterwards every page is as free as it
  -- was, whatever the file holds, the disk reports and the allocator finds; the allocator is valid and
  -- has page 0 in use.
  pub fblogo-SamePages :
      (sb : Superblock) (d : Disk) (fb : FbInfo) (u : Unset) (filename : List ℕ) (x y : ℕ)
      → (i : Option ℕ) → kfs_find sb filename ≡ some i
      → (r : ℤ × Machine) × (fblogo sb d fb u filename x y s ≡ some r)
        × ((j : ℕ) → test_bit r.1.pmm.bitmap j ≡ test_bit s.pmm.bitmap j)
  unfolding fblogo
  fblogo-SamePages sb d fb u filename x y i found =
      (logo_found sb d fb u i x y s, rw found refl, logo_found-SamePages sb d fb u i x y)
