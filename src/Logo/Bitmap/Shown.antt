-- ===== src/Logo/Bitmap/Shown.antt =====
-- `fblogo` on a bitmap of 24 bits a pixel: the picture in the frame.
use system.Common.{
  pos, List, some, ℕ, arith, length, refl, inl, inr, min, ◌%◌, ◌*◌, ◌+◌, ◌-◌, ◌<◌, ◌^◌, ◌≡◌, ◌≤◌,
  ◌⊎◌, ap, false, get_or, if◌then◌else◌, leb, ltb, not, true, ◌&&◌, ◌==◌, ◌||◌, ◌∙◌, ◌≢◌,
}
use system.Ata.{Disk}
use system.Fb.{FbInfo, Memory}
use system.Kfs.{KfsFile, Superblock, kfs_find, no_file}
use system.Logo.{kfs_extension0}
use system.Logo.Bitmap.{
  copy_rows, headers, loop_count, row_size, show, Unset, fblogo, file_read, img_pages, img_size,
  info_read, logo_file, logo_found, pixels_read, show_image, with_headers,
}
use system.Logo.Bitmap.Copy.{Room, copy_rows-inside, copy_rows-outside}
use system.Logo.Bitmap.Stored.{headers-over, kfs_extension0-stored_at}
use system.Pmm.{pmm_alloc, pmm_free}
use system.Uex.{Machine, put_bytes}
use system.Uex.Bytes.{put_bytes_lem}

-- The file's headers, read whole, are those of a bitmap of 24 bits a pixel, and `px` are its pixels,
-- of `h` rows, the lowest row first.
pub record IsBitmap (d : Disk) (f : KfsFile) (fh ih px : List ℕ) (w h : ℕ) : Type 0 where
  pub file_header : kfs_extension0 d f 0 14 ≡ some fh
  pub file_header_whole : length fh ≡ 14
  pub info_header : kfs_extension0 d f 14 40 ≡ some ih
  pub info_header_whole : length ih ≡ 40
  pub is_type : (headers fh ih).bf_type ≡ 0x4D42
  pub is_plain : ((headers fh ih).bi_bit_count ≡ 24) × ((headers fh ih).bi_compression ≡ 0)
  pub width : (headers fh ih).bi_width ≡ w
  pub height : (headers fh ih).bi_height ≡ h
  pub small : (w * 3 + 3 < 2 ^ 31) × (h < 2 ^ 31) × (row_size w * h < 2 ^ 32)
  pub pixels : kfs_extension0 d f (headers fh ih).bf_off_bits (row_size w * h) ≡ some px
  pub pixels_whole : length px ≡ row_size w * h

-- The picture starts in the frame, whose rows fit the pitch at 3 bytes a pixel, and the buffer lies
-- outside of the frame.
pub record Place (fb : FbInfo) (start_x start_y img_buf size : ℕ) : Type 0 where
  pub narrow : (fb.width < 2 ^ 31) × (fb.height < 2 ^ 31)
  pub starts : (start_x ≤ fb.width) × (start_y ≤ fb.height)
  pub fits : fb.width * 3 ≤ fb.pitch
  pub frame : fb.addr + fb.height * fb.pitch ≤ 2 ^ 32
  pub buffer : img_buf + size ≤ 2 ^ 32
  pub away : (fb.addr + fb.height * fb.pitch ≤ img_buf) ⊎ (img_buf + size ≤ fb.addr)

-- The columns and rows that lie in the frame.
abbrev pub columns : FbInfo → (start_x w : ℕ) → ℕ
columns fb start_x w = min w (fb.width - start_x)

abbrev pub lines : FbInfo → (start_y h : ℕ) → ℕ
lines fb start_y h = min h (fb.height - start_y)

row_size_lem : (w : ℕ) → w * 3 + 3 < 2 ^ 32 → (3 * w ≤ row_size w) × (row_size w ≤ w * 3 + 3)
unfolding row_size
row_size_lem w lt = (omega arith, omega arith)

loop_count_lem : (n : ℕ) → n < 2 ^ 31 → loop_count n ≡ n
unfolding loop_count
loop_count_lem n lt = ground arith

rows_below : (a b pitch : ℕ) → a < b → a * pitch + pitch ≤ b * pitch
rows_below a b pitch h = grind arith

module _ (fb : FbInfo) (w h start_x start_y img_buf : ℕ)
    (small : (w * 3 + 3 < 2 ^ 31) × (h < 2 ^ 31) × (row_size w * h < 2 ^ 32))
    (place : Place fb start_x start_y img_buf (row_size w * h)) where
  dst : ℕ
  dst = fb.addr + start_y * fb.pitch + start_x * 3

  show-copy_rows :
      (mem : Memory)
      → show fb w h start_x start_y img_buf mem
        ≡ copy_rows fb.pitch
            (row_size w)
            h
            img_buf
            dst
            (3 * columns fb start_x w)
            (lines fb start_y h)
            0
            mem
  unfolding show dst
  show-copy_rows mem =
      let a : (fb.width + 2 ^ 32 - start_x) % 2 ^ 32 ≡ fb.width - start_x =
        omega (arith, place.narrow, place.starts) in
      let b : (fb.height + 2 ^ 32 - start_y) % 2 ^ 32 ≡ fb.height - start_y =
        omega (arith, place.narrow, place.starts) in
      rw
        (
          a,
          b,
          loop_count_lem w (omega (arith, small)),
          loop_count_lem h (omega (arith, small)),
          loop_count_lem (fb.width - start_x) (omega (arith, place.narrow)),
          loop_count_lem (fb.height - start_y) (omega (arith, place.narrow)),
        )
        refl

  line_at : (y : ℕ) → dst + y * fb.pitch ≡ fb.addr + (start_y + y) * fb.pitch + start_x * 3
  unfolding dst
  line_at y = grind arith

  drawn :
      Room fb.pitch
        (row_size w)
        h
        img_buf
        dst
        (3 * columns fb start_x w)
        (lines fb start_y h)
        (fb.addr + fb.height * fb.pitch)
  unfolding dst
  drawn = record {
    in_pitch = omega (arith, place.fits);
    in_row = omega (arith, row_size_lem w (omega (arith, small)));
    in_image = omega arith;
    row_end = λ y lt.
        (omega (
          arith,
          line_at y,
          rows_below (start_y + y) fb.height fb.pitch (omega arith),
          place.fits,
          place.starts,
        ));
    stops = place.frame;
    buffer = whole;
    away = around place.away;
  }
    where
      commute : h * row_size w ≡ row_size w * h
      commute = grind arith

      whole : img_buf + h * row_size w ≤ 2 ^ 32
      whole = omega (arith, commute, place.buffer)

      around :
          (fb.addr + fb.height * fb.pitch ≤ img_buf) ⊎ (img_buf + row_size w * h ≤ fb.addr)
          → (fb.addr + fb.height * fb.pitch ≤ img_buf)
            ⊎ (img_buf + h * row_size w ≤ fb.addr + start_y * fb.pitch + start_x * 3)
      around (inl a) = inl a
      around (inr a) = inr (omega (arith, commute))

  -- The picture drawn from a buffer.
  show-pixel :
      (mem : Memory) (x y k : ℕ)
      → x < columns fb start_x w
      → y < lines fb start_y h
      → k < 3
      → show fb w h start_x start_y img_buf mem
          (fb.addr + (start_y + y) * fb.pitch + (start_x + x) * 3 + k)
        ≡ mem (img_buf + (h - 1 - y) * row_size w + (3 * x + k))
  unfolding dst
  show-pixel mem x y k hx hy hk =
      let e : fb.addr + (start_y + y) * fb.pitch + (start_x + x) * 3 + k
          ≡ dst + y * fb.pitch + (3 * x + k) =
        omega (arith, line_at y) in
      ap (show fb w h start_x start_y img_buf mem) e
      ∙ ap (λ (m : Memory). m (dst + y * fb.pitch + (3 * x + k))) (show-copy_rows mem)
      ∙ copy_rows-inside fb.pitch (row_size w) h img_buf dst _ _ _ drawn (lines fb start_y h) 0 mem
          y (3 * x + k) (omega arith) (omega arith) (omega arith) (omega arith)

  show-outside :
      (mem : Memory) (p : ℕ)
      → ((y : ℕ)
          → y < lines fb start_y h
          → (p < fb.addr + (start_y + y) * fb.pitch + start_x * 3)
            ⊎ (fb.addr + (start_y + y) * fb.pitch + start_x * 3 + 3 * columns fb start_x w ≤ p))
      → show fb w h start_x start_y img_buf mem p ≡ mem p
  unfolding dst
  show-outside mem p out =
      ap (λ (m : Memory). m p) (show-copy_rows mem)
      ∙ copy_rows-outside fb.pitch (row_size w) h img_buf dst _ _ _ drawn (lines fb start_y h) 0 mem
          p (omega arith) (λ y lo hi. rw (line_at y) (out y (omega arith)))

  img_size_lem : (img_size w h ≡ row_size w * h)
  unfolding img_size
  img_size_lem = omega (arith, small)

-- What the memory holds when the picture is shown: in the frame its pixels, the last row of the file
-- at the top, and every byte outside of the picture and of the buffer as before.
pub record IsShown (fb : FbInfo) (w h start_x start_y img_buf : ℕ) (px : List ℕ) (old new : Memory)
    : Type 0 where
  pub shows :
      (x y k : ℕ)
      → x < columns fb start_x w
      → y < lines fb start_y h
      → k < 3
      → new (fb.addr + (start_y + y) * fb.pitch + (start_x + x) * 3 + k)
        ≡ get_or px ((h - 1 - y) * row_size w + (3 * x + k)) 0
  pub keeps :
      (p : ℕ)
      → (p < img_buf) ⊎ (img_buf + row_size w * h ≤ p)
      → ((y : ℕ)
          → y < lines fb start_y h
          → (p < fb.addr + (start_y + y) * fb.pitch + start_x * 3)
            ⊎ (fb.addr + (start_y + y) * fb.pitch + start_x * 3 + 3 * columns fb start_x w ≤ p))
      → new p ≡ old p

source_below : (h y row : ℕ) → y < h → (h - 1 - y) * row + row ≤ row * h
source_below h y row lt =
    let e : h ≡ (h - 1 - y) + 1 + y = omega arith in
    let m : row * h ≡ row * ((h - 1 - y) + 1 + y) = ap (λ (t : ℕ). row * t) e in grind (arith, m)

show-IsShown :
    (fb : FbInfo) (w h start_x start_y img_buf : ℕ) (px : List ℕ) (mem : Memory)
    → (w * 3 + 3 < 2 ^ 31) × (h < 2 ^ 31) × (row_size w * h < 2 ^ 32)
    → Place fb start_x start_y img_buf (row_size w * h)
    → length px ≡ row_size w * h
    → IsShown fb w h start_x start_y img_buf px mem
        (show fb w h start_x start_y img_buf (put_bytes mem img_buf px))
show-IsShown fb w h start_x start_y img_buf px mem small place len = record {
  shows = λ x y k hx hy hk.
      (show-pixel fb w h start_x start_y img_buf small place _ x y k hx hy hk
        ∙ put_bytes_lem px mem img_buf (img_buf + (h - 1 - y) * row_size w + (3 * x + k)) room
        ∙ in_buffer x y k hx hy hk);
  keeps = λ p buf out.
      (show-outside fb w h start_x start_y img_buf small place _ p out
        ∙ put_bytes_lem px mem img_buf p room
        ∙ ground (arith, buf, len));
}
  where
    room : img_buf + length px ≤ 2 ^ 32
    room = omega (arith, len, place.buffer)

    in_buffer :
        (x y k : ℕ)
        → x < columns fb start_x w
        → y < lines fb start_y h
        → k < 3
        → (if leb img_buf (img_buf + (h - 1 - y) * row_size w + (3 * x + k))
              && ltb (img_buf + (h - 1 - y) * row_size w + (3 * x + k)) (img_buf + length px)
            then get_or px (img_buf + (h - 1 - y) * row_size w + (3 * x + k) - img_buf) 0
            else mem (img_buf + (h - 1 - y) * row_size w + (3 * x + k)))
          ≡ get_or px ((h - 1 - y) * row_size w + (3 * x + k)) 0
    in_buffer x y k hx hy hk =
        let e : img_buf + (h - 1 - y) * row_size w + (3 * x + k) - img_buf
            ≡ (h - 1 - y) * row_size w + (3 * x + k) =
          omega arith in
        rw e (
          ground (
            arith,
            len,
            source_below h y (row_size w) (omega arith),
            row_size_lem w (omega (arith, small)),
          ))

-- A bitmap of 24 bits a pixel that the allocator has room for is shown, and the function returns 0: the
-- part of it that lies in the frame has the pixels of the file, the file's last row at the top, and
-- every byte outside of the picture and of the buffer is as before. The headers and the pixels are read
-- whole, and the picture starts in the frame, whose rows fit the pitch at 3 bytes a pixel.
pub fblogo-IsShown :
    (sb : Superblock) (d : Disk) (fb : FbInfo) (u : Unset) (name : List ℕ) (i : ℕ)
    (fh ih px : List ℕ) (w h start_x start_y : ℕ) (s : Machine)
    → kfs_find sb name ≡ some (some i)
    → IsBitmap d (get_or sb.files i no_file) fh ih px w h
    → (pmm_alloc s.pmm (img_pages w h)).0 ≢ 0
    → Place fb start_x start_y (pmm_alloc s.pmm (img_pages w h)).0 (row_size w * h)
    → (r : Machine) × (fblogo sb d fb u name start_x start_y s ≡ some (pos 0, r))
      × IsShown fb w h start_x start_y (pmm_alloc s.pmm (img_pages w h)).0 px s.memory r.memory
unfolding fblogo logo_found logo_file file_read info_read with_headers show_image pixels_read
fblogo-IsShown sb d fb u name i fh ih px w h start_x start_y s found bm ne place =
    let f = get_or sb.files i no_file in
    let t : ((headers fh ih).bf_type == 0x4D42) ≡ true = ground (arith, bm.is_type) in
    let c : (not ((headers fh ih).bi_bit_count == 24) || not ((headers fh ih).bi_compression == 0))
        ≡ false =
      ground (arith, bm.is_plain) in
    let n : ((pmm_alloc s.pmm (img_pages w h)).0 == 0) ≡ false = ground arith in
    (
      record {
        pmm =
            pmm_free (pmm_alloc s.pmm (img_pages w h)).1 (pmm_alloc s.pmm (img_pages w h)).0
              (img_pages w h);
        memory =
            show fb w h start_x start_y (pmm_alloc s.pmm (img_pages w h)).0
              (put_bytes s.memory (pmm_alloc s.pmm (img_pages w h)).0 px);
      },
      rw
          (
            found,
            bm.file_header,
            bm.info_header,
            headers-over fh ih u.fh u.ih bm.file_header_whole bm.info_header_whole,
            t,
            c,
            bm.width,
            bm.height,
            n,
            img_size_lem fb w h start_x start_y (pmm_alloc s.pmm (img_pages w h)).0 bm.small place,
            bm.pixels,
            kfs_extension0-stored_at d f _ _ px bm.pixels,
          )
          refl,
      show-IsShown fb w h start_x start_y (pmm_alloc s.pmm (img_pages w h)).0 px s.memory bm.small
          place bm.pixels_whole,
    )
