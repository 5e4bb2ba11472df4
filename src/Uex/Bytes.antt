-- ===== src/Uex/Bytes.antt =====
-- Bytes that are stored, and the bytes of good sectors.
use native.Mathlib.Decide.{dec_lt, ℕ_discrete}
use system.Common.{
  List, some, [], ap, arith, false, get_or, if◌then◌else◌, leb, length, length-append, ltb, refl,
  suc, zero, ℕ, ◌%◌, ◌&&◌, ◌*◌, ◌++◌, ◌+◌, ◌-◌, ◌/◌, ◌<◌, ◌==◌, ◌^◌, ◌∙◌, ◌∷◌, ◌≡◌, ◌≤◌,
  get_or-append-left, get_or-append-right,
}
use system.Ata.{Disk, read_loop}
use system.Ata.Sectors.{Good, Good-suc, byte_of}
use system.Uex.{put_bytes, transferred}

-- Bytes that end below the top of the address space.
pub put_bytes_lem :
    (bytes : List ℕ) (memory : ℕ → ℕ) (dest b : ℕ)
    → dest + length bytes ≤ 2 ^ 32
    → put_bytes memory dest bytes b
      ≡ (if leb dest b && ltb b (dest + length bytes) then get_or bytes (b - dest) 0 else memory b)
unfolding put_bytes
put_bytes_lem [] memory dest b h = ground arith
put_bytes_lem (c ∷ cs) memory dest b h =
    put_bytes_lem cs (λ b. if b == dest % 2 ^ 32 then c else memory b) (dest + 1) b (omega arith)
    ∙ elim (dec_lt dest b) [
      | yes p ↦
          let e : b - dest ≡ suc (b - (dest + 1)) = omega arith in
          let t : dest % 2 ^ 32 ≡ dest = omega arith in rw (e, t) (ground arith)
      | no np ↦ elim (ℕ_discrete b dest) [
        | yes e ↦
            let z : dest - dest ≡ 0 = omega arith in
            let t : dest % 2 ^ 32 ≡ dest = omega arith in rw (e, z, t) (ground arith)
        | no ne ↦ let t : dest % 2 ^ 32 ≡ dest = omega arith in rw t (ground arith)
      ]
    ]

pub record Bytes (d : Disk) (n a : ℕ) : Type 0 where
  pub read : read_loop d n a ≡ some (transferred d n a)
  pub count : length (transferred d n a) ≡ 512 * n
  pub bytes : (i : ℕ) → i < 512 * n → get_or (transferred d n a) i 0 ≡ byte_of d a i

pub transferred-Bytes : (d : Disk) (n a : ℕ) → Good d a n → Bytes d n a
unfolding transferred read_loop
transferred-Bytes d zero a g = record {
  read = refl;
  count = omega arith;
  bytes = λ i lt. absurd (omega arith);
}
transferred-Bytes d (suc n) a g =
    let e : a + 0 ≡ a = omega arith in
    let ok : d.bad a ≡ false = rw e at (g.good 0 (omega arith)) in
    let len : length (d.sector a) ≡ 512 = rw e at (g.whole 0 (omega arith)) in
    let r = transferred-Bytes d n (a + 1) (Good-suc d a n g) in
    record {
      read = rw (ok, r.read);
      count =
          rw ok
            (length-append (d.sector a) (transferred d n (a + 1)) ∙ omega (arith, len, r.count));
      bytes = λ i lt. rw ok (at_byte len r i lt);
    }
  where
    at_byte :
        length (d.sector a) ≡ 512
        → Bytes d n (a + 1)
        → (i : ℕ) → i < 512 * suc n
        → get_or (d.sector a ++ transferred d n (a + 1)) i 0 ≡ byte_of d a i
    at_byte len r i lt = elim (dec_lt i 512) [
      | yes p ↦
          let q : a + i / 512 ≡ a = omega arith in
          let m : i % 512 ≡ i = omega arith in
          get_or-append-left (d.sector a) (transferred d n (a + 1)) i 0 (omega (arith, len))
          ∙ rw (q, m)
      | no np ↦
          let split : i ≡ length (d.sector a) + (i - 512) = omega (arith, len) in
          let q : a + i / 512 ≡ a + 1 + (i - 512) / 512 = omega arith in
          let m : i % 512 ≡ (i - 512) % 512 = omega arith in
          ap (λ j. get_or (d.sector a ++ transferred d n (a + 1)) j 0) split
          ∙ get_or-append-right (d.sector a) (transferred d n (a + 1)) (i - 512) 0
          ∙ r.bytes (i - 512) (omega arith)
          ∙ rw (q, m)
    ]
