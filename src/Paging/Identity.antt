-- ===== src/Paging/Identity.antt =====
-- What the tables map.
use native.Mathlib.Decide.{dec_lt}
use system.Common.{
  Option, arith, bit_or-apart, false, get_or, get_or-replicate, if◌then◌else◌, ltb, none, refl,
  some, suc, true, zero, ℕ, ◌%◌, ◌*◌, ◌+◌, ◌-◌, ◌/◌, ◌<◌, ◌==◌, ◌^◌, ◌∙◌, ◌≡◌,
}
use system.Paging.{Paging, ftb_at, paging_init, table_entries}

-- The walk of the processor: the entry of the directory, the entry of the table, and the byte in the
-- page. The table is known only at its own address. `none` is a page fault.
abbrev pub page_of : (entry virt : ℕ) → Option ℕ
page_of entry virt = if entry % 2 == 0 then none else some (entry / 4096 * 4096 + virt % 4096)

abbrev pub walk : Paging → (virt : ℕ) → Option ℕ
walk p virt =
    let pde = get_or p.pagedir (virt / 2 ^ 22) 0 in
    let pte = get_or p.ftb (virt / 4096 % 1024) 0 in
    if pde % 2 == 0 then none else if pde / 4096 * 4096 == ftb_at then page_of pte virt else none

table_entries_lem : (n i k : ℕ) → k < n → get_or (table_entries n i) k 0 ≡ (i + k) * 4096 + 3
unfolding table_entries
table_entries_lem zero i k lt = absurd (omega arith)
table_entries_lem (suc n) i zero lt = bit_or-apart 12 i 3 (omega arith) ∙ omega arith
table_entries_lem (suc n) i (suc k) lt = table_entries_lem n (i + 1) k (omega arith) ∙ omega arith

-- After `paging_init` each of the first 4 MB is mapped to itself, and every other address faults.
pub paging_init-Identity :
    (p : Paging) (virt : ℕ)
    → virt < 2 ^ 32
    → walk (paging_init p) virt ≡ (if ltb virt (2 ^ 22) then some virt else none)
unfolding paging_init
paging_init-Identity p virt lt = elim (dec_lt virt (2 ^ 22)) [
  | yes low ↦
      let z : virt / 2 ^ 22 ≡ 0 = omega arith in
      let q : virt / 4096 % 1024 ≡ virt / 4096 = omega arith in
      let e : get_or (table_entries 1024 0) (virt / 4096) 0 ≡ virt / 4096 * 4096 + 3 =
        table_entries_lem 1024 0 (virt / 4096) (omega arith) ∙ omega arith in
      let t : ltb virt (2 ^ 22) ≡ true = ground arith in rw (z, q, e, t) (mapped virt)
  | no high ↦
      let s : virt / 2 ^ 22 ≡ suc (virt / 2 ^ 22 - 1) = omega arith in
      let f : ltb virt (2 ^ 22) ≡ false = ground arith in
      rw (s, f, get_or-replicate {A = ℕ} 1023 (virt / 2 ^ 22 - 1) 0 0 (omega arith)) refl
]
  where
    mapped : (v : ℕ) → page_of (v / 4096 * 4096 + 3) v ≡ some v
    mapped v =
        let odd : ((v / 4096 * 4096 + 3) % 2 == 0) ≡ false = ground arith in
        let e : (v / 4096 * 4096 + 3) / 4096 * 4096 + v % 4096 ≡ v = omega arith in rw (odd, e) refl
