-- ===== src/Paging.antt =====
-- kernel/mm/paging.c, which the Makefile leaves out of the build: the page directory, the one page table,
-- and the processor's two registers.
pub mod Identity
use system.Common.{List, [], ◌∷◌, bit_or, replicate, suc, zero, ℕ, ◌*◌, ◌+◌}

-- The addresses of the directory and of the table.
abbrev pub pagedir_at : ℕ
pagedir_at = 0x9C000

abbrev pub ftb_at : ℕ
ftb_at = 0x9D000

pub record Paging : Type 0 where
  pub pagedir : List ℕ
  pub ftb : List ℕ
  pub cr3 : ℕ
  pub cr0 : ℕ

-- The first loop, `n` entries from entry `i` on.
pub table_entries : (n i : ℕ) → List ℕ
table_entries zero i = []
table_entries (suc n) i = bit_or (i * 0x1000) 3 ∷ table_entries n (i + 1)

-- The arrays are written whole; of the registers `cr0` keeps its other bits.
pub paging_init : Paging → Paging
paging_init p = record {
  pagedir = bit_or ftb_at 3 ∷ replicate 1023 0;
  ftb = table_entries 1024 0;
  cr3 = pagedir_at;
  cr0 = bit_or p.cr0 0x80000000;
}
