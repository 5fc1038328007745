-- ===== src/Tests/Paging.antt =====
-- The page tables of kernel/memory.c in a space where one table is there.
use enix.Base.{ℕ, ◌^◌, ◌≡◌, ◌≢◌, refl, ◌<◌, ◌/◌, true, false, if◌then◌else◌, ◌==◌, done, arith}
use enix.Paging.{Space, pte_ptr, pde_ptr, present, page_table_add}
use enix.Paging.Tables.{Maps, page_table_add-new_table}
use enix.Tests.Memories.{two_pools, one_more, palloc_test}

-- The directory has an entry for 0x400000, and 0x400000 is mapped to 0x300000.
abbrev one_table : Space
one_table = record {
  frames = two_pools;
  words = λ a. if a == 0xFFFFF004 then 0x202007 else (if a == 0xFFC01000 then 0x300007 else 0);
}

table : present (one_table.words (pde_ptr 0x401000)) ≡ true
unfolding pde_ptr
table = refl

no_table : present (one_table.words (pde_ptr 0x800000)) ≡ false
unfolding pde_ptr
no_table = refl

page_table_add-new_table_example :
    (s' : Space) × (page_table_add 0x800000 0x301000 7 one_table ≡ done s')
    × (s'.words (pde_ptr 0x800000) ≡ 0x202007)
    × Maps s' 0x800000 0x301000
    × ((w : ℕ) → w < 2 ^ 32 → w / 0x400000 ≡ 2 → w / 4096 ≢ 0x800 → s'.words (pte_ptr w) ≡ 0)
    × ((w : ℕ)
        → w < 0xFFC00000
        → w / 0x400000 ≢ 2
        → s'.words (pte_ptr w) ≡ one_table.words (pte_ptr w))
page_table_add-new_table_example =
    page_table_add-new_table 0x800000 (omega arith) 0x301000 7 (omega arith) (omega arith) one_table
      0x202000 one_more (omega arith) (omega arith) no_table palloc_test (omega arith)
