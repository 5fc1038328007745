-- ===== src/Paging.antt =====
-- kernel/memory.c: page table entries, seen through the page directory's entry for itself.
--
-- `words` holds the 32-bit word at each virtual address from 0xFFC00000 on, where the page tables show.
-- A mask with ones from bit n up is written as division by 2 ^ n. The reload of the TLB is left out.
pub mod Tables
pub mod Changes
use enix.Base.{
  ℕ, ◌+◌, ◌-◌, ◌*◌, ◌/◌, ◌%◌, Bool, true, false, not, ◌&&◌, Option, none, some, bit_or, ltb, leb,
  ◌==◌, if◌then◌else◌, add32, update, Run, done, ◌>>=◌, ◌>>◌, assert,
}
use enix.Memory.{pg_size, Frames, PoolFlags, pf_kernel, palloc}

pub record Space : Type 0 where
  pub frames : Frames
  pub words : ℕ → ℕ

-- PDE_IDX(addr) and PTE_IDX(addr)
abbrev pub pde_idx : ℕ → ℕ
pde_idx addr = addr / 0x400000

abbrev pub pte_idx : ℕ → ℕ
pte_idx addr = addr / 0x1000 % 1024

-- 0xFFC00000 + ((vaddr & 0xFFC00000) >> 10) + PTE_IDX(vaddr) * 4
unfoldable pub pte_ptr : ℕ → ℕ
pte_ptr vaddr = add32 (add32 0xFFC00000 (vaddr / 0x400000 * 0x400000 / 1024)) (pte_idx vaddr * 4)

unfoldable pub pde_ptr : ℕ → ℕ
pde_ptr vaddr = add32 0xFFFFF000 (pde_idx vaddr * 4)

-- The entry's bit 0: PG_P_1.
abbrev pub present : ℕ → Bool
present entry = entry % 2 == 1

-- page_phyaddr | (pte_flag & 0x07)
abbrev pub entry_of : ℕ → ℕ → ℕ
entry_of page_phyaddr pte_flag = bit_or page_phyaddr (pte_flag % 8)

abbrev pub write_word : ℕ → ℕ → Space → Space
write_word a w s = record s { words = update s.words a w }

-- memset((void *)((int)p_addr & 0xFFFFF000), 0, PG_SIZE)
abbrev pub clear_table : ℕ → Space → Space
clear_table p_addr s = record s {
  words = λ a. if a / pg_size == p_addr / pg_size then 0 else s.words a;
}

unfoldable pub addr_v2p : ℕ → Space → ℕ
addr_v2p vaddr s = add32 (s.words (pte_ptr vaddr) / 0x1000 * 0x1000) (vaddr % 0x1000)

-- Both branches of page_table_add end so: the entry must not be there yet.
unfoldable pub add_entry : ℕ → ℕ → ℕ → Space → Run Space
add_entry vaddr page_phyaddr pte_flag s = do
  assert (not (present (s.words (pte_ptr vaddr))))
  done (write_word (pte_ptr vaddr) (entry_of page_phyaddr pte_flag) s)

-- A new page table for the directory's entry; a NULL of palloc is not looked for.
unfoldable pub add_table : ℕ → Space → Run Space
add_table vaddr s = do
  (pt_phyaddr, frames') ← palloc pf_kernel s.frames
  done (
      clear_table (pte_ptr vaddr)
        (write_word (pde_ptr vaddr) (bit_or pt_phyaddr 7) (record s { frames = frames' })))

unfoldable pub page_table_add : ℕ → ℕ → ℕ → Space → Run Space
unfolding add_entry add_table
page_table_add vaddr page_phyaddr pte_flag s =
    if present (s.words (pde_ptr vaddr))
    then add_entry vaddr page_phyaddr pte_flag s
    else (add_table vaddr s >>= add_entry vaddr page_phyaddr pte_flag)

-- Modify_PTE
unfoldable pub modify_pte : ℕ → ℕ → ℕ → Space → Run Space
modify_pte _vaddr page_phyaddr pte_flag s =
    let vaddr = _vaddr / 0x1000 * 0x1000 in
    do
      assert (present (s.words (pde_ptr vaddr)))
      assert (present (s.words (pte_ptr vaddr)))
      done (write_word (pte_ptr vaddr) (entry_of page_phyaddr pte_flag) s)

-- *pte &= ~PG_P_1
unfoldable pub page_table_pte_remove : ℕ → Space → Space
page_table_pte_remove vaddr s = write_word (pte_ptr vaddr) (s.words (pte_ptr vaddr) / 2 * 2) s
