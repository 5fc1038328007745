-- ===== src/Paging/Changes.antt =====
-- New flags for a mapped page, and the end of a mapping.
use enix.Base.{
  ℕ, ◌*◌, ◌/◌, ◌%◌, ◌<◌, ◌≡◌, refl, ◌⊎◌, inl, inr, true, false, ◌&&◌, arith, ◌==◌, u32_mod, done,
  panicked, Bool-cases,
}
use enix.Memory.{pg_size}
use enix.Paging.{
  Space, pte_ptr, pde_ptr, present, entry_of, write_word, addr_v2p, modify_pte,
  page_table_pte_remove,
}
use enix.Paging.Tables.{
  Maps, SameElsewhere, pte_ptr_value, pde_ptr_value, write-SameElsewhere, entry-Maps,
}

-- Modify_PTE of any address in a page stops the kernel if the page or its table is not there.
-- Otherwise the address is translated to the given page, and all other entries are as before.
modify_pte-Maps :
    (v page flag : ℕ) (s : Space)
    → v < u32_mod
    → page % pg_size ≡ 0
    → page < u32_mod
    → flag % 2 ≡ 1
    → (((present (s.words (pde_ptr v)) && present (s.words (pte_ptr v))) ≡ false)
        × (modify_pte v page flag s ≡ panicked))
      ⊎ ((s' : Space) × (modify_pte v page flag s ≡ done s')
          × (present (s.words (pte_ptr v)) ≡ true)
          × Maps s' v page
          × SameElsewhere s s' v)
unfolding modify_pte
modify_pte-Maps v page flag s h aligned small odd =
    elim (Bool-cases (present (s.words (pde_ptr v)))) [
      | inr no_table ↦ inl (rw no_table refl, rw (table, no_table) refl)
      | inl table_there ↦ elim (Bool-cases (present (s.words (pte_ptr v)))) [
        | inr no_page ↦
            inl (rw (table_there, no_page) refl, rw (table, table_there, entry, no_page) refl)
        | inl there ↦ inr (
          write_word (pte_ptr v) (entry_of page flag) s,
          rw (table, table_there, entry, there) refl,
          there,
          entry-Maps v h page flag aligned small s odd,
          write-SameElsewhere v h s (entry_of page flag),
        )
      ]
    ]
  where
    table : pde_ptr (v / 0x1000 * 0x1000) ≡ pde_ptr v
    table = omega (arith, pde_ptr_value v h, pde_ptr_value (v / 0x1000 * 0x1000) (omega arith))

    entry : pte_ptr (v / 0x1000 * 0x1000) ≡ pte_ptr v
    entry = omega (arith, pte_ptr_value v h, pte_ptr_value (v / 0x1000 * 0x1000) (omega arith))

-- page_table_pte_remove takes the mapping of the address's page away, leaves the page address in the
-- entry, and all other entries are as before.
page_table_pte_remove_lem :
    (v : ℕ) (s : Space)
    → v < u32_mod
    → (present ((page_table_pte_remove v s).words (pte_ptr v)) ≡ false)
      × (addr_v2p v (page_table_pte_remove v s) ≡ addr_v2p v s)
      × SameElsewhere s (page_table_pte_remove v s) v
unfolding page_table_pte_remove addr_v2p
page_table_pte_remove_lem v s h =
    let self : (pte_ptr v == pte_ptr v) ≡ true = ground arith in
    (
      rw self (ground arith),
      rw self (omega arith),
      write-SameElsewhere v h s (s.words (pte_ptr v) / 2 * 2),
    )
