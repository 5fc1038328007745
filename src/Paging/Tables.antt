-- ===== src/Paging/Tables.antt =====
-- Where the entries of the page tables show, and what a new entry makes of the translation.
use enix.Base.{
  ℕ, ◌+◌, ◌*◌, ◌/◌, ◌%◌, ◌<◌, ◌≡◌, refl, ◌≢◌, ◌∙◌, ap, ◌⊎◌, inl, inr, ◌↔◌, true, false, arith,
  bit_or, bit_or-flags, ◌==◌, u32_mod, done, panicked, Bool-cases,
}
use enix.Memory.{pg_size, Frames, pf_kernel, palloc}
use enix.Paging.{
  Space, pte_ptr, pde_ptr, present, entry_of, write_word, clear_table, addr_v2p, page_table_add,
}

pub pte_ptr_value : (v : ℕ) → v < u32_mod → pte_ptr v ≡ 0xFFC00000 + v / 0x1000 * 4
unfolding pte_ptr
pte_ptr_value v h = omega arith

pub pde_ptr_value : (v : ℕ) → v < u32_mod → pde_ptr v ≡ 0xFFFFF000 + v / 0x400000 * 4
unfolding pde_ptr
pde_ptr_value v h = omega arith

-- The directory is its own last page table: the entry for the page that shows the entry of an address
-- is the address's entry in the directory.
pte_ptr-pte_ptr : (v : ℕ) → v < u32_mod → pte_ptr (pte_ptr v) ≡ pde_ptr v
pte_ptr-pte_ptr v h =
    let below : pte_ptr v < u32_mod = omega (arith, pte_ptr_value v h) in
    omega (arith, pte_ptr_value v h, pde_ptr_value v h, pte_ptr_value (pte_ptr v) below)

-- Two addresses have the same entry exactly if they lie in the same page.
pte_ptr-same_page :
    (v w : ℕ) → v < u32_mod → w < u32_mod → (pte_ptr v ≡ pte_ptr w) ↔ (v / pg_size ≡ w / pg_size)
pte_ptr-same_page v w h k = (
  (λ e. omega (arith, pte_ptr_value v h, pte_ptr_value w k)),
  (λ e. omega (arith, pte_ptr_value v h, pte_ptr_value w k)),
)

entry_of_value : (page flag : ℕ) → page % pg_size ≡ 0 → entry_of page flag ≡ page + flag % 8
entry_of_value page flag aligned =
    let q : page ≡ page / 8 * 8 = omega arith in
    ap (λ x. bit_or x (flag % 8)) q ∙ bit_or-flags (page / 8) (flag % 8) (omega arith) ∙ omega arith

-- A page address with flags in an entry is the page that the address is translated to.
addr_v2p-entry :
    (v page flags : ℕ) (s : Space)
    → page % pg_size ≡ 0
    → page < u32_mod
    → flags < 8
    → s.words (pte_ptr v) ≡ page + flags
    → addr_v2p v s ≡ page + v % pg_size
unfolding addr_v2p
addr_v2p-entry v page flags s aligned small f e = rw e (omega (arith, small, aligned, f))

-- The translation of one address after a step: the page and its offset; the entry is there.
abbrev pub Maps : Space → ℕ → ℕ → Type 0
Maps s v page = (present (s.words (pte_ptr v)) ≡ true) × (addr_v2p v s ≡ page + v % pg_size)

-- All pages but that of `v` have the entries that they had.
abbrev pub SameElsewhere : Space → Space → ℕ → Type 0
SameElsewhere s s' v =
    (w : ℕ) → w < u32_mod → w / pg_size ≢ v / pg_size → s'.words (pte_ptr w) ≡ s.words (pte_ptr w)

module _ (v : ℕ) (h : v < u32_mod) where
  pub write-SameElsewhere : (s : Space) (x : ℕ) → SameElsewhere s (write_word (pte_ptr v) x s) v
  write-SameElsewhere s x w k ne =
      let away : (pte_ptr w == pte_ptr v) ≡ false = ground (arith, (pte_ptr-same_page v w h k).0) in
      rw away refl

  module _ (page flag : ℕ) (aligned : page % pg_size ≡ 0) (small : page < u32_mod) where
    pub entry-Maps :
        (s : Space) → flag % 2 ≡ 1 → Maps (write_word (pte_ptr v) (entry_of page flag) s) v page
    entry-Maps s p =
        let here : (pte_ptr v == pte_ptr v) ≡ true = ground arith in
        let value : (write_word (pte_ptr v) (entry_of page flag) s).words (pte_ptr v)
            ≡ page + flag % 8 =
          rw here (entry_of_value page flag aligned) in
        (
          rw value (ground (arith, p, aligned)),
          addr_v2p-entry v page (flag % 8) (write_word (pte_ptr v) (entry_of page flag) s) aligned
              small (omega arith) value,
        )

    -- page_table_add of a whole page to an address whose page table is there stops the kernel if the
    -- address's page is mapped already. Otherwise the address is translated to the page, and the
    -- entries of all other pages are as before.
    page_table_add-Maps :
        (s : Space)
        → flag % 2 ≡ 1
        → present (s.words (pde_ptr v)) ≡ true
        → ((present (s.words (pte_ptr v)) ≡ true) × (page_table_add v page flag s ≡ panicked))
          ⊎ ((s' : Space) × (page_table_add v page flag s ≡ done s')
              × (present (s.words (pte_ptr v)) ≡ false)
              × Maps s' v page
              × SameElsewhere s s' v)
    unfolding page_table_add
    page_table_add-Maps s p t = elim (Bool-cases (present (s.words (pte_ptr v)))) [
      | inl there ↦ inl (there, rw (t, there) refl)
      | inr new ↦ inr (
        write_word (pte_ptr v) (entry_of page flag) s,
        rw (t, new) refl,
        new,
        entry-Maps s p,
        write-SameElsewhere s (entry_of page flag),
      )
    ]

    -- The state after the directory's entry is written and the new table is cleared.
    abbrev with_table : ℕ → Frames → Space → Space
    with_table pt frames' s =
        clear_table (pte_ptr v)
          (write_word (pde_ptr v) (bit_or pt 7) (record s { frames = frames' }))

    -- page_table_add of a whole page to an address below the tables themselves, whose own table is not
    -- there, takes a kernel page for the table: the directory points to it, the address is translated
    -- to the page, no other page of that table is mapped, and the entries in all other tables are as
    -- before.
    pub page_table_add-new_table :
        (s : Space) (pt : ℕ) (frames' : Frames)
        → flag % 2 ≡ 1
        → v < 0xFFC00000
        → present (s.words (pde_ptr v)) ≡ false
        → palloc pf_kernel s.frames ≡ done (pt, frames')
        → pt % pg_size ≡ 0
        → (s' : Space) × (page_table_add v page flag s ≡ done s')
          × (s'.words (pde_ptr v) ≡ pt + 7)
          × Maps s' v page
          × ((w : ℕ)
              → w < u32_mod
              → w / 0x400000 ≡ v / 0x400000
              → w / pg_size ≢ v / pg_size
              → s'.words (pte_ptr w) ≡ 0)
          × ((w : ℕ)
              → w < 0xFFC00000
              → w / 0x400000 ≢ v / 0x400000
              → s'.words (pte_ptr w) ≡ s.words (pte_ptr w))
    unfolding page_table_add
    page_table_add-new_table s pt frames' p low t run whole =
        let s1 = with_table pt frames' s in
        let own : (pte_ptr v / pg_size == pte_ptr v / pg_size) ≡ true = ground arith in
        let away : (pde_ptr v == pte_ptr v) ≡ false =
          ground (arith, pte_ptr_value v h, pde_ptr_value v h) in
        let behind : (pde_ptr v / pg_size == pte_ptr v / pg_size) ≡ false =
          ground (arith, pte_ptr_value v h, pde_ptr_value v h) in
        let self : (pde_ptr v == pde_ptr v) ≡ true = ground arith in
        let free : present (s1.words (pte_ptr v)) ≡ false = rw own refl in
        (
          write_word (pte_ptr v) (entry_of page flag) s1,
          rw (t, run, own) refl,
          rw (away, behind, self) (entry_of_value pt 7 whole),
          entry-Maps s1 p,
          (λ w k e ne.
              let other : (pte_ptr w == pte_ptr v) ≡ false =
                ground (arith, (pte_ptr-same_page v w h k).0) in
              let same : (pte_ptr w / pg_size == pte_ptr v / pg_size) ≡ true =
                ground (arith, pte_ptr_value v h, pte_ptr_value w k) in
              rw (other, same) refl),
          (λ w k ne.
              let other : (pte_ptr w == pte_ptr v) ≡ false =
                ground (arith, pte_ptr_value v h, pte_ptr_value w (omega arith)) in
              let apart : (pte_ptr w / pg_size == pte_ptr v / pg_size) ≡ false =
                ground (arith, pte_ptr_value v h, pte_ptr_value w (omega arith)) in
              let entry : (pte_ptr w == pde_ptr v) ≡ false =
                ground (arith, pde_ptr_value v h, pte_ptr_value w (omega arith)) in
              rw (other, apart, entry) refl),
        )
