-- ===== src/Pipe/Making.antt =====
-- A pipe from sys_pipe to the sys_close of its two descriptors.
use enix.Base.{
  ℕ, ◌==◌, ◌≡◌, ◌≢◌, ◌<◌, refl, ◌∙◌, sym, subst, true, false, none, some, [], ◌∷◌, arith, update,
  done, ℕ_discrete,
}
use enix.Files.{
  Opened, is_null, is_free, set_fd, set_file, get_free_slot_in_global, install_loop,
  fd_local2global, close_pipe, sys_close,
}
use enix.Files.Descriptors.{
  is_free-none, First, get_free_slot-First, install_loop-First, fd_local2global-some,
  pcb_fd_install-some, pcb_fd_install-none,
}
use enix.Files.Closing.{sys_close-pipe}
use enix.IoQueue.{ioq_length, ioqueue_init}
use enix.IoQueue.Ring.{contents}
use enix.Pipe.{Pipes, made, new_pipe, install_both, sys_pipe}

module _ (page g a b : ℕ) (s : Pipes) (slot : get_free_slot_in_global s.files ≡ some g)
    (first : install_loop 5 3 s.files.fd_table ≡ some a)
    (second : install_loop 5 3 (update s.files.fd_table a (some g)) ≡ some b) where
  abbrev pub both : Opened
  both = set_fd b (some g) (set_fd a (some g) (new_pipe g page s).files)

  abbrev pub piped : Pipes
  piped = let p = new_pipe g page s in record p { files = both }

  small_g : g < 32
  small_g =
      (subst (First (λ k. is_null (s.files.file_table k)) 3 32) slot
        (get_free_slot-First s.files)).1

  free_a : First (λ k. is_free (s.files.fd_table k)) 3 8 (some a)
  free_a =
      subst (First (λ k. is_free (s.files.fd_table k)) 3 8) first
        (install_loop-First 5 3 s.files.fd_table)

  free_b : First (λ k. is_free (update s.files.fd_table a (some g) k)) 3 8 (some b)
  free_b =
      subst (First (λ k. is_free (update s.files.fd_table a (some g) k)) 3 8) second
        (install_loop-First 5 3 (update s.files.fd_table a (some g)))

  different : b ≢ a
  different e =
      let h : is_free (update s.files.fd_table a (some g) a) ≡ true =
        subst (λ k. is_free (update s.files.fd_table a (some g) k) ≡ true) e free_b.2 in
      let here : (a == a) ≡ true = ground arith in
      let taken : is_free (update s.files.fd_table a (some g) a) ≡ false = rw here refl in
      ground (arith, h, taken)

  -- The two descriptors in between.
  abbrev pub one_left : Opened
  one_left =
      set_fd a none (set_file g (record { fd_pos = 1; fd_flag = 0xffff; fd_inode = page }) both)

  sys_pipe_lem : page ≢ 0 → sys_pipe page s ≡ made (some a) (some b) piped
  unfolding sys_pipe install_both
  sys_pipe_lem ne =
      let some_page : (page == 0) ≡ false = ground arith in
      let p = new_pipe g page s in
      rw
        (
          slot,
          sys_pipe,
          some_page,
          pcb_fd_install-some g a p.files first,
          pcb_fd_install-some g b (set_fd a (some g) p.files) second,
        )
        refl

  a-leads : fd_local2global a both ≡ done g
  a-leads =
      let other : (a == b) ≡ false = ground (arith, different) in
      let here : (a == a) ≡ true = ground arith in
      fd_local2global-some a g both (rw (other, here) refl) small_g

  b-leads : fd_local2global b both ≡ done g
  b-leads =
      let here : (b == b) ≡ true = ground arith in
      fd_local2global-some b g both (rw here refl) small_g

  b-leads_still : fd_local2global b one_left ≡ done g
  b-leads_still =
      let other : (b == a) ≡ false = ground (arith, different) in
      let here : (b == b) ≡ true = ground arith in
      fd_local2global-some b g one_left (rw (other, here) refl) small_g

  a-closed :
      close_pipe g both ≡ set_file g (record { fd_pos = 1; fd_flag = 0xffff; fd_inode = page }) both
  unfolding close_pipe
  a-closed = let here : (g == g) ≡ true = ground arith in rw here refl

  b-closed :
      close_pipe g one_left
      ≡ set_file g
          (record { fd_pos = 0; fd_flag = 0xffff; fd_inode = 0 })
          (record one_left { freed_pages = page ∷ s.files.freed_pages })
  unfolding close_pipe
  b-closed = let here : (g == g) ≡ true = ground arith in rw here refl

  abbrev pub none_left : Opened
  none_left = set_fd b none (
      set_file g (record { fd_pos = 0; fd_flag = 0xffff; fd_inode = 0 })
        (record one_left { freed_pages = page ∷ s.files.freed_pages }))

  restored : (k : ℕ) → none_left.fd_table k ≡ s.files.fd_table k
  restored k = elim (ℕ_discrete k b) [
    | yes e ↦
        let here : (b == b) ≡ true = ground arith in
        let other : (b == a) ≡ false = ground (arith, different) in
        let was : is_free (s.files.fd_table b) ≡ true =
          subst (λ x. is_free x ≡ true) (rw other refl) free_b.2 in
        rw (e, here) (sym (is_free-none (s.files.fd_table b) was))
    | no nb ↦ elim (ℕ_discrete k a) [
      | yes e ↦
          let here : (a == a) ≡ true = ground arith in
          let other : (a == b) ≡ false = ground (arith, different) in
          rw (e, here, other) (sym (is_free-none (s.files.fd_table a) free_a.2))
      | no na ↦
          let f : (k == a) ≡ false = ground arith in
          let h : (k == b) ≡ false = ground arith in rw (f, h) refl
    ]
  ]

  -- With a free entry, a page and two free descriptors, sys_pipe returns two different descriptors of
  -- one empty ring. sys_close of the first leaves the ring to the second and frees no page, and then
  -- sys_close of the second gives the ring's page to mfree_page, frees the entry and leaves the
  -- descriptors, all other entries and the inodes as they were.
  pub sys_pipe-sys_close :
      page ≢ 0
      → (a ≢ b)
        × (sys_pipe page s ≡ made (some a) (some b) piped)
        × (contents (piped.rings page) ≡ [])
        × (fd_local2global a both ≡ done g)
        × (fd_local2global b both ≡ done g)
        × ((both.file_table g).fd_inode ≡ page)
        × (s1 : Opened) × (sys_close a both ≡ done (s1, some 0))
        × (fd_local2global b s1 ≡ done g)
        × ((s1.file_table g).fd_inode ≡ page)
        × (s1.freed_pages ≡ s.files.freed_pages)
        × (s2 : Opened) × (sys_close b s1 ≡ done (s2, some 0))
        × ((s2.file_table g).fd_inode ≡ 0)
        × ((k : ℕ) → s2.fd_table k ≡ s.files.fd_table k)
        × ((k : ℕ) → k ≢ g → s2.file_table k ≡ s.files.file_table k)
        × (s2.inodes ≡ s.files.inodes)
        × (s2.freed_pages ≡ page ∷ s.files.freed_pages)
  unfolding ioqueue_init ioq_length
  sys_pipe-sys_close ne =
      let here : (g == g) ≡ true = ground arith in
      let own : (page == page) ≡ true = ground arith in
      (
        (λ e. different (sym e)),
        sys_pipe_lem ne,
        rw own refl,
        a-leads,
        b-leads,
        rw here refl,
        one_left,
        sys_close-pipe a g both (omega (arith, free_a)) a-leads (rw here refl) ∙ rw a-closed refl,
        b-leads_still,
        rw here refl,
        refl,
        none_left,
        sys_close-pipe b g one_left (omega (arith, free_b)) b-leads_still (rw here refl)
            ∙ rw b-closed refl,
        rw here refl,
        restored,
        (λ k nk. let other : (k == g) ≡ false = ground arith in rw other refl),
        refl,
        refl,
      )

-- When one descriptor alone is free, sys_pipe returns success all the same, with -1 as the second end,
-- and the pipe counts two descriptors.
sys_pipe-one_end :
    (page g a : ℕ) (s : Pipes)
    → get_free_slot_in_global s.files ≡ some g
    → page ≢ 0
    → install_loop 5 3 s.files.fd_table ≡ some a
    → install_loop 5 3 (update s.files.fd_table a (some g)) ≡ none
    → (s' : Pipes) × (sys_pipe page s ≡ made (some a) none s')
      × (fd_local2global a s'.files ≡ done g)
      × ((s'.files.file_table g).fd_pos ≡ 2)
unfolding sys_pipe install_both
sys_pipe-one_end page g a s slot ne first second =
    let some_page : (page == 0) ≡ false = ground arith in
    let here : (g == g) ≡ true = ground arith in
    let self : (a == a) ≡ true = ground arith in
    let small =
      (subst (First (λ k. is_null (s.files.file_table k)) 3 32) slot
        (get_free_slot-First s.files)).1 in
    let p = new_pipe g page s in
    let files = set_fd a (some g) p.files in
    (
      record p { files = files },
      rw
          (
            slot,
            sys_pipe,
            some_page,
            pcb_fd_install-some g a p.files first,
            pcb_fd_install-none g files second,
          )
          refl,
      fd_local2global-some a g files (rw self refl) small,
      rw here refl,
    )
