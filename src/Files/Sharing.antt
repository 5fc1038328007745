-- ===== src/Files/Sharing.antt =====
-- Opening and closing a file whose inode is in memory already.
use enix.Base.{
  ℕ, ◌+◌, ◌<◌, ◌≡◌, ◌≢◌, refl, ◌∙◌, inl, inr, true, false, ◌&&◌, none, some, arith, ◌==◌,
  if◌then◌else◌, add32, u32_mod, update, done, Bool-cases, ℕ_discrete, subst, sym,
}
use enix.Inode.{Bytes, Partition}
use enix.Files.{
  Opened, is_null, is_free, get_free_slot_in_global, install_loop, fd_local2global, set_fd,
  set_file, set_inode, find_open, inode_open, writes, claim, file_open, file_close, sys_close,
}
use enix.Files.Closing.{file_close_lem, sys_close-file}
use enix.Files.Descriptors.{
  is_free-none, First, get_free_slot-First, install_loop-First, fd_local2global-some,
  pcb_fd_install-some,
}

module _ (part : Partition) (disk : Bytes) (fresh inode_no flag g fd a : ℕ) (s : Opened)
    (slot : get_free_slot_in_global s ≡ some g) (desc : install_loop 5 3 s.fd_table ≡ some fd)
    (cached : find_open inode_no s.inodes s.open_inodes ≡ some a)
    (room : ((s.inodes a).i_open_cnts) + 1 < u32_mod) where
  -- The inode with one more reader or writer, and the file that has it.
  abbrev pub shared : Opened
  shared = let i = s.inodes a in set_inode a (record i { i_open_cnts = i.i_open_cnts + 1 }) s

  abbrev pub with_file : Opened
  with_file = set_file g (record { fd_pos = 0; fd_flag = flag; fd_inode = a }) shared

  abbrev pub claimed : Opened
  claimed =
      let i = with_file.inodes a in
      if writes flag then set_inode a (record i { write_deny = true }) with_file else with_file

  inode_open_lem : inode_open part disk fresh inode_no s ≡ done (a, shared)
  unfolding inode_open
  inode_open_lem =
      let i = s.inodes a in
      let e : add32 i.i_open_cnts 1 ≡ i.i_open_cnts + 1 = omega (arith, room) in
      rw (cached, inode_open, e) refl

  file_open-claim : file_open part disk fresh inode_no flag s ≡ done (claim g flag a with_file)
  unfolding file_open
  file_open-claim = rw (slot, file_open, inode_open_lem) refl

  same_deny : (with_file.inodes a).write_deny ≡ (s.inodes a).write_deny
  same_deny = let h : (a == a) ≡ true = ground arith in rw h refl

  -- file_open for writing of a file that has a writer returns -1 and installs no descriptor, but the
  -- entry of the table of open files stays in use, and the count of the inode is one more.
  pub file_open-denied :
      writes flag ≡ true
      → (s.inodes a).write_deny ≡ true
      → (s' : Opened) × (file_open part disk fresh inode_no flag s ≡ done (s', none))
        × ((s'.file_table g).fd_inode ≡ a)
        × ((s'.inodes a).i_open_cnts ≡ (s.inodes a).i_open_cnts + 1)
        × (s'.fd_table ≡ s.fd_table)
  unfolding claim
  file_open-denied w d =
      let here : (g == g) ≡ true = ground arith in
      let self : (a == a) ≡ true = ground arith in
      (with_file, file_open-claim ∙ rw (w, same_deny ∙ d) refl, rw here refl, rw self refl, refl)

  pub file_open_lem :
      (writes flag && (s.inodes a).write_deny) ≡ false
      → file_open part disk fresh inode_no flag s ≡ done (set_fd fd (some g) claimed, some fd)
  unfolding claim
  file_open_lem free = file_open-claim ∙ elim (Bool-cases (writes flag)) [
    | inr r ↦ rw (r, pcb_fd_install-some g fd with_file desc) refl
    | inl w ↦
        let d : (with_file.inodes a).write_deny ≡ false = same_deny ∙ ground (arith, free, w) in
        let i = with_file.inodes a in
        rw
          (
            w,
            d,
            pcb_fd_install-some g fd (set_inode a (record i { write_deny = true }) with_file) desc,
          )
          refl
  ]

  abbrev pub opened : Opened
  opened = set_fd fd (some g) claimed

  small_g : g < 32
  small_g = (subst (First (λ k. is_null (s.file_table k)) 3 32) slot (get_free_slot-First s)).1

  free_fd : First (λ k. is_free (s.fd_table k)) 3 8 (some fd)
  free_fd = subst (First (λ k. is_free (s.fd_table k)) 3 8) desc (install_loop-First 5 3 s.fd_table)

  -- The parts of the state that file_open leaves, whether the file is opened for writing or not.
  claimed-parts :
      (claimed.file_table ≡ with_file.file_table)
      × (claimed.fd_table ≡ s.fd_table)
      × (claimed.open_inodes ≡ s.open_inodes)
      × ((claimed.inodes a).i_open_cnts ≡ (s.inodes a).i_open_cnts + 1)
      × ((x : ℕ) → x ≢ a → claimed.inodes x ≡ s.inodes x)
  claimed-parts =
      let self : (a == a) ≡ true = ground arith in
      elim (Bool-cases (writes flag)) [
        | inl w ↦ (
          rw w refl,
          rw w refl,
          rw w refl,
          rw (w, self) refl,
          λ x ne. let other : (x == a) ≡ false = ground arith in rw (w, other) refl,
        )
        | inr r ↦ (
          rw r refl,
          rw r refl,
          rw r refl,
          rw (r, self) refl,
          λ x ne. let other : (x == a) ≡ false = ground arith in rw (r, other) refl,
        )
      ]

  same_file : (k : ℕ) → k ≢ g → claimed.file_table k ≡ s.file_table k
  same_file k ne = let other : (k == g) ≡ false = ground arith in rw (claimed-parts.0, other) refl

  restored : (k : ℕ) → update (update s.fd_table fd (some g)) fd none k ≡ s.fd_table k
  restored k = elim (ℕ_discrete k fd) [
    | yes h ↦
        let here : (fd == fd) ≡ true = ground arith in
        rw (h, here) (sym (is_free-none (s.fd_table fd) free_fd.2))
    | no ne ↦ let other : (k == fd) ≡ false = ground arith in rw other refl
  ]

  -- sys_close of the descriptor that file_open returned, for a file that others have open too, gives
  -- back the descriptor, the entry of the table of open files and the count of users, and changes no
  -- other file or inode and not the list of open inodes; but the inode is left without a writer, also
  -- where one of the others has it open for writing.
  pub file_open-sys_close :
      (writes flag && (s.inodes a).write_deny) ≡ false
      → flag ≢ 0xffff
      → 0 < (s.inodes a).i_open_cnts
      → (file_open part disk fresh inode_no flag s ≡ done (opened, some fd))
        × (s' : Opened) × (sys_close fd opened ≡ done (s', some 0))
        × (s'.open_inodes ≡ s.open_inodes)
        × ((k : ℕ) → s'.fd_table k ≡ s.fd_table k)
        × ((s'.file_table g).fd_inode ≡ 0)
        × ((k : ℕ) → k ≢ g → s'.file_table k ≡ s.file_table k)
        × ((s'.inodes a).i_open_cnts ≡ (s.inodes a).i_open_cnts)
        × ((s'.inodes a).write_deny ≡ false)
        × ((x : ℕ) → x ≢ a → s'.inodes x ≡ s.inodes x)
  file_open-sys_close free file others =
      let parts = claimed-parts in
      let here : (g == g) ≡ true = ground arith in
      let self : (fd == fd) ≡ true = ground arith in
      let f : (claimed.file_table g) ≡ record { fd_pos = 0; fd_flag = flag; fd_inode = a } =
        rw (parts.0, here) refl in
      let points : (claimed.file_table g).fd_inode ≡ a = rw f refl in
      let c = file_close_lem opened g a ((s.inodes a).i_open_cnts) points parts.3 others room in
      let pipe : ((claimed.file_table g).fd_flag == 0xffff) ≡ false = rw f (ground arith) in
      let to_g : fd_local2global fd opened ≡ done g =
        fd_local2global-some fd g opened (rw self refl) small_g in
      (
        file_open_lem free,
        set_fd fd none (file_close g opened),
        sys_close-file fd g opened (omega (arith, free_fd)) to_g pipe,
        c.0 ∙ parts.2,
        (λ k. rw (c.1, parts.1) (restored k)),
        c.2,
        (λ k ne. c.3 k ne ∙ same_file k ne),
        c.4,
        c.5,
        λ x ne. c.6 x ne ∙ parts.4 x ne,
      )
