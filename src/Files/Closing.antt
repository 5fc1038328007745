-- ===== src/Files/Closing.antt =====
-- Closing one of several users of an inode.
use enix.Base.{
  ℕ, ◌+◌, ◌<◌, ◌≡◌, ◌≢◌, refl, true, false, none, some, arith, ltb, ◌==◌, sub32, u32_mod, done,
}
use enix.Files.{
  Opened, set_fd, set_file, set_inode, inode_close, file_close, fd_local2global, is_pipe,
  close_pipe, close_fd, sys_close,
}

module _ (s : Opened) (g a count : ℕ) (points : (s.file_table g).fd_inode ≡ a)
    (users : (s.inodes a).i_open_cnts ≡ count + 1) (others : 0 < count)
    (small : count + 1 < u32_mod) where
  -- The inode after it: one user less, and no writer.
  abbrev pub left : Opened
  left =
      let i = s.inodes a in
      let f = s.file_table g in
      set_file g (record f { fd_inode = 0 })
        (set_inode a (record i { write_deny = false; i_open_cnts = count }) s)

  -- file_close of a file whose inode has more users frees the entry of the table and leaves the inode
  -- in memory with one user less; it clears write_deny whoever has set it.
  pub file_close_lem :
      ((file_close g s).open_inodes ≡ s.open_inodes)
      × ((file_close g s).fd_table ≡ s.fd_table)
      × (((file_close g s).file_table g).fd_inode ≡ 0)
      × ((k : ℕ) → k ≢ g → (file_close g s).file_table k ≡ s.file_table k)
      × (((file_close g s).inodes a).i_open_cnts ≡ count)
      × (((file_close g s).inodes a).write_deny ≡ false)
      × ((x : ℕ) → x ≢ a → (file_close g s).inodes x ≡ s.inodes x)
  unfolding file_close inode_close
  file_close_lem =
      let self : (a == a) ≡ true = ground arith in
      let here : (g == g) ≡ true = ground arith in
      let one_less : sub32 (count + 1) 1 ≡ count = omega arith in
      let remain : (count == 0) ≡ false = ground arith in
      (
        rw (points, self, users, one_less, remain) refl,
        rw (points, self, users, one_less, remain) refl,
        rw here refl,
        (λ k ne.
            let other : (k == g) ≡ false = ground arith in
            rw (points, self, users, one_less, remain, other) refl),
        rw (points, self, users, one_less, remain, self) refl,
        rw (points, self, users, one_less, remain, self) refl,
        λ x ne.
            let other : (x == a) ≡ false = ground arith in
            rw (points, self, users, one_less, remain, other) refl,
      )

pub sys_close-file :
    (fd g : ℕ) (s : Opened)
    → 2 < fd
    → fd_local2global fd s ≡ done g
    → ((s.file_table g).fd_flag == 0xffff) ≡ false
    → sys_close fd s ≡ done (set_fd fd none (file_close g s), some 0)
unfolding sys_close close_fd is_pipe
sys_close-file fd g s h e file = let v : ltb 2 fd ≡ true = ground arith in rw (v, e, file) refl

pub sys_close-pipe :
    (fd g : ℕ) (s : Opened)
    → 2 < fd
    → fd_local2global fd s ≡ done g
    → ((s.file_table g).fd_flag == 0xffff) ≡ true
    → sys_close fd s ≡ done (set_fd fd none (close_pipe g s), some 0)
unfolding sys_close close_fd is_pipe
sys_close-pipe fd g s h e pipe = let v : ltb 2 fd ≡ true = ground arith in rw (v, e, pipe) refl
