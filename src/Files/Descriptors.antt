-- ===== src/Files/Descriptors.antt =====
-- The free entries of the two tables, and the way from a descriptor to a file.
use enix.Base.{
  ℕ, zero, suc, ◌+◌, ◌^◌, ◌≤◌, ◌<◌, ◌≡◌, refl, ◌⊎◌, inl, inr, Bool, true, false, ◌&&◌, Option, none,
  some, arith, ltb, ◌==◌, if◌then◌else◌, done, Bool-cases, ℕ_discrete, u32_mod, ◌%◌,
}
use enix.Files.{
  File, Opened, is_null, is_free, slot_loop, get_free_slot_in_global, install_loop, pcb_fd_install,
  fd_local2global, set_fd, set_file, seek_from, is_inside, sys_iseek,
}

-- The first index of a range that passes a test.
abbrev pub First : (ℕ → Bool) → ℕ → ℕ → Option ℕ → Type 0
First p from to none = (k : ℕ) → from ≤ k → k < to → p k ≡ false
First p from to (some g) =
    (from ≤ g) × (g < to) × (p g ≡ true) × ((k : ℕ) → from ≤ k → k < g → p k ≡ false)

First-here : (p : ℕ → Bool) (from to : ℕ) → from < to → p from ≡ true → First p from to (some from)
First-here p from to h t = (omega arith, h, t, λ k a b. absurd (omega arith))

First-later :
    (p : ℕ → Bool) (from to : ℕ) (r : Option ℕ)
    → p from ≡ false
    → First p (from + 1) to r
    → First p from to r
First-later p from to none f rest =
    λ k a b. elim (ℕ_discrete k from) [ yes e ↦ rw e f | no ne ↦ rest k (omega arith) b ]
First-later p from to (some g) f (a, b, t, below) = (
  omega arith,
  b,
  t,
  λ k c d. elim (ℕ_discrete k from) [ yes e ↦ rw e f | no ne ↦ below k (omega arith) d ],
)

pub is_free-none : (r : Option ℕ) → is_free r ≡ true → r ≡ none
is_free-none none t = refl
is_free-none (some x) t = absurd (ground arith)

slot_loop-First :
    (left from : ℕ) (table : ℕ → File)
    → First (λ k. is_null (table k)) from (from + left) (slot_loop left from table)
unfolding slot_loop
slot_loop-First zero from table = λ k a b. absurd (omega arith)
slot_loop-First (suc left) from table = elim (Bool-cases (is_null (table from))) [
  | inl t ↦ rw t (First-here (λ k. is_null (table k)) from (from + suc left) (omega arith) t)
  | inr f ↦
      let bound : from + suc left ≡ from + 1 + left = omega arith in
      rw (f, bound)
        (First-later (λ k. is_null (table k)) from (from + 1 + left)
          (slot_loop left (from + 1) table) f (slot_loop-First left (from + 1) table))
]

pub install_loop-First :
    (left from : ℕ) (table : ℕ → Option ℕ)
    → First (λ k. is_free (table k)) from (from + left) (install_loop left from table)
unfolding install_loop
install_loop-First zero from table = λ k a b. absurd (omega arith)
install_loop-First (suc left) from table = elim (Bool-cases (is_free (table from))) [
  | inl t ↦ rw t (First-here (λ k. is_free (table k)) from (from + suc left) (omega arith) t)
  | inr f ↦
      let bound : from + suc left ≡ from + 1 + left = omega arith in
      rw (f, bound)
        (First-later (λ k. is_free (table k)) from (from + 1 + left)
          (install_loop left (from + 1) table) f (install_loop-First left (from + 1) table))
]

-- get_free_slot_in_global returns the first free entry from 3 on, or -1 when entries 3 to 31 are in
-- use.
pub get_free_slot-First :
    (s : Opened) → First (λ k. is_null (s.file_table k)) 3 32 (get_free_slot_in_global s)
unfolding get_free_slot_in_global
get_free_slot-First s = slot_loop-First 29 3 s.file_table

pub fd_local2global-some :
    (fd g : ℕ) (s : Opened) → s.fd_table fd ≡ some g → g < 32 → fd_local2global fd s ≡ done g
unfolding fd_local2global
fd_local2global-some fd g s e h =
    let small : ltb g 32 ≡ true = ground arith in rw (e, fd_local2global, small) refl

pub pcb_fd_install-some :
    (g fd : ℕ) (s : Opened)
    → install_loop 5 3 s.fd_table ≡ some fd
    → pcb_fd_install g s ≡ (set_fd fd (some g) s, some fd)
unfolding pcb_fd_install
pcb_fd_install-some g fd s e = rw (e, pcb_fd_install) refl

pub pcb_fd_install-none :
    (g : ℕ) (s : Opened) → install_loop 5 3 s.fd_table ≡ none → pcb_fd_install g s ≡ (s, none)
unfolding pcb_fd_install
pcb_fd_install-none g s e = rw (e, pcb_fd_install) refl

-- pcb_fd_install puts the index into the first free descriptor from 3 to 7, through which
-- fd_local2global leads back to it, and changes no other; when there is none it changes nothing and
-- returns -1.
pcb_fd_install-First :
    (g : ℕ) (s : Opened)
    → g < 32
    → (((pcb_fd_install g s ≡ (s, none))) × First (λ k. is_free (s.fd_table k)) 3 8 none)
      ⊎ ((fd : ℕ) × (pcb_fd_install g s ≡ (set_fd fd (some g) s, some fd))
          × First (λ k. is_free (s.fd_table k)) 3 8 (some fd)
          × (fd_local2global fd (set_fd fd (some g) s) ≡ done g))
unfolding pcb_fd_install fd_local2global
pcb_fd_install-First g s h =
    go (install_loop 5 3 s.fd_table) refl (install_loop-First 5 3 s.fd_table)
  where
    go :
        (r : Option ℕ)
        → install_loop 5 3 s.fd_table ≡ r
        → First (λ k. is_free (s.fd_table k)) 3 8 r
        → (((pcb_fd_install g s ≡ (s, none))) × First (λ k. is_free (s.fd_table k)) 3 8 none)
          ⊎ ((fd : ℕ) × (pcb_fd_install g s ≡ (set_fd fd (some g) s, some fd))
              × First (λ k. is_free (s.fd_table k)) 3 8 (some fd)
              × (fd_local2global fd (set_fd fd (some g) s) ≡ done g))
    go none e first = inl (rw (e, pcb_fd_install) refl, first)
    go (some fd) e first =
        let here : (if fd == fd then some g else s.fd_table fd) ≡ some g = ground arith in
        inr (
          fd,
          rw (e, pcb_fd_install) refl,
          first,
          fd_local2global-some fd g (set_fd fd (some g) s) here h,
        )

-- The position asked for: SEEK_SET counts from the start of the file, SEEK_CUR from the position,
-- SEEK_END from the end.
abbrev pub IsAsked : ℕ → ℕ → ℕ → ℕ → ℕ → Type 0
IsAsked whence offset fd_pos file_size p =
    ((whence ≡ 1) × (p ≡ offset))
    ⊎ ((whence ≡ 2) × (p ≡ (fd_pos + offset) % u32_mod))
    ⊎ ((whence ≡ 3) × (p ≡ (file_size + offset) % u32_mod))

seek_from-IsAsked :
    (whence offset fd_pos file_size : ℕ)
    → 0 < whence
    → whence < 4
    → IsAsked whence offset fd_pos file_size (seek_from whence offset fd_pos file_size)
seek_from-IsAsked whence offset fd_pos file_size a b = elim (ℕ_discrete whence 1) [
  | yes e ↦ inl (e, ground (arith, e))
  | no n ↦ elim (ℕ_discrete whence 2) [
    | yes e ↦ inr (inl (e, ground (arith, e)))
    | no m ↦ inr (inr (omega arith, ground (arith, n, m)))
  ]
]

-- sys_lseek of an open file of less than 2 ^ 31 bytes with SEEK_SET, SEEK_CUR or SEEK_END moves to the
-- offset from the start, from the position or from the end, as a 32-bit word, exactly if that lies
-- inside the file; otherwise it returns -1 and changes nothing.
pub sys_iseek-inside :
    (fd offset whence g : ℕ) (s : Opened)
    → 0 < whence
    → whence < 4
    → fd_local2global fd s ≡ done g
    → ((s.inodes ((s.file_table g).fd_inode)).i_size) < 2 ^ 31
    → (p : ℕ) × IsAsked whence offset
        ((s.file_table g).fd_pos)
        ((s.inodes ((s.file_table g).fd_inode)).i_size)
        p
      × (((p < (s.inodes ((s.file_table g).fd_inode)).i_size)
            × (sys_iseek fd offset whence s
                ≡ done (set_file g (let f = s.file_table g in record f { fd_pos = p }) s, some p)))
          ⊎ (((s.inodes ((s.file_table g).fd_inode)).i_size ≤ p)
              × (sys_iseek fd offset whence s ≡ done (s, none))))
unfolding sys_iseek
sys_iseek-inside fd offset whence g s a b e small =
    let f = s.file_table g in
    let i = s.inodes f.fd_inode in
    let p = seek_from whence offset f.fd_pos i.i_size in
    let valid : (ltb 0 whence && ltb whence 4) ≡ true = ground arith in
    (
      p,
      seek_from-IsAsked whence offset f.fd_pos i.i_size a b,
      elim (Bool-cases (is_inside p i.i_size)) [
        | inl t ↦ inl (ground (arith, t), rw (valid, e, t) refl)
        | inr n ↦ inr (ground (arith, n, small), rw (valid, e, n) refl)
      ],
    )
