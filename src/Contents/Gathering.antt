-- ===== src/Contents/Gathering.antt =====
-- The addresses that file_read collects in all_blocks.
use enix.Base.{
  ℕ, zero, suc, ◌+◌, ◌-◌, ◌*◌, ◌≡◌, ◌≢◌, ◌≤◌, ◌<◌, refl, sym, ap, ◌∙◌, arith, true, false, inl, inr,
  ltb, ◌==◌, if◌then◌else◌, sub32, update, done, Bool-cases, ==_iff, lt→ltb, ltb→lt, ℕ_discrete,
}
use enix.Inode.{Bytes}
use enix.Volume.{disk_word}
use enix.Contents.{direct_loop, table_read, gather_one, gather_some, gather}

-- The sector of a file's block.
abbrev pub block_of : Bytes → (ℕ → ℕ) → ℕ → ℕ
block_of disk i_sectors b =
    if ltb b 12 then i_sectors b else disk_word disk (i_sectors 12 * 512 + 4 * (b - 12))

-- Do the addresses from `start` to `last` stand in all_blocks?
abbrev pub Gathered : Bytes → (ℕ → ℕ) → ℕ → ℕ → (ℕ → ℕ) → Type 0
Gathered disk i_sectors start last all =
    (b : ℕ) → start ≤ b → b ≤ last → all b ≡ block_of disk i_sectors b

direct_loop-same :
    (left idx : ℕ) (i_sectors all : ℕ → ℕ) (b : ℕ)
    → all b ≡ i_sectors b
    → direct_loop left idx i_sectors all b ≡ i_sectors b
unfolding direct_loop
direct_loop-same zero idx i_sectors all b h = h
direct_loop-same (suc left) idx i_sectors all b h =
    let next : update all idx (i_sectors idx) b ≡ i_sectors b = elim (Bool-cases (b == idx)) [
      | inl t ↦ rw t (ap i_sectors (sym ((==_iff b idx).0 t)))
      | inr n ↦ rw n h
    ] in
    direct_loop-same left (idx + 1) i_sectors (update all idx (i_sectors idx)) b next

direct_loop_lem :
    (left idx : ℕ) (i_sectors all : ℕ → ℕ) (b : ℕ)
    → idx ≤ b
    → b < idx + left
    → direct_loop left idx i_sectors all b ≡ i_sectors b
unfolding direct_loop
direct_loop_lem zero idx i_sectors all b l r = absurd (omega (arith, l, r))
direct_loop_lem (suc left) idx i_sectors all b l r = elim (Bool-cases (b == idx)) [
  | inl t ↦
      direct_loop-same left (idx + 1) i_sectors (update all idx (i_sectors idx)) b
        (rw t (ap i_sectors (sym ((==_iff b idx).0 t))))
  | inr n ↦
      direct_loop_lem left (idx + 1) i_sectors (update all idx (i_sectors idx)) b
        (ground (arith, n, l)) (omega arith)
]

pub table_read_lem :
    (disk : Bytes) (i_sectors all : ℕ → ℕ) (b : ℕ)
    → 12 ≤ b
    → b < 140
    → table_read disk (i_sectors 12) all b ≡ block_of disk i_sectors b
unfolding table_read
table_read_lem disk i_sectors all b l r = ground arith

table_read-same :
    (disk : Bytes) (i_sectors all : ℕ → ℕ) (b : ℕ)
    → b < 12
    → table_read disk (i_sectors 12) all b ≡ all b
unfolding table_read
table_read-same disk i_sectors all b l = ground arith

pub block_of-direct :
    (disk : Bytes) (i_sectors : ℕ → ℕ) (b : ℕ) → b < 12 → block_of disk i_sectors b ≡ i_sectors b
block_of-direct disk i_sectors b l = rw (lt→ltb b 12 l) refl

module _ (disk : Bytes) (i_sectors all : ℕ → ℕ) (start last : ℕ) (le : start ≤ last)
    (small : last < 139) (table : 12 ≤ last → i_sectors 12 ≢ 0) where
  gather_one-Gathered :
      start ≡ last → Gathered disk i_sectors start last (gather_one disk i_sectors last all)
  unfolding gather_one
  gather_one-Gathered e b l r =
      let eb : b ≡ last = omega arith in
      elim (Bool-cases (ltb last 12)) [
        | inl t ↦
            let same : (b == last) ≡ true = (==_iff b last).1 eb in
            rw (t, same)
              (ap i_sectors (sym eb)
                ∙ sym (block_of-direct disk i_sectors b (omega (arith, eb, ltb→lt last 12 t))))
        | inr n ↦
            let t : 12 ≤ b = ground (arith, n, eb) in
            rw n (table_read_lem disk i_sectors all b t (omega arith))
      ]

  -- The direct blocks' addresses, where there are any.
  abbrev before : ℕ → ℕ
  before = if ltb start 12 then direct_loop (12 - start) start i_sectors all else all

  table_read-Gathered : Gathered disk i_sectors start last (table_read disk (i_sectors 12) before)
  table_read-Gathered b l r = elim (Bool-cases (ltb b 12)) [
    | inl t ↦
        let bb = ltb→lt b 12 t in
        let s : ltb start 12 ≡ true = lt→ltb start 12 (omega arith) in
        table_read-same disk i_sectors before b bb
        ∙ rw s (direct_loop_lem (12 - start) start i_sectors all b l (omega arith))
        ∙ sym (block_of-direct disk i_sectors b bb)
    | inr n ↦
        let t : 12 ≤ b = ground (arith, n) in table_read_lem disk i_sectors before b t (omega arith)
  ]

  gather_some-Gathered :
      (all' : ℕ → ℕ) × (gather_some disk i_sectors start last all ≡ done all')
      × Gathered disk i_sectors start last all'
  unfolding gather_some
  gather_some-Gathered = elim (Bool-cases (ltb last 12)) [
    | inl t ↦ (
      direct_loop (last + 1 - start) start i_sectors all,
      rw t refl,
      λ b l r.
          let tt12 = ltb→lt last 12 t in
          direct_loop_lem (last + 1 - start) start i_sectors all b l (omega arith)
          ∙ sym (block_of-direct disk i_sectors b (omega arith)),
    )
    | inr n ↦
        let s : (i_sectors 12 == 0) ≡ false = elim (Bool-cases (i_sectors 12 == 0)) [
          | inl z ↦ absurd (table (ground (arith, n)) ((==_iff (i_sectors 12) 0).0 z))
          | inr z ↦ z
        ] in
        (table_read disk (i_sectors 12) before, rw (n, s) refl, table_read-Gathered)
  ]

  pub gather_lem :
      (all' : ℕ → ℕ) × (gather disk i_sectors start last all ≡ done all')
      × Gathered disk i_sectors start last all'
  unfolding gather
  gather_lem = elim (ℕ_discrete start last) [
    | yes e ↦
        let z : (sub32 start last == 0) ≡ true = ground (arith, e) in
        let s : (last == start) ≡ true = ground (arith, e) in
        (gather_one disk i_sectors last all, rw (z, s) refl, gather_one-Gathered e)
    | no ne ↦
        let z : (sub32 start last == 0) ≡ false = ground (arith, ne, le) in
        let (all', e, g) = gather_some-Gathered in (all', rw z e, g)
  ]
