-- ===== src/Directory/Listing.antt =====
-- dir_read hands out the used entries of a directory one after the other.
use enix.Base.{
  ℕ, zero, suc, ◌+◌, ◌*◌, ◌≡◌, ◌≤◌, ◌<◌, ◌⊎◌, refl, ap, ◌∙◌, arith, true, false, inl, inr, none,
  some, List, [], ◌∷◌, ◌++◌, length, length-append, get_elem?, ltb, ◌==◌, if◌then◌else◌, done,
  Bool-cases, add32, u32_mod, lt→ltb, ltb→lt,
}
use enix.Inode.{Bytes}
use enix.Volume.{all_blocks}
use enix.Directory.{Dir, entry_at, is_unknown, sector, read_entries, read_sectors, dir_read}

-- The used entries of a sector from an index on.
unfoldable pub used_in : ℕ → ℕ → Bytes → List Bytes
used_in zero idx buf = []
used_in (suc left) idx buf =
    let rest = used_in left (idx + 1) buf in
    if is_unknown buf idx then rest else entry_at buf idx ∷ rest

-- The used entries of a directory, in the order of its sectors.
abbrev pub used : Bytes → (ℕ → ℕ) → ℕ → ℕ → List Bytes
used disk all zero idx = []
used disk all (suc left) idx =
    let rest = used disk all left (idx + 1) in
    if all idx == 0 then rest else used_in 21 0 (sector disk (all idx)) ++ rest

get_elem?-before {ℓ} :
    {A : Type ℓ} (l k : List A) (i : ℕ) (a : A)
    → get_elem? l i ≡ some a
    → get_elem? (l ++ k) i ≡ some a
get_elem?-before [] k i a h = absurd (ground arith)
get_elem?-before (x ∷ l) k zero a h = h
get_elem?-before (x ∷ l) k (suc i) a h = get_elem?-before l k i a h

get_elem?-behind {ℓ} :
    {A : Type ℓ} (l k : List A) (i : ℕ) → get_elem? (l ++ k) (length l + i) ≡ get_elem? k i
get_elem?-behind [] k i = let z : 0 + i ≡ i = omega arith in rw z refl
get_elem?-behind (x ∷ l) k i =
    let z : suc (length l) + i ≡ suc (length l + i) = omega arith in rw z (get_elem?-behind l k i)

-- A pass over a sector finds the used entry number `d` of it, or there are not that many.
abbrev Passes : ℕ → ℕ → Bytes → ℕ → ℕ → Type 0
Passes left idx buf c d =
    ((k : ℕ) × (read_entries left idx buf (24 * c) (24 * (c + d))
        ≡ done (record { at = some k; cur_dir_entry_pos = 24 * (c + d) }))
      × (get_elem? (used_in left idx buf) d ≡ some (entry_at buf k)))
    ⊎ ((e : ℕ) × (d ≡ length (used_in left idx buf) + e)
        × (read_entries left idx buf (24 * c) (24 * (c + d))
            ≡ done (record {
              at = none;
              cur_dir_entry_pos = 24 * (c + length (used_in left idx buf));
            })))

Passes-skip :
    (left idx : ℕ) (buf : Bytes) (c d : ℕ)
    → is_unknown buf idx ≡ true
    → Passes left (idx + 1) buf c d
    → Passes (suc left) idx buf c d
unfolding read_entries used_in
Passes-skip left idx buf c d t (inl (k, e, g)) = inl (k, rw (t, read_entries) e, rw t g)
Passes-skip left idx buf c d t (inr (x, q, e)) = inr (x, rw t q, rw (t, read_entries) e)

Passes-next :
    (left idx : ℕ) (buf : Bytes) (c d : ℕ)
    → is_unknown buf idx ≡ false
    → 24 * (c + suc d) < u32_mod
    → Passes left (idx + 1) buf (c + 1) d
    → Passes (suc left) idx buf c (suc d)
unfolding read_entries used_in
Passes-next left idx buf c d n b p =
    let below : ltb (24 * c) (24 * (c + suc d)) ≡ true =
      lt→ltb (24 * c) (24 * (c + suc d)) (omega arith) in
    let step : add32 (24 * c) 24 ≡ 24 * (c + 1) = omega arith in
    let pos : c + suc d ≡ c + 1 + d = omega arith in
    elim p [
      | inl (k, e, g) ↦ inl (k, rw (n, read_entries, below, step, pos) e, rw n g)
      | inr (x, q, e) ↦
          let l = length (used_in left (idx + 1) buf) in
          let z : c + suc l ≡ c + 1 + l = omega arith in
          inr (x, rw n (omega (arith, q)), rw (n, read_entries, below, step, pos, z) e)
    ]

Passes-here :
    (left idx : ℕ) (buf : Bytes) (c : ℕ)
    → is_unknown buf idx ≡ false
    → Passes (suc left) idx buf c zero
unfolding read_entries used_in
Passes-here left idx buf c n =
    let pos : c + 0 ≡ c = omega arith in
    let f : ltb (24 * c) (24 * c) ≡ false = ground arith in
    let t : (24 * c == 24 * c) ≡ true = ground arith in
    inl (idx, rw (n, pos, read_entries, f, pos, t) refl, rw n refl)

read_entries-Passes :
    (left idx : ℕ) (buf : Bytes) (c d : ℕ) → 24 * (c + d) < u32_mod → Passes left idx buf c d
unfolding read_entries used_in
read_entries-Passes zero idx buf c d b =
    let z : c + 0 ≡ c = omega arith in inr (d, omega arith, rw z refl)
read_entries-Passes (suc left) idx buf c zero b = elim (Bool-cases (is_unknown buf idx)) [
  | inl t ↦ Passes-skip left idx buf c 0 t (read_entries-Passes left (idx + 1) buf c 0 b)
  | inr n ↦ Passes-here left idx buf c n
]
read_entries-Passes (suc left) idx buf c (suc d) b = elim (Bool-cases (is_unknown buf idx)) [
  | inl t ↦
      Passes-skip left idx buf c (suc d) t (read_entries-Passes left (idx + 1) buf c (suc d) b)
  | inr n ↦
      Passes-next left idx buf c d n b
        (read_entries-Passes left (idx + 1) buf (c + 1) d (omega arith))
]

read_sectors-behind :
    (left idx : ℕ) (disk : Bytes) (all : ℕ → ℕ) (cur cur' dir_pos : ℕ) (found : Bytes)
    → (all idx == 0) ≡ false
    → read_entries 21 0 (sector disk (all idx)) cur dir_pos
      ≡ done (record { at = none; cur_dir_entry_pos = cur' })
    → read_sectors left (idx + 1) disk all cur' dir_pos ≡ done found
    → read_sectors (suc left) idx disk all cur dir_pos ≡ done found
unfolding read_sectors
read_sectors-behind left idx disk all cur cur' dir_pos found n e run = rw (n, read_sectors, e) run

read_sectors-used :
    (left idx : ℕ) (disk : Bytes) (all : ℕ → ℕ) (c d : ℕ)
    → 24 * (c + d) < u32_mod
    → d < length (used disk all left idx)
    → (e : Bytes) × (read_sectors left idx disk all (24 * c) (24 * (c + d)) ≡ done e)
      × (get_elem? (used disk all left idx) d ≡ some e)
unfolding read_sectors
read_sectors-used zero idx disk all c d b lt = absurd (omega arith)
read_sectors-used (suc left) idx disk all c d b lt =
    let later = used disk all left (idx + 1) in
    let here = used_in 21 0 (sector disk (all idx)) in
    elim (Bool-cases (all idx == 0)) [
      | inl t ↦
          let same : used disk all (suc left) idx ≡ later = rw t refl in
          let (e, run, g) =
            read_sectors-used left (idx + 1) disk all c d b (omega (arith, lt, ap length same)) in
          (e, rw (t, read_sectors) run, rw t g)
      | inr n ↦
          let same : used disk all (suc left) idx ≡ here ++ later = rw n refl in
          elim (read_entries-Passes 21 0 (sector disk (all idx)) c d b) [
            | inl (k, e, g) ↦
                let found = entry_at (sector disk (all idx)) k in
                (found, rw (n, read_sectors, e) refl, rw n (get_elem?-before here later d found g))
            | inr (x, q, e) ↦
                let pos : c + d ≡ c + length here + x = omega (arith, q) in
                let inside : x < length later =
                  omega (arith, q, lt, ap length same, length-append here later) in
                let (found, run, g) =
                  read_sectors-used left (idx + 1) disk all (c + length here) x
                    (omega (arith, b, q)) inside in
                let cur = 24 * (c + length here) in
                let run' : read_sectors left (idx + 1) disk all cur (24 * (c + d)) ≡ done found =
                  ap (λ p. read_sectors left (idx + 1) disk all cur (24 * p)) pos ∙ run in
                (
                  found,
                  read_sectors-behind left idx disk all (24 * c) cur (24 * (c + d)) found n e run',
                  ap (λ l. get_elem? l d) same
                      ∙ ap (get_elem? (here ++ later)) q
                      ∙ get_elem?-behind here later x
                      ∙ g,
                )
          ]
    ]

dir_read-some :
    (disk : Bytes) (dir : Dir) (e : Bytes) (next : ℕ)
    → ltb dir.dir_pos dir.i_size ≡ true
    → add32 dir.dir_pos 24 ≡ next
    → read_sectors 140 0 disk (all_blocks disk dir.i_sectors) 0 dir.dir_pos ≡ done e
    → dir_read disk dir ≡ done (some e, record dir { dir_pos = next })
unfolding dir_read
dir_read-some disk dir e next t p run = rw (dir_read, t, p, run) refl

not_below : (a b n m : ℕ) → a ≡ 24 * n → b ≡ 24 * m → ltb a b ≡ false → m ≤ n
not_below a b n m ea eb f = ground arith

-- With dir_pos at the entry number `n` and a size that counts no more entries than are in use,
-- dir_read returns the used entry number `n`, in the order of the sectors, and moves dir_pos on by one
-- entry; when the size says that there is no such entry, it returns NULL and leaves dir_pos as it is.
pub dir_read_lem :
    (disk : Bytes) (dir : Dir) (n entries : ℕ)
    → dir.dir_pos ≡ 24 * n
    → dir.i_size ≡ 24 * entries
    → entries ≤ length (used disk (all_blocks disk dir.i_sectors) 140 0)
    → 24 * entries < u32_mod
    → ((entries ≤ n) × (dir_read disk dir ≡ done (none, dir)))
      ⊎ ((e : Bytes) × (get_elem? (used disk (all_blocks disk dir.i_sectors) 140 0) n ≡ some e)
          × (dir_read disk dir ≡ done (some e, record dir { dir_pos = 24 * (n + 1) })))
unfolding dir_read
dir_read_lem disk dir n entries pos size le small = elim (Bool-cases (ltb dir.dir_pos dir.i_size)) [
  | inr f ↦ inl (not_below dir.dir_pos dir.i_size n entries pos size f, rw (dir_read, f) refl)
  | inl t ↦
      let lt : n < entries = omega (arith, ltb→lt dir.dir_pos dir.i_size t, pos, size) in
      let all = all_blocks disk dir.i_sectors in
      let (e, run, g) = read_sectors-used 140 0 disk all 0 n (omega arith) (omega arith) in
      let start : dir.dir_pos ≡ 24 * (0 + n) = omega (arith, pos) in
      let next : add32 dir.dir_pos 24 ≡ 24 * (n + 1) = omega (arith, pos) in
      inr (
        e,
        g,
        dir_read-some disk dir e (24 * (n + 1)) t next
            (ap (read_sectors 140 0 disk all 0) start ∙ run),
      )
]
