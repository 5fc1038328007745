-- ===== src/Directory/Searching.antt =====
-- search_dir_entry finds what a list of named entries holds.
use enix.Base.{
  ℕ, zero, suc, ◌+◌, ◌-◌, ◌*◌, ◌≡◌, ◌≢◌, ◌≤◌, ◌<◌, refl, sym, ap, ◌∙◌, arith, Bool, true, false,
  inl, inr, Option, none, some, List, [], ◌∷◌, ◌++◌, length, ltb, ◌==◌, if◌then◌else◌, Run, done,
  Bool-cases, subst, block,
}
use enix.Strings.{IsString}
use enix.Strings.Order.{compare, strcmp-compare}
use enix.Inode.{Bytes}
use enix.Volume.{all_blocks}
use enix.Directory.{
  Dir, entry_at, sector, beside, is_nought, has_name, search_entries, search_loop, search_dir_entry,
}

-- Equality of names.
abbrev pub same_name : List ℕ → List ℕ → Bool
same_name s t = is_nought (compare s t)

-- The first of some named things that has the name.
abbrev pub find {ℓ} : {A : Type ℓ} → List ℕ → List (List ℕ × A) → Option A
find name [] = none
find name ((n, a) ∷ l) = let rest = find name l in if same_name n name then some a else rest

abbrev pub or_else {ℓ} : {A : Type ℓ} → Option A → Option A → Option A
or_else none b = b
or_else (some a) b = some a

find-append {ℓ} :
    {A : Type ℓ} (name : List ℕ) (l k : List (List ℕ × A))
    → find name (l ++ k) ≡ or_else (find name l) (find name k)
find-append name [] k = refl
find-append name ((n, a) ∷ l) k = elim (Bool-cases (same_name n name)) [
  | inl t ↦ rw t refl
  | inr f ↦ rw f (find-append name l k)
]

-- A directory's entries with their names, where `names` gives the name of each entry of a sector.
abbrev pub entries_of : (ℕ → ℕ → List ℕ) → Bytes → ℕ → List (List ℕ × Bytes)
entries_of names disk lba = block 21 0 (λ k. (names lba k, entry_at (sector disk lba) k))

abbrev pub listing : (ℕ → ℕ → List ℕ) → Bytes → (ℕ → ℕ) → ℕ → ℕ → List (List ℕ × Bytes)
listing names disk all zero block_idx = []
listing names disk all (suc left) block_idx =
    let rest = listing names disk all left (block_idx + 1) in
    if all block_idx == 0 then rest else entries_of names disk (all block_idx) ++ rest

-- The names of the entries of a directory's 140 blocks are strings of at most 15 bytes.
pub record AreNamed (names : ℕ → ℕ → List ℕ) (disk : Bytes) (all : ℕ → ℕ) : Type 0 where
  pub bytes : (a : ℕ) → disk a < 256
  pub strings :
      (b k : ℕ)
      → b < 140
      → all b ≢ 0
      → k < 21
      → IsString (entry_at (sector disk (all b)) k) 0 (names (all b) k)
  pub short : (b k : ℕ) → b < 140 → length (names (all b) k) < 16

IsString-beside_buf :
    (buf name : Bytes) (k j : ℕ) (s : List ℕ)
    → k < 21
    → j + length s < 16
    → IsString (entry_at buf k) j s
    → IsString (beside buf name) (512 + 24 * k + j) s
IsString-beside_buf buf name k j [] lt l h =
    let t : ltb (512 + 24 * k + j) 1024 ≡ true = ground arith in
    let e : 512 + 24 * k + j - 512 ≡ 24 * k + j = omega arith in rw (t, e) h
IsString-beside_buf buf name k j (c ∷ s) lt l (h, ne, rest) =
    let t : ltb (512 + 24 * k + j) 1024 ≡ true = ground arith in
    let e : 512 + 24 * k + j - 512 ≡ 24 * k + j = omega arith in
    let z : 512 + 24 * k + j + 1 ≡ 512 + 24 * k + (j + 1) = omega arith in
    (rw (t, e) h, ne, rw z (IsString-beside_buf buf name k (j + 1) s lt (omega (arith, l)) rest))

IsString-beside_name :
    (buf name : Bytes) (j : ℕ) (s : List ℕ)
    → IsString name j s
    → IsString (beside buf name) (1024 + j) s
IsString-beside_name buf name j [] h =
    let t : ltb (1024 + j) 1024 ≡ false = ground arith in
    let e : 1024 + j - 1024 ≡ j = omega arith in rw (t, e) h
IsString-beside_name buf name j (c ∷ s) (h, ne, rest) =
    let t : ltb (1024 + j) 1024 ≡ false = ground arith in
    let e : 1024 + j - 1024 ≡ j = omega arith in
    let z : 1024 + j + 1 ≡ 1024 + (j + 1) = omega arith in
    (rw (t, e) h, ne, rw z (IsString-beside_name buf name (j + 1) s rest))

pub has_name-same_name :
    (buf name : Bytes) (k : ℕ) (s t : List ℕ)
    → k < 21
    → length s < 16
    → ((a : ℕ) → buf a < 256)
    → ((a : ℕ) → name a < 256)
    → IsString (entry_at buf k) 0 s
    → IsString name 0 t
    → has_name buf k name ≡ done (same_name s t)
unfolding has_name
has_name-same_name buf name k s t lt short bb bn hs ht =
    let z : 512 + 24 * k + 0 ≡ 512 + 24 * k = omega arith in
    let s' : IsString (beside buf name) (512 + 24 * k) s =
      subst (λ a. IsString (beside buf name) a s) z
        (IsString-beside_buf buf name k 0 s lt (omega (arith, short)) hs) in
    let t' : IsString (beside buf name) 1024 t = IsString-beside_name buf name 0 t ht in
    let run =
      strcmp-compare 512 (beside buf name) (512 + 24 * k) 1024 s t (omega arith) (omega arith)
        (λ a. ground (arith, bb (a - 512), bn (a - 1024))) s' t' (omega arith) in
    rw (run.0) refl

module _ (disk name : Bytes) (t : List ℕ) (bytes : (a : ℕ) → name a < 256)
    (is_name : IsString name 0 t) where
  -- The index of the first entry of a name, and the entry.
  abbrev IsFound : Bytes → Option ℕ → Option Bytes → Type 0
  IsFound buf none e = e ≡ none
  IsFound buf (some k) e = e ≡ some (entry_at buf k)

  found-or_else :
      (buf : Bytes) (rest : Run (Option Bytes)) (later first : Option Bytes) (r : Option ℕ)
      → rest ≡ done later
      → IsFound buf r first
      → ◌≡◌ {A = Run (Option Bytes)}
          (elim r [ some k ↦ done (some (entry_at buf k)) | none ↦ rest ])
          (done (or_else first later))
  found-or_else buf rest later first none e h = rw h e
  found-or_else buf rest later first (some k) e h = rw h refl

  search_entries-find :
      (left idx : ℕ) (buf : Bytes) (names : ℕ → List ℕ)
      → idx + left ≤ 21
      → ((a : ℕ) → buf a < 256)
      → ((k : ℕ) → length (names k) < 16)
      → ((k : ℕ) → k < 21 → IsString (entry_at buf k) 0 (names k))
      → (r : Option ℕ) × (search_entries left idx buf name ≡ done r)
        × IsFound buf r (find t (block left idx (λ k. (names k, entry_at buf k))))
  unfolding search_entries
  search_entries-find zero idx buf names b bb short strings = (none, refl, refl)
  search_entries-find (suc left) idx buf names b bb short strings =
      let run =
        has_name-same_name buf name idx (names idx) t (omega (arith, b)) (short idx) bb bytes
          (strings idx (omega (arith, b))) is_name in
      elim (Bool-cases (same_name (names idx) t)) [
        | inl y ↦ (some idx, rw (run, y) refl, rw y refl)
        | inr n ↦
            let (r, e, f) =
              search_entries-find left (idx + 1) buf names (omega (arith, b)) bb short strings in
            (r, rw (run, n) e, rw n f)
      ]

  search_loop-find :
      (left idx : ℕ) (all : ℕ → ℕ) (names : ℕ → ℕ → List ℕ)
      → AreNamed names disk all
      → idx + left ≤ 140
      → search_loop left idx disk all name ≡ done (find t (listing names disk all left idx))
  unfolding search_loop
  search_loop-find zero idx all names v b = refl
  search_loop-find (suc left) idx all names v b = elim (Bool-cases (all idx == 0)) [
    | inl z ↦ rw (search_loop, z) (search_loop-find left (idx + 1) all names v (omega (arith, b)))
    | inr n ↦
        let ne : all idx ≢ 0 = λ e. ground (arith, n, e) in
        let (r, e, f) =
          search_entries-find 21 0 (sector disk (all idx)) (names (all idx)) (omega arith)
            (λ a. ground (arith, v.bytes (all idx * 512 + a)))
            (λ k. v.short idx k (omega (arith, b)))
            (λ k lt. v.strings idx k (omega (arith, b)) ne lt) in
        let rest = search_loop-find left (idx + 1) all names v (omega (arith, b)) in
        let both =
          find-append t (entries_of names disk (all idx)) (listing names disk all left (idx + 1)) in
        let first = find t (entries_of names disk (all idx)) in
        let later = find t (listing names disk all left (idx + 1)) in
        let tail = search_loop left (idx + 1) disk all name in
        let found = found-or_else (sector disk (all idx)) tail later first r rest f in
        rw (n, search_loop, e) (found ∙ ap done (sym both))
  ]

  -- Where all names in a directory are strings of at most 15 bytes, search_dir_entry runs to its end
  -- and returns the first entry of the name, in the order of the sectors and of the entries in them,
  -- or false if there is none; entries that were deleted are compared as the others.
  pub search_dir_entry-find :
      (dir : Dir) (names : ℕ → ℕ → List ℕ)
      → AreNamed names disk (all_blocks disk dir.i_sectors)
      → search_dir_entry true disk dir name
        ≡ done (find t (listing names disk (all_blocks disk dir.i_sectors) 140 0))
  unfolding search_dir_entry
  search_dir_entry-find dir names v =
      search_loop-find 140 0 (all_blocks disk dir.i_sectors) names v (omega arith)
