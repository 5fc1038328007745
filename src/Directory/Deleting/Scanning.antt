-- ===== src/Directory/Deleting/Scanning.antt =====
-- What the pass of delete_dir_entry over one sector finds.
use enix.Base.{
  ℕ, zero, suc, ◌+◌, ◌*◌, ◌≡◌, ◌≢◌, ◌≤◌, ◌<◌, refl, ap, ◌∙◌, arith, Bool, true, false, not, ◌&&◌,
  ◌||◌, inl, inr, Option, none, some, List, [], ◌∷◌, length, ◌==◌, if◌then◌else◌, Run, done,
  Bool-cases, ℕ_discrete, ◌>>=◌,
}
use enix.Strings.{IsString}
use enix.Inode.{Bytes}
use enix.Files.{word}
use enix.Directory.{entry_at, is_unknown, has_name}
use enix.Directory.Searching.{same_name, has_name-same_name}
use enix.Directory.Deleting.Endless.{found_one}
use enix.Directory.Deleting.{Scan, no_scan, dot, dot_dot, scan_entry, count_entry, scan_entries}

-- An entry in use of the name "."; one that is neither "." nor ".."; and one of these with the inode.
abbrev pub is_self : Bytes → (ℕ → List ℕ) → ℕ → Bool
is_self buf names j = not (is_unknown buf j) && same_name (names j) (46 ∷ [])

abbrev pub is_ordinary : Bytes → (ℕ → List ℕ) → ℕ → Bool
is_ordinary buf names j =
    not (is_unknown buf j)
    && (not (same_name (names j) (46 ∷ [])) && not (same_name (names j) (46 ∷ 46 ∷ [])))

abbrev pub is_sought : Bytes → (ℕ → List ℕ) → ℕ → ℕ → Bool
is_sought buf names inode_no j = is_ordinary buf names j && (word buf (24 * j + 16) == inode_no)

-- How many ordinary entries stand among the `left` from one on, and whether "." does.
abbrev pub ordinaries : Bytes → (ℕ → List ℕ) → ℕ → ℕ → ℕ
ordinaries buf names zero j = 0
ordinaries buf names (suc left) j =
    (if is_ordinary buf names j then 1 else 0) + ordinaries buf names left (j + 1)

abbrev pub has_self : Bytes → (ℕ → List ℕ) → ℕ → ℕ → Bool
has_self buf names zero j = false
has_self buf names (suc left) j = is_self buf names j || has_self buf names left (j + 1)

-- The names of a sector's entries are strings of at most 15 bytes.
pub record AreStrings (buf : Bytes) (names : ℕ → List ℕ) : Type 0 where
  pub bytes : (a : ℕ) → buf a < 256
  pub strings : (j : ℕ) → j < 21 → IsString (entry_at buf j) 0 (names j)
  pub short : (j : ℕ) → j < 21 → length (names j) < 16

same_scan :
    (f g : Option ℕ) (n m : ℕ) (b c : Bool)
    → f ≡ g
    → n ≡ m
    → b ≡ c
    → ◌≡◌ {A = Run Scan}
        (done (record { dir_entry_found = f; dir_entry_cnt = n; is_dir_first_block = b }))
        (done (record { dir_entry_found = g; dir_entry_cnt = m; is_dir_first_block = c }))
same_scan f g n m b c ef en eb = rw (ef, en, eb) refl

one_more : (t : Bool) (n m : ℕ) → (if t then n + 1 else n) + m ≡ n + ((if t then 1 else 0) + m)
one_more true n m = omega arith
one_more false n m = omega arith

or_false : (h : Bool) → (h || false) ≡ h
or_false true = refl
or_false false = refl

first_true : (a b : Bool) → (a && b) ≡ true → a ≡ true
first_true true b h = refl
first_true false b h = h

or_swap : (s h b : Bool) → (h || (s || b)) ≡ ((s || h) || b)
or_swap true true b = refl
or_swap true false b = refl
or_swap false h b = refl

module _ (buf : Bytes) (names : ℕ → List ℕ) (inode_no : ℕ) (v : AreStrings buf names) where
  is_dot_lem : (j : ℕ) → j < 21 → has_name buf j dot ≡ done (same_name (names j) (46 ∷ []))
  is_dot_lem j lt =
      has_name-same_name buf dot j (names j) (46 ∷ []) lt (v.short j lt) v.bytes (λ a. ground arith)
        (v.strings j lt) (refl, omega arith, refl)

  is_dot_dot_lem :
      (j : ℕ) → j < 21 → has_name buf j dot_dot ≡ done (same_name (names j) (46 ∷ 46 ∷ []))
  is_dot_dot_lem j lt =
      has_name-same_name buf dot_dot j (names j) (46 ∷ 46 ∷ []) lt (v.short j lt) v.bytes
        (λ a. ground arith) (v.strings j lt) (refl, omega arith, (refl, omega arith, refl))

  -- What one entry does to the pass, when no other was found before the one that is sought.
  abbrev next : ℕ → Scan → Scan
  next j s = record {
    dir_entry_found = if is_sought buf names inode_no j then some j else s.dir_entry_found;
    dir_entry_cnt = if is_ordinary buf names j then s.dir_entry_cnt + 1 else s.dir_entry_cnt;
    is_dir_first_block = is_self buf names j || s.is_dir_first_block;
  }

  scan_entry-next :
      (j : ℕ) (s : Scan)
      → j < 21
      → is_unknown buf j ≡ false
      → ((is_sought buf names inode_no j ≡ true) → s.dir_entry_found ≡ none)
      → scan_entry j buf inode_no s ≡ done (next j s)
  unfolding scan_entry count_entry
  scan_entry-next j s lt used fresh = elim (Bool-cases (same_name (names j) (46 ∷ []))) [
    | inl d ↦ rw (is_dot_lem j lt, d, used) refl
    | inr nd ↦ elim (Bool-cases (same_name (names j) (46 ∷ 46 ∷ []))) [
      | inl dd ↦ rw (is_dot_lem j lt, nd, is_dot_dot_lem j lt, dd, used) refl
      | inr ndd ↦ elim (Bool-cases (word buf (24 * j + 16) == inode_no)) [
        | inl m ↦
            let sought : is_sought buf names inode_no j ≡ true = rw (used, nd, ndd, m) refl in
            rw (is_dot_lem j lt, nd, is_dot_dot_lem j lt, ndd, m, used, fresh sought) refl
        | inr nm ↦ rw (is_dot_lem j lt, nd, is_dot_dot_lem j lt, ndd, nm, used) refl
      ]
    ]
  ]

  scan_entries-used :
      (left j : ℕ) (s : Scan)
      → is_unknown buf j ≡ false
      → scan_entries (suc left) j buf inode_no s
        ≡ (scan_entry j buf inode_no s >>= λ s1. scan_entries left (j + 1) buf inode_no s1)
  unfolding scan_entries
  scan_entries-used left j s n = rw (scan_entries, n) refl

  scan_entries-next :
      (left j : ℕ) (s : Scan)
      → j < 21
      → ((is_sought buf names inode_no j ≡ true) → s.dir_entry_found ≡ none)
      → scan_entries (suc left) j buf inode_no s ≡ scan_entries left (j + 1) buf inode_no (next j s)
  unfolding scan_entries
  scan_entries-next left j s lt fresh = elim (Bool-cases (is_unknown buf j)) [
    | inl u ↦ rw (scan_entries, u) refl
    | inr n ↦
        scan_entries-used left j s n
        ∙ ap (λ r. r >>= λ s1. scan_entries left (j + 1) buf inode_no s1)
            (scan_entry-next j s lt n fresh)
  ]

  scan_entries-zero :
      (j n : ℕ) (f : Option ℕ) (b : Bool)
      → scan_entries zero j buf inode_no
          (record { dir_entry_found = f; dir_entry_cnt = n; is_dir_first_block = b })
        ≡ done (record { dir_entry_found = f; dir_entry_cnt = n + 0; is_dir_first_block = b })
  unfolding scan_entries
  scan_entries-zero j n f b = same_scan f f n (n + 0) b b refl (omega arith) refl

  -- Entries without the sought one are counted only.
  pub scan_entries-none :
      (left j n : ℕ) (f : Option ℕ) (b : Bool)
      → j + left ≤ 21
      → ((i : ℕ) → j ≤ i → i < j + left → is_sought buf names inode_no i ≡ false)
      → scan_entries left j buf inode_no
          (record { dir_entry_found = f; dir_entry_cnt = n; is_dir_first_block = b })
        ≡ done (record {
          dir_entry_found = f;
          dir_entry_cnt = n + ordinaries buf names left j;
          is_dir_first_block = has_self buf names left j || b;
        })
  scan_entries-none zero j n f b lt others = scan_entries-zero j n f b
  scan_entries-none (suc left) j n f b lt others =
      let s : Scan = record { dir_entry_found = f; dir_entry_cnt = n; is_dir_first_block = b } in
      let off : is_sought buf names inode_no j ≡ false = others j (omega arith) (omega arith) in
      scan_entries-next left j s (omega arith) (λ t. absurd (ground (arith, off, t)))
      ∙ scan_entries-none left (j + 1) (if is_ordinary buf names j then n + 1 else n)
          (if is_sought buf names inode_no j then some j else f) (is_self buf names j || b)
          (omega arith) (λ i lo hi. others i (omega arith) (omega arith))
      ∙ same_scan (if is_sought buf names inode_no j then some j else f) f
          ((if is_ordinary buf names j then n + 1 else n) + ordinaries buf names left (j + 1))
          (n + ordinaries buf names (suc left) j)
          (has_self buf names left (j + 1) || (is_self buf names j || b))
          (has_self buf names (suc left) j || b) (rw off refl)
          (one_more (is_ordinary buf names j) n (ordinaries buf names left (j + 1)))
          (or_swap (is_self buf names j) (has_self buf names left (j + 1)) b)

  -- The sought entry is found, and the others are counted with it.
  pub scan_entries-some :
      (left j n k : ℕ) (b : Bool)
      → j + left ≤ 21
      → j ≤ k
      → k < j + left
      → is_sought buf names inode_no k ≡ true
      → ((i : ℕ) → i ≢ k → i < 21 → is_sought buf names inode_no i ≡ false)
      → scan_entries left j buf inode_no
          (record { dir_entry_found = none; dir_entry_cnt = n; is_dir_first_block = b })
        ≡ done (record {
          dir_entry_found = some k;
          dir_entry_cnt = n + ordinaries buf names left j;
          is_dir_first_block = has_self buf names left j || b;
        })
  scan_entries-some zero j n k b lt lo hi sought others = absurd (omega arith)
  scan_entries-some (suc left) j n k b lt lo hi sought others =
      let s : Scan = record { dir_entry_found = none; dir_entry_cnt = n; is_dir_first_block = b } in
      scan_entries-next left j s (omega arith) (λ t. refl) ∙ elim (ℕ_discrete j k) [
        | yes e ↦
            let on : is_sought buf names inode_no j ≡ true =
              ap (is_sought buf names inode_no) e ∙ sought in
            scan_entries-none left (j + 1) (if is_ordinary buf names j then n + 1 else n)
              (if is_sought buf names inode_no j then some j else none) (is_self buf names j || b)
              (omega arith) (λ i from to. others i (omega arith) (omega arith))
            ∙ same_scan (if is_sought buf names inode_no j then some j else none) (some k)
                ((if is_ordinary buf names j then n + 1 else n) + ordinaries buf names left (j + 1))
                (n + ordinaries buf names (suc left) j)
                (has_self buf names left (j + 1) || (is_self buf names j || b))
                (has_self buf names (suc left) j || b) (rw on (ap some e))
                (one_more (is_ordinary buf names j) n (ordinaries buf names left (j + 1)))
                (or_swap (is_self buf names j) (has_self buf names left (j + 1)) b)
        | no ne ↦
            let off : is_sought buf names inode_no j ≡ false = others j ne (omega arith) in
            ap
              (λ f. scan_entries left (j + 1) buf inode_no (record {
                dir_entry_found = f;
                dir_entry_cnt = if is_ordinary buf names j then n + 1 else n;
                is_dir_first_block = is_self buf names j || b;
              }))
              (let e : (if is_sought buf names inode_no j then some j else none) ≡ none =
                  rw off refl in
                e)
            ∙ scan_entries-some left (j + 1) (if is_ordinary buf names j then n + 1 else n) k
                (is_self buf names j || b) (omega arith) (omega arith) (omega arith) sought others
            ∙ same_scan (some k) (some k)
                ((if is_ordinary buf names j then n + 1 else n) + ordinaries buf names left (j + 1))
                (n + ordinaries buf names (suc left) j)
                (has_self buf names left (j + 1) || (is_self buf names j || b))
                (has_self buf names (suc left) j || b) refl
                (one_more (is_ordinary buf names j) n (ordinaries buf names left (j + 1)))
                (or_swap (is_self buf names j) (has_self buf names left (j + 1)) b)
      ]

  ordinaries-some :
      (left j k : ℕ)
      → j ≤ k
      → k < j + left
      → is_ordinary buf names k ≡ true
      → 0 < ordinaries buf names left j
  ordinaries-some zero j k lo hi is = absurd (omega arith)
  ordinaries-some (suc left) j k lo hi is = elim (ℕ_discrete j k) [
    | yes e ↦
        let here : is_ordinary buf names j ≡ true = ap (is_ordinary buf names) e ∙ is in
        rw here (omega arith)
    | no ne ↦
        let later = ordinaries-some left (j + 1) k (omega arith) (omega arith) is in
        omega (arith, later)
  ]

  ordinary : (k : ℕ) → is_sought buf names inode_no k ≡ true → is_ordinary buf names k ≡ true
  ordinary k h = first_true (is_ordinary buf names k) (word buf (24 * k + 16) == inode_no) h

  -- The pass over a sector in which one entry is sought.
  pub scan_entries-found_one :
      (k : ℕ)
      → k < 21
      → is_sought buf names inode_no k ≡ true
      → ((i : ℕ) → i ≢ k → i < 21 → is_sought buf names inode_no i ≡ false)
      → (scan_entries 21 0 buf inode_no no_scan
          ≡ done (found_one k (ordinaries buf names 21 0) (has_self buf names 21 0)))
        × (0 < ordinaries buf names 21 0)
  scan_entries-found_one k lt sought others = (
    scan_entries-some 21 0 0 k false (omega arith) (omega arith) (omega arith) sought others
        ∙ same_scan (some k) (some k) (0 + ordinaries buf names 21 0) (ordinaries buf names 21 0)
            (has_self buf names 21 0 || false) (has_self buf names 21 0) refl (omega arith)
            (or_false (has_self buf names 21 0)),
    ordinaries-some 21 0 k (omega arith) (omega arith) (ordinary k sought),
  )

  -- And over one in which none is.
  pub scan_entries-not_found :
      ((i : ℕ) → i < 21 → is_sought buf names inode_no i ≡ false)
      → (s : Scan) × (scan_entries 21 0 buf inode_no no_scan ≡ done s) × (s.dir_entry_found ≡ none)
  scan_entries-not_found others = (
    record {
      dir_entry_found = none;
      dir_entry_cnt = 0 + ordinaries buf names 21 0;
      is_dir_first_block = has_self buf names 21 0 || false;
    },
    scan_entries-none 21 0 0 none false (omega arith) (λ i lo hi. others i (omega arith)),
    refl,
  )
