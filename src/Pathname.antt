-- ===== src/Pathname.antt =====
-- fs/fs.c: the parsing of a path.
--
-- A path is the list of its bytes before the final 0, and a pointer into it the list from there on;
-- NULL is `none`. path_parse writes the name without a final 0 into a buffer that the caller has
-- cleared; path_depth_cnt has not cleared it the first time, so what its first byte is then is an
-- argument.
pub mod Depth
use enix.Base.{
  ℕ, zero, suc, ◌+◌, ◌==◌, Bool, true, false, Option, none, some, List, [], ◌∷◌, length, leb,
  if◌then◌else◌, Run, done, spins, ◌>>=◌,
}

-- while (*(++pathname) == '/')
abbrev pub skip_slashes : List ℕ → List ℕ
skip_slashes [] = []
skip_slashes (c ∷ s) = let rest = skip_slashes s in if c == 47 then rest else c ∷ s

-- The bytes that the second loop copies, and what it leaves.
abbrev pub name_of : List ℕ → List ℕ
name_of [] = []
name_of (c ∷ s) = let rest = name_of s in if c == 47 then [] else c ∷ rest

abbrev pub behind_name : List ℕ → List ℕ
behind_name [] = []
behind_name (c ∷ s) = let rest = behind_name s in if c == 47 then c ∷ s else rest

abbrev pub behind_slashes : List ℕ → List ℕ
behind_slashes [] = []
behind_slashes (c ∷ s) = if c == 47 then skip_slashes s else c ∷ s

abbrev pub unless_empty : List ℕ → Option (List ℕ)
unless_empty [] = none
unless_empty (c ∷ s) = some (c ∷ s)

-- The name, and the path behind it.
unfoldable pub path_parse : List ℕ → List ℕ × Option (List ℕ)
path_parse pathname = let p = behind_slashes pathname in (name_of p, unless_empty (behind_name p))

-- name[0] behind a call of path_parse.
abbrev pub first_byte : ℕ → List ℕ → ℕ
first_byte old [] = old
first_byte old (c ∷ name) = c

-- MAX_FILE_NAME_LEN
abbrev pub max_file_name_len : ℕ
max_file_name_len = 16

-- The loop of path_depth_cnt, on fuel: `name[0]`, p and the depth. A name that is longer than the buffer
-- overwrites the stack behind it: of what happens then nothing is said, and `none` stands for it.
unfoldable pub depth_loop : ℕ → ℕ → Option (List ℕ) → ℕ → Run (Option ℕ)
depth_loop zero c p depth = spins
depth_loop (suc fuel) c p depth = elim (c == 0) [
  | true ↦ done (some depth)
  | false ↦ elim p [
    | none ↦ depth_loop fuel 0 none (depth + 1)
    | some s ↦
        let r = path_parse s in
        elim (leb (length r.0) max_file_name_len) [
          | true ↦ depth_loop fuel (first_byte 0 r.0) r.1 (depth + 1)
          | false ↦ done none
        ]
  ]
]

-- Each round but the last two takes a byte of the path.
unfoldable pub path_depth_cnt : ℕ → List ℕ → Run (Option ℕ)
path_depth_cnt old pathname =
    let r = path_parse pathname in
    if leb (length r.0) max_file_name_len
    then depth_loop (length pathname + 2) (first_byte old r.0) r.1 0
    else done none
