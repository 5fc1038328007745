-- ===== src/Tests/Formats.antt =====
-- A format with each directive.
use enix.Base.{ℕ, ◌≡◌, refl, arith, List, [], ◌∷◌, if◌then◌else◌, ◌==◌}
use enix.Stdio.{Writer, itoa}
use enix.Stdio.Numerals.{Writes, numeral, itoa_lem}

abbrev empty : Writer
empty = record { cells = λ a. 0; buf_ptr = 16 }

-- 50254 in base 16 is "C44E".
hexadecimal : numeral 50254 16 ≡ 67 ∷ 52 ∷ 52 ∷ 69 ∷ []
hexadecimal = refl

itoa_lem_example : Writes 16 50254 empty (67 ∷ 52 ∷ 52 ∷ 69 ∷ []) (itoa 50254 16 empty)
itoa_lem_example = itoa_lem 50254 16 empty (omega arith) (omega arith)

-- "a%d%%x %s" of -7, 255 and the string "hi" at 4096.
abbrev format : List ℕ
format = 97 ∷ 37 ∷ 100 ∷ 37 ∷ 37 ∷ 120 ∷ 32 ∷ 37 ∷ 115 ∷ []

abbrev strings : ℕ → List ℕ
strings a = 104 ∷ 105 ∷ []

abbrev args : ℕ → ℕ
args n = if n == 0 then 4294967289 else (if n == 1 then 255 else 4096)

-- "a-7FF hi"
abbrev written : List ℕ
written = 97 ∷ 45 ∷ 55 ∷ 70 ∷ 70 ∷ 32 ∷ 104 ∷ 105 ∷ []
