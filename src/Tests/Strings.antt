-- ===== src/Tests/Strings.antt =====
-- lib/string.c at a memory with two short strings.
use enix.Base.{ℕ, ◌≡◌, ◌<◌, refl, inl, if◌then◌else◌, ◌==◌, List, [], ◌∷◌, ◌++◌, done, arith}
use enix.Strings.{Memory, plus, IsString, memcmp, strcat, strrchr}
use enix.Strings.Copy.{ChangedWithin, strcat-IsString}

-- "a/a" at 100 and "ab" at 200.
abbrev memory : Memory
memory a =
    if a == 100
    then 97
    else (if a == 101
        then 47
        else (if a == 102 then 97 else (if a == 200 then 97 else (if a == 201 then 98 else 0))))

abbrev path : List ℕ
path = 97 ∷ 47 ∷ 97 ∷ []

abbrev name : List ℕ
name = 97 ∷ 98 ∷ []

path-IsString : IsString memory 100 path
path-IsString = (refl, omega arith, (refl, omega arith, (refl, omega arith, refl)))

name-IsString : IsString memory 200 name
name-IsString = (refl, omega arith, (refl, omega arith, refl))

memory_bytes : (x : ℕ) → memory x < 256
memory_bytes x = ground arith

memcmp_test : memcmp memory 200 100 2 ≡ done plus
unfolding memcmp
memcmp_test = refl

strcat-IsString_example :
    (m' : Memory) × (strcat 10 memory 100 200 ≡ done m')
    × IsString m' 100 (path ++ name)
    × ChangedWithin memory m' 103 3
strcat-IsString_example =
    strcat-IsString 10 memory 100 200 path name (omega arith) (omega arith) path-IsString
      name-IsString (omega arith) (omega arith) (inl (omega arith))

strrchr_test : strrchr 10 memory 100 97 ≡ done 102
unfolding strrchr
strrchr_test = refl
