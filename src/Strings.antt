-- ===== src/Strings.antt =====
-- lib/string.c: byte strings and blocks in memory.
--
-- The memory is a function from addresses to bytes, and a pointer is an address; NULL is 0. A
-- function that writes returns the new memory. The loops over a string take fuel.
pub mod Blocks
pub mod Copy
pub mod Scan
pub mod Order
use enix.Base.{
  ℕ, zero, suc, ◌+◌, ◌-◌, ◌%◌, ◌≤◌, ◌≡◌, ◌≢◌, Bool, true, false, not, ◌&&◌, ◌||◌, Option, none,
  some, List, [], ◌∷◌, ltb, ◌==◌, if◌then◌else◌, add32, update, Run, done, ◌>>=◌, ◌>>◌, assert,
  ended,
}

abbrev pub Memory : Type 0
Memory = ℕ → ℕ

-- The results +1, 0 and -1 of a comparison.
pub data Sign : Type 0 where
  plus nought minus : Sign

-- `char` is signed: a byte from 128 on is negative, so it comes first.
abbrev pub char_lt : ℕ → ℕ → Bool
char_lt a b = ltb ((a + 128) % 256) ((b + 128) % 256)

-- `*str == ch` for a `char` and a `uint8_t`: a negative char equals no unsigned byte.
abbrev pub char_eq_u8 : ℕ → ℕ → Bool
char_eq_u8 c ch = (c == ch) && ltb c 128

unfoldable pub set_loop : Memory → ℕ → ℕ → ℕ → Memory
set_loop m dst value zero = m
set_loop m dst value (suc size) = set_loop (update m dst value) (dst + 1) value size

unfoldable pub memset : Memory → ℕ → ℕ → ℕ → Run Memory
unfolding set_loop
memset m dst value size = do assert (not (dst == 0)); done (set_loop m dst value size)

unfoldable pub copy_loop : Memory → ℕ → ℕ → ℕ → Memory
copy_loop m dst src zero = m
copy_loop m dst src (suc size) = copy_loop (update m dst (m src)) (dst + 1) (src + 1) size

unfoldable pub memcpy : Memory → ℕ → ℕ → ℕ → Run Memory
unfolding copy_loop
memcpy m dst src size = do
  assert (not (dst == 0) && not (src == 0))
  done (copy_loop m dst src size)

unfoldable pub cmp_loop : Memory → ℕ → ℕ → ℕ → Sign
cmp_loop m a b zero = nought
cmp_loop m a b (suc size) =
    let rest = cmp_loop m (a + 1) (b + 1) size in
    if m a == m b then rest else (if char_lt (m b) (m a) then plus else minus)

unfoldable pub memcmp : Memory → ℕ → ℕ → ℕ → Run Sign
unfolding cmp_loop
memcmp m a b size = do assert (not (a == 0) || not (b == 0)); done (cmp_loop m a b size)

-- while ((*dst_++ = *src_++));
unfoldable pub copy_string : ℕ → Memory → ℕ → ℕ → Option Memory
copy_string zero m dst src = none
copy_string (suc fuel) m dst src =
    let c = m src in
    let rest = copy_string fuel (update m dst c) (dst + 1) (src + 1) in
    if c == 0 then some (update m dst c) else rest

unfoldable pub strcpy : ℕ → Memory → ℕ → ℕ → Run Memory
unfolding copy_string
strcpy fuel m dst src = do
  assert (not (dst == 0) && not (src == 0))
  ended (copy_string fuel m dst src)

-- while (*p++); the pointer stops behind the final 0.
unfoldable pub end_loop : ℕ → Memory → ℕ → Option ℕ
end_loop zero m p = none
end_loop (suc fuel) m p =
    let rest = end_loop fuel m (p + 1) in if m p == 0 then some (p + 1) else rest

unfoldable pub strlen : ℕ → Memory → ℕ → Run ℕ
unfolding end_loop
strlen fuel m str = do assert (not (str == 0)); p ← ended (end_loop fuel m str); done (p - str - 1)

unfoldable pub strcmp_loop : ℕ → Memory → ℕ → ℕ → Option Sign
strcmp_loop zero m a b = none
strcmp_loop (suc fuel) m a b =
    let rest = strcmp_loop fuel m (a + 1) (b + 1) in
    if not (m a == 0) && (m a == m b)
    then rest
    else some
        (if char_lt (m a) (m b) then minus else (if char_lt (m b) (m a) then plus else nought))

unfoldable pub strcmp : ℕ → Memory → ℕ → ℕ → Run Sign
unfolding strcmp_loop
strcmp fuel m a b = do assert (not (a == 0) && not (b == 0)); ended (strcmp_loop fuel m a b)

-- The result 0 is NULL.
unfoldable pub strchr_loop : ℕ → Memory → ℕ → ℕ → Option ℕ
strchr_loop zero m str ch = none
strchr_loop (suc fuel) m str ch =
    let rest = strchr_loop fuel m (str + 1) ch in
    if not (m str == 0) then (if char_eq_u8 (m str) ch then some str else rest) else some 0

unfoldable pub strchr : ℕ → Memory → ℕ → ℕ → Run ℕ
unfolding strchr_loop
strchr fuel m str ch = do assert (not (str == 0)); ended (strchr_loop fuel m str ch)

unfoldable pub strrchr_loop : ℕ → Memory → ℕ → ℕ → ℕ → Option ℕ
strrchr_loop zero m str ch last_char = none
strrchr_loop (suc fuel) m str ch last_char =
    let rest =
      strrchr_loop fuel m (str + 1) ch (if char_eq_u8 (m str) ch then str else last_char) in
    if not (m str == 0) then rest else some last_char

unfoldable pub strrchr : ℕ → Memory → ℕ → ℕ → Run ℕ
unfolding strrchr_loop
strrchr fuel m str ch = do assert (not (str == 0)); ended (strrchr_loop fuel m str ch 0)

unfoldable pub strcat : ℕ → Memory → ℕ → ℕ → Run Memory
unfolding end_loop copy_string
strcat fuel m dst src = do
  assert (not (dst == 0) && not (src == 0))
  str ← ended (end_loop fuel m dst)
  ended (copy_string fuel m (str - 1) src)

unfoldable pub strchrs_loop : ℕ → Memory → ℕ → ℕ → ℕ → Option ℕ
strchrs_loop zero m p ch ch_cnt = none
strchrs_loop (suc fuel) m p ch ch_cnt =
    let rest =
      strchrs_loop fuel m (p + 1) ch (if char_eq_u8 (m p) ch then add32 ch_cnt 1 else ch_cnt) in
    if not (m p == 0) then rest else some ch_cnt

unfoldable pub strchrs : ℕ → Memory → ℕ → ℕ → Run ℕ
unfolding strchrs_loop
strchrs fuel m str ch = do assert (not (str == 0)); ended (strchrs_loop fuel m str ch 0)

-- The bytes of `s`, none of them 0, stand from `p` on, and a 0 behind them.
abbrev pub IsString : Memory → ℕ → List ℕ → Type 0
IsString m p [] = m p ≡ 0
IsString m p (c ∷ s) = (m p ≡ c) × (c ≢ 0) × IsString m (p + 1) s
