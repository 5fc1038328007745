-- ===== src/Stdio.antt =====
-- lib/stdio.c: numerals, and the text of vsprintf.
--
-- The buffer is written through a memory and a pointer into it. A format, and a string argument, is the
-- list of its bytes before the final 0, for which the buffer leaves room; the arguments are the words
-- of the caller's stack, by their index, and a `%s` word is the address of a string. Strings and format
-- do not lie in the buffer.
pub mod Numerals
pub mod Text
pub mod Format
use enix.Base.{
  ℕ, zero, suc, ◌+◌, ◌-◌, ◌*◌, ◌/◌, ◌%◌, ◌^◌, ◌==◌, Bool, true, false, Option, none, some, List, [],
  ◌∷◌, length, ltb, if◌then◌else◌, u32_mod, update, Run, done, spins, ◌>>=◌, ◌>>◌, assert, not,
  ◌&&◌,
}
use enix.Strings.{Memory, strlen}

-- The buffer and buf_ptr.
pub record Writer : Type 0 where
  pub cells : Memory
  pub buf_ptr : ℕ

-- *buf_ptr++ = c
abbrev pub emit : ℕ → Writer → Writer
emit c w = record { cells = update w.cells w.buf_ptr c; buf_ptr = w.buf_ptr + 1 }

abbrev pub digit : ℕ → ℕ
digit m = if ltb m 10 then m + 48 else m - 10 + 65

-- The recursion of itoa, by the calls left.
unfoldable pub itoa_call : ℕ → ℕ → ℕ → Writer → Run Writer
itoa_call zero value base w = spins
itoa_call (suc fuel) value base w = elim (value / base) [
  | zero ↦ done (emit (digit (value % base)) w)
  | suc i ↦ do w' ← itoa_call fuel (suc i) base w; done (emit (digit (value % base)) w')
]

-- A call for a number has at most that number of calls below it.
unfoldable pub itoa : ℕ → ℕ → Writer → Run Writer
unfolding itoa_call
itoa value base w = itoa_call (value + 1) value base w

-- strcpy(buf_ptr, arg_str); buf_ptr += strlen(arg_str), behind their asserts.
unfoldable pub copy_string : List ℕ → Writer → Writer
copy_string [] w = record w { cells = update w.cells w.buf_ptr 0 }
copy_string (c ∷ s) w = copy_string s (emit c w)

unfoldable pub put_string : ℕ → List ℕ → Writer → Run Writer
unfolding copy_string
put_string arg_str s w =
    assert (not (w.buf_ptr == 0) && not (arg_str == 0)) >> done (copy_string s w)

-- The cases of the switch on the byte behind a '%', and the one of a byte that none of them names.
pub data Directive : Type 0 where
  char int text hex other : Directive

abbrev pub directive : ℕ → Directive
directive c =
    if c == 99
    then char
    else (if c == 100 then int else (if c == 115 then text else (if c == 120 then hex else other)))

-- Case 'd': the sign of an int32_t, and its magnitude.
unfoldable pub put_int : ℕ → Writer → Run Writer
unfolding itoa
put_int arg_int w =
    if ltb arg_int (2 ^ 31) then itoa arg_int 10 w else itoa (u32_mod - arg_int) 10 (emit 45 w)

-- One directive takes one word; a byte without a case takes none and is read again as an ordinary one.
unfoldable pub put_argument : Directive → (ℕ → List ℕ) → ℕ → Writer → Run Writer
unfolding put_string put_int
put_argument char strings word w = done (emit (word % 256) w)
put_argument int strings word w = put_int word w
put_argument text strings word w = put_string word (strings word) w
put_argument hex strings word w = itoa word 16 w
put_argument other strings word w = done w

unfoldable pub format_loop : List ℕ → (ℕ → List ℕ) → (ℕ → ℕ) → ℕ → Writer → Run Writer
format_loop [] strings args ap w = done w
format_loop (c ∷ []) strings args ap w = if c == 37 then done w else done (emit c w)
format_loop (c ∷ d ∷ rest) strings args ap w = elim (c == 37) [
  | false ↦ format_loop (d ∷ rest) strings args ap (emit c w)
  | true ↦ elim (directive d) [
    | other ↦ format_loop (d ∷ rest) strings args ap w
    | char ↦ do
      w' ← put_argument char strings (args ap) w
      format_loop rest strings args (ap + 1) w'
    | int ↦ do w' ← put_argument int strings (args ap) w; format_loop rest strings args (ap + 1) w'
    | text ↦ do
      w' ← put_argument text strings (args ap) w
      format_loop rest strings args (ap + 1) w'
    | hex ↦ do w' ← put_argument hex strings (args ap) w; format_loop rest strings args (ap + 1) w'
  ]
]

-- The memory behind it and strlen(str), on fuel.
unfoldable pub vsprintf : ℕ → Memory → ℕ → List ℕ → (ℕ → List ℕ) → (ℕ → ℕ) → Run (Memory × ℕ)
unfolding format_loop
vsprintf fuel m str format strings args = do
  w ← format_loop format strings args 0 (record { cells = m; buf_ptr = str })
  length ← strlen fuel w.cells str
  done (w.cells, length)
