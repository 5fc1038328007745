-- ===== src/Stdio/Text.antt =====
-- The text that vsprintf writes.
use enix.Base.{
  ℕ, suc, ◌+◌, ◌-◌, ◌%◌, ◌^◌, ◌==◌, ◌≡◌, ◌≤◌, ◌<◌, refl, ◌∙◌, sym, Bool, true, false, not, ◌&&◌,
  List, [], ◌∷◌, ◌++◌, length, length-append, arith, ltb, if◌then◌else◌, u32_mod, Run, done,
}
use enix.Strings.{Memory}
use enix.Stdio.{Writer, emit, copy_string, Directive, char, int, text, hex, other, directive}
use enix.Stdio.Numerals.{emit_all, numeral}

abbrev pub argument_text : Directive → (ℕ → List ℕ) → ℕ → List ℕ
argument_text char strings word = word % 256 ∷ []
argument_text int strings word =
    if ltb word (2 ^ 31) then numeral word 10 else 45 ∷ numeral (u32_mod - word) 10
argument_text text strings word = strings word
argument_text hex strings word = numeral word 16
argument_text other strings word = []

-- The text of a format and of the arguments from one on.
abbrev pub formatted : List ℕ → (ℕ → List ℕ) → (ℕ → ℕ) → ℕ → List ℕ
formatted [] strings args n = []
formatted (c ∷ []) strings args n = if c == 37 then [] else c ∷ []
formatted (c ∷ d ∷ rest) strings args n = elim (c == 37) [
  | false ↦ c ∷ formatted (d ∷ rest) strings args n
  | true ↦ elim (directive d) [
    | other ↦ formatted (d ∷ rest) strings args n
    | char ↦ argument_text char strings (args n) ++ formatted rest strings args (n + 1)
    | int ↦ argument_text int strings (args n) ++ formatted rest strings args (n + 1)
    | text ↦ argument_text text strings (args n) ++ formatted rest strings args (n + 1)
    | hex ↦ argument_text hex strings (args n) ++ formatted rest strings args (n + 1)
  ]
]

-- No `%s` of a format takes the word 0.
abbrev pub no_null_behind : Directive → Bool → Bool → Bool → Bool
no_null_behind other again behind some_word = again
no_null_behind text again behind some_word = some_word && behind
no_null_behind char again behind some_word = behind
no_null_behind int again behind some_word = behind
no_null_behind hex again behind some_word = behind

abbrev pub no_null : List ℕ → (ℕ → ℕ) → ℕ → Bool
no_null [] args n = true
no_null (c ∷ []) args n = true
no_null (c ∷ d ∷ rest) args n =
    let again = no_null (d ∷ rest) args n in
    let behind = no_null rest args (n + 1) in
    if c == 37 then no_null_behind (directive d) again behind (not (args n == 0)) else again

-- The bytes `cs` stand from `p` on.
abbrev pub Stands : Memory → ℕ → List ℕ → Type 0
Stands m p [] = Unit {0}
Stands m p (c ∷ cs) = (m p ≡ c) × Stands m (p + 1) cs

Stands-kept :
    (m m' : Memory) (p : ℕ) (cs : List ℕ)
    → ((a : ℕ) → a < p + length cs → m' a ≡ m a)
    → Stands m p cs
    → Stands m' p cs
Stands-kept m m' p [] same h = tt
Stands-kept m m' p (c ∷ cs) same (e, h) =
    (same p (omega arith) ∙ e, Stands-kept m m' (p + 1) cs (λ a k. same a (omega (arith, k))) h)

Stands-append :
    (m : Memory) (p : ℕ) (cs ds : List ℕ)
    → Stands m p cs
    → Stands m (p + length cs) ds
    → Stands m p (cs ++ ds)
Stands-append m p [] ds h k = let e : p ≡ p + 0 = omega arith in rw e k
Stands-append m p (c ∷ cs) ds (e, h) k =
    let q : p + 1 + length cs ≡ p + suc (length cs) = omega arith in
    (e, Stands-append m (p + 1) cs ds h (rw q k))

-- `cs` was written between the pointer and where it is then: nothing below has changed, and what was 0
-- from the new pointer on still is.
pub record Wrote (cs : List ℕ) (w w' : Writer) : Type 0 where
  pub moved : w'.buf_ptr ≡ w.buf_ptr + length cs
  pub stands : Stands w'.cells w.buf_ptr cs
  pub kept : (a : ℕ) → a < w.buf_ptr → w'.cells a ≡ w.cells a
  pub clean : (a : ℕ) → w'.buf_ptr ≤ a → w.cells a ≡ 0 → w'.cells a ≡ 0

pub Wrote-nothing : (w : Writer) → Wrote [] w w
Wrote-nothing w = record {
  moved = omega arith;
  stands = tt;
  kept = λ a h. refl;
  clean = λ a h z. z;
}

pub Wrote-emit : (c : ℕ) (w : Writer) → Wrote (c ∷ []) w (emit c w)
Wrote-emit c w = record {
  moved = refl;
  stands = (ground arith, tt);
  kept = λ a h. ground (arith, h);
  clean = λ a h z. ground (arith, h, z);
}

pub Wrote-append :
    (cs ds : List ℕ) (w w1 w2 : Writer) → Wrote cs w w1 → Wrote ds w1 w2 → Wrote (cs ++ ds) w w2
Wrote-append cs ds w w1 w2 x y = record {
  moved = omega (arith, x.moved, y.moved, length-append cs ds);
  stands =
      Stands-append w2.cells w.buf_ptr cs ds
        (Stands-kept w1.cells w2.cells w.buf_ptr cs (λ a h. y.kept a (omega (arith, h, x.moved)))
          x.stands)
        (rw (sym x.moved) y.stands);
  kept = λ a h. y.kept a (omega (arith, h, x.moved)) ∙ x.kept a h;
  clean = λ a h z. y.clean a h (x.clean a (omega (arith, h, y.moved)) z);
}

pub Wrote-emit_all : (cs : List ℕ) (w : Writer) → Wrote cs w (emit_all cs w)
Wrote-emit_all [] w = Wrote-nothing w
Wrote-emit_all (c ∷ cs) w =
    Wrote-append (c ∷ []) cs w (emit c w) (emit_all cs (emit c w)) (Wrote-emit c w)
      (Wrote-emit_all cs (emit c w))

pub Wrote-string : (s : List ℕ) (w : Writer) → Wrote s w (copy_string s w)
unfolding copy_string
Wrote-string [] w = record {
  moved = omega arith;
  stands = tt;
  kept = λ a h. ground (arith, h);
  clean = λ a h z. ground (arith, z);
}
Wrote-string (c ∷ s) w =
    Wrote-append (c ∷ []) s w (emit c w) (copy_string s (emit c w)) (Wrote-emit c w)
      (Wrote-string s (emit c w))

-- A run that ends and wrote `cs`.
abbrev pub EndsWith : List ℕ → Writer → Run Writer → Type 0
EndsWith cs w result = (w' : Writer) × (result ≡ done w') × Wrote cs w w'
