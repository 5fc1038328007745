-- ===== src/Stdio/Format.antt =====
-- vsprintf ends, and what stands in the buffer then.
use enix.Base.{ℕ, ◌+◌, Bool, List, ◌∷◌}
use enix.Stdio.{Directive, char, int, text, hex, other}
use enix.Stdio.Text.{no_null}

-- What a format without null words says of its first directive and of the rest.
abbrev rest_ok : Directive → ℕ → List ℕ → (ℕ → ℕ) → ℕ → Bool
rest_ok other d rest args n = no_null (d ∷ rest) args n
rest_ok text d rest args n = no_null rest args (n + 1)
rest_ok char d rest args n = no_null rest args (n + 1)
rest_ok int d rest args n = no_null rest args (n + 1)
rest_ok hex d rest args n = no_null rest args (n + 1)
