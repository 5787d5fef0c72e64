-- ===== src/Prelude/Texts.antt =====
-- Python texts: `len(s)`, `s[:n]` and `t in s`.
use Prim.Native.Nat.{ℕ, zero, suc, ◌≤◌}
use Prim.Native.String.{String}
use mathlib.Core.Bool.{Bool, not}
use native.Mathlib.Omega.{arith}
use text.Mathlib.Text.{find?}
use outbox_fanout.Prelude.Tests.{is_none}

abbrev pub chars : String → ℕ
chars String.[] = 0
chars (String.◌∷◌ c s) = suc (chars s)

abbrev pub truncate : ℕ → String → String
truncate zero s = String.[]
truncate (suc n) String.[] = String.[]
truncate (suc n) (String.◌∷◌ c s) = String.◌∷◌ c (truncate n s)

-- `t in s`
abbrev pub contains : String → String → Bool
contains s t = not (is_none (find? s t))

pub chars-truncate-le : (n : ℕ) (s : String) → chars (truncate n s) ≤ n
chars-truncate-le zero s = omega arith
chars-truncate-le (suc n) String.[] = omega arith
chars-truncate-le (suc n) (String.◌∷◌ c s) = omega (arith, chars-truncate-le n s)
