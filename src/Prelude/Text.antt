-- ===== src/Prelude/Text.antt =====
-- Texts that are compared and cut, as native strings.
use Prim.Native.Nat.{ℕ, suc}
use Prim.Native.String.{String}
use text.Mathlib.Text.{◌==◌}
use mathlib.Core.Bool.{Bool}

-- Two texts are the same.
abbrev pub same : String → String → Bool
same a b = a == b

abbrev pub text_length : String → ℕ
text_length String.[] = 0
text_length (String.◌∷◌ c s) = suc (text_length s)
