-- ===== src/Prelude/Split.antt =====
-- `s.split(c)`, for the character with the code.
use Prim.Native.Nat.{ℕ}
use Prim.Native.Char.{Char, code}
use Prim.Native.String.{String}
use mathlib.Core.List.{List, [], ◌∷◌}
use structure.Prelude.Tests.{nat_same, if◌then◌else◌}

unfoldable pub in_front : Char → List String → List String
in_front c [] = String.◌∷◌ c String.[] ∷ []
in_front c (part ∷ parts) = String.◌∷◌ c part ∷ parts

unfoldable pub split_on : ℕ → String → List String
unfolding in_front
split_on mark String.[] = String.[] ∷ []
split_on mark (String.◌∷◌ c s) =
    if nat_same (code c) mark then String.[] ∷ split_on mark s else in_front c (split_on mark s)
