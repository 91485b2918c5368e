-- ===== src/Common/Texts.antt =====
-- Texts split at a character.
use Prim.Native.Char.{Char, code}
use Prim.Native.String.{◌++◌}
use Prim.Native.String.append
use Prim.Native.Nat.{ℕ}
use Prim.Native.String.{String}
use mathlib.Core.Path.{◌≡◌, refl}
use mathlib.Core.Bool.{Bool, true, not, ◌&&◌}
use mathlib.Core.List.{List, [], ◌∷◌}
use native.Mathlib.Omega.{arith}
use bolder_vibes_backend.Common.Tests.{◌==◌, if◌then◌else◌, ==_iff}

abbrev prepend : Char → List String → List String
prepend c [] = (String.◌∷◌ c String.[]) ∷ []
prepend c (w ∷ ws) = (String.◌∷◌ c w) ∷ ws

-- `s.split(sep)`, by the code of a character.
unfoldable pub split : ℕ → String → List String
split sep String.[] = String.[] ∷ []
split sep (String.◌∷◌ c s) =
    let rest = split sep s in if code c == sep then String.[] ∷ rest else prepend c rest

-- The text does not hold the character.
abbrev pub is_free : ℕ → String → Bool
is_free sep String.[] = true
is_free sep (String.◌∷◌ c s) = not (code c == sep) && is_free sep s

-- What stands before the first separator is the first part.
pub split-append :
    (sep : ℕ) (s : String) (c : Char) (t : String)
    → is_free sep s ≡ true
    → code c ≡ sep
    → split sep (s ++ String.◌∷◌ c t) ≡ s ∷ split sep t
unfolding split
split-append sep String.[] c t h e =
    rw (append.nil (String.◌∷◌ c t)) (ground (arith, ==_iff (code c) sep))
split-append sep (String.◌∷◌ d s) c t h e =
    rw (append.cons d s (String.◌∷◌ c t)) (ground (arith, split-append sep s c t))

pub split-free : (sep : ℕ) (s : String) → is_free sep s ≡ true → split sep s ≡ s ∷ []
unfolding split
split-free sep String.[] h = refl
split-free sep (String.◌∷◌ d s) h = ground (arith, split-free sep s)
