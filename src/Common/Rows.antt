-- ===== src/Common/Rows.antt =====
-- A row set: an in-memory `Set` of keys, as the services keep for the projects they work on.
use Prim.Native.Nat.{ℕ}
use mathlib.Core.Path.{◌≡◌}
use mathlib.Core.Bool.{Bool, true, false, ◌||◌}
use mathlib.Core.List.{List, [], ◌∷◌}
use native.Mathlib.Omega.{arith}
use bolder_vibes_backend.Common.Tests.{◌==◌, if◌then◌else◌}

-- `set.has(k)`.
abbrev pub has : ℕ → List ℕ → Bool
has k [] = false
has k (x ∷ xs) = x == k || has k xs

-- `set.add(k)`.
abbrev pub add : ℕ → List ℕ → List ℕ
add k xs = if has k xs then xs else k ∷ xs

-- `set.delete(k)`: a set holds a key once, and all its copies go.
abbrev pub remove : ℕ → List ℕ → List ℕ
remove k [] = []
remove k (x ∷ xs) = if x == k then remove k xs else x ∷ remove k xs

pub has-add : (j k : ℕ) (xs : List ℕ) → has j (add k xs) ≡ (if k == j then true else has j xs)
has-add j k [] = ground arith
has-add j k (x ∷ xs) = ground (arith, has-add j k xs)

pub has-remove :
    (j k : ℕ) (xs : List ℕ) → has j (remove k xs) ≡ (if k == j then false else has j xs)
has-remove j k [] = ground arith
has-remove j k (x ∷ xs) = ground (arith, has-remove j k xs)

-- A list that holds no key twice.
abbrev pub Distinct : List ℕ → Type 0
Distinct [] = Unit
Distinct (x ∷ xs) = (has x xs ≡ false) × Distinct xs

-- The first copy of a key goes.
abbrev pub erase : ℕ → List ℕ → List ℕ
erase k [] = []
erase k (x ∷ xs) = if x == k then xs else x ∷ erase k xs

pub has-erase :
    (j k : ℕ) (xs : List ℕ)
    → Distinct xs
    → has j (erase k xs) ≡ (if k == j then false else has j xs)
has-erase j k [] d = ground arith
has-erase j k (x ∷ xs) d = ground (arith, has-erase j k xs d.1)

pub erase-Distinct : (k : ℕ) (xs : List ℕ) → Distinct xs → Distinct (erase k xs)
erase-Distinct k [] d = tt
erase-Distinct k (x ∷ xs) d = ground (arith, erase-Distinct k xs d.1, has-erase x k xs d.1)
