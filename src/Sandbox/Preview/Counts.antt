-- ===== src/Sandbox/Preview/Counts.antt =====
-- Counting in Redis sets: members that pass a test, over lists that hold a member once.
use bolder_vibes_backend.Common.{
  ℕ, suc, ◌≤◌, ◌≡◌, Bool, true, false, List, [], ◌∷◌, arith, ◌==◌, has, erase, filter, length,
  Distinct, has-erase, erase-Distinct, Bool-cases, inl, inr,
}

pub length-filter-erase :
    (f : ℕ → Bool) (x : ℕ) (ys : List ℕ)
    → has x ys ≡ true
    → f x ≡ true
    → length (filter f ys) ≡ suc (length (filter f (erase x ys)))
length-filter-erase f x [] h t = cc
length-filter-erase f x (y ∷ ys) h t = ground (arith, length-filter-erase f x ys)

pub length-filter-le-erase :
    (f : ℕ → Bool) (x : ℕ) (ys : List ℕ)
    → length (filter f ys) ≤ suc (length (filter f (erase x ys)))
length-filter-le-erase f x [] = omega arith
length-filter-le-erase f x (y ∷ ys) = ground (arith, length-filter-le-erase f x ys)

-- What passes `f` among `xs` stands in `ys` and passes `g` there.
abbrev pub Within : (f g : ℕ → Bool) → List ℕ → List ℕ → Type 0
Within f g xs ys = (j : ℕ) → has j xs ≡ true → f j ≡ true → (has j ys ≡ true) × (g j ≡ true)

Within-erase :
    (f g : ℕ → Bool) (x : ℕ) (xs ys : List ℕ)
    → has x xs ≡ false
    → Distinct ys
    → Within f g (x ∷ xs) ys
    → Within f g xs (erase x ys)
Within-erase f g x xs ys new d w j h t = elim (Bool-cases (x == j)) [
  | inl e ↦ absurd (ground arith)
  | inr ne ↦
      let (there, passes) = w j (ground arith) t in (ground (arith, has-erase j x ys d), passes)
]

pub length-filter-le :
    (f g : ℕ → Bool) (xs ys : List ℕ)
    → Distinct xs
    → Distinct ys
    → Within f g xs ys
    → length (filter f xs) ≤ length (filter g ys)
length-filter-le f g [] ys dx dy w = omega arith
length-filter-le f g (x ∷ xs) ys dx dy w = elim (Bool-cases (f x)) [
  | inl passes ↦
      let (there, passes') = w x (ground arith) passes in
      ground (
        arith,
        length-filter-erase g x ys there passes',
        length-filter-le f g xs (erase x ys) dx.1 (erase-Distinct x ys dy)
            (Within-erase f g x xs ys dx.0 dy w),
      )
  | inr fails ↦ ground (arith, length-filter-le f g xs ys dx.1 dy (λ j h. w j (ground arith)))
]
