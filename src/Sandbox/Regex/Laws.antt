-- ===== src/Sandbox/Regex/Laws.antt =====
-- What it means that a pattern of src/sandbox/command-sanitizer.ts is found in a text, or is not.
use bolder_vibes_backend.Common.{
  ℕ, ◌≡◌, refl, ap, ◌⊎◌, inl, inr, Bool, true, false, Option, none, some, List, [], ◌∷◌, ◌++◌, All,
  arith, Bool-cases, ==_refl,
}
use bolder_vibes_backend.Sandbox.Regex.{
  one, one_of, Regex, literal, match_here, literal_then, search_from, test,
}

-- A place of the text where `t` stands.
abbrev pub Occurs : List ℕ → List ℕ → Type 0
Occurs t s = (before after : List ℕ) × (s ≡ before ++ (t ++ after))

-- The character before the place that `before` leads up to.
abbrev pub last_of : Option ℕ → List ℕ → Option ℕ
last_of prev [] = prev
last_of prev (c ∷ s) = last_of (some c) s

-- A match at some place is found.
pub search_from_complete :
    (r : Regex) (prev : Option ℕ) (before suffix : List ℕ)
    → match_here r (last_of prev before) suffix ≡ true
    → search_from r prev (before ++ suffix) ≡ true
unfolding search_from
search_from_complete r prev [] [] h = h
search_from_complete r prev [] (c ∷ s) h = rw h
search_from_complete r prev (c ∷ before) suffix h =
    ground (arith, search_from_complete r (some c) before suffix h)

-- What is found is a match at some place.
pub search_from_sound :
    (r : Regex) (prev : Option ℕ) (s : List ℕ)
    → search_from r prev s ≡ true
    → (before suffix : List ℕ) × (s ≡ before ++ suffix)
      × (match_here r (last_of prev before) suffix ≡ true)
unfolding search_from
search_from_sound r prev [] h = ([], [], refl, h)
search_from_sound r prev (c ∷ s) h = elim (Bool-cases (match_here r prev (c ∷ s))) [
  | inl here ↦ ([], c ∷ s, refl, here)
  | inr not_here ↦
      let (before, suffix, e, m) = search_from_sound r (some c) s (ground arith) in
      (c ∷ before, suffix, ap (λ t. c ∷ t) e, m)
]

-- A character class is not found: no character is in it.
search_from-one_All :
    (p : ℕ → Bool) (prev : Option ℕ) (s : List ℕ)
    → search_from (one p ∷ []) prev s ≡ false
    → All (λ c. p c ≡ false) s
unfolding search_from
search_from-one_All p prev [] h = tt
search_from-one_All p prev (c ∷ s) h =
    let later : search_from (one p ∷ []) (some c) s ≡ false = ground arith in
    (ground arith, search_from-one_All p (some c) s later)

pub test-one_All :
    (p : ℕ → Bool) (s : List ℕ) → test (one p ∷ []) s ≡ false → All (λ c. p c ≡ false) s
unfolding test
test-one_All p s h = search_from-one_All p none s h

match_here-literal :
    (w after : List ℕ) (prev : Option ℕ) → match_here (literal w) prev (w ++ after) ≡ true
unfolding match_here
match_here-literal [] after prev = refl
match_here-literal (c ∷ w) after prev = rw (==_refl c, match_here-literal w after (some c))

-- A literal text is not found: it stands nowhere.
pub test-literal_not-Occurs : (w s : List ℕ) → test (literal w) s ≡ false → ¬ (Occurs w s)
unfolding test
test-literal_not-Occurs w s h (before, after, e) =
    let found : search_from (literal w) none (before ++ (w ++ after)) ≡ true =
      search_from_complete (literal w) none before (w ++ after)
        (match_here-literal w after (last_of none before)) in
    cc (ap (search_from (literal w) none) e)

literal_then_lem :
    (w after : List ℕ) (prev : Option ℕ) → literal_then (match_here []) w prev (w ++ after) ≡ true
unfolding match_here
literal_then_lem [] after prev = refl
literal_then_lem (c ∷ w) after prev = rw (==_refl c, literal_then_lem w after (some c))

match_here-one_of :
    (w after : List ℕ) (ws : List (List ℕ)) (prev : Option ℕ)
    → match_here (one_of (w ∷ ws) ∷ []) prev (w ++ after) ≡ true
match_here-one_of w after ws prev = unfold match_here in rw (literal_then_lem w after prev)

-- The first of some texts is not found.
pub test-one_of_not-Occurs :
    (w : List ℕ) (ws : List (List ℕ)) (s : List ℕ)
    → test (one_of (w ∷ ws) ∷ []) s ≡ false
    → ¬ (Occurs w s)
unfolding test
test-one_of_not-Occurs w ws s h (before, after, e) =
    let found : search_from (one_of (w ∷ ws) ∷ []) none (before ++ (w ++ after)) ≡ true =
      search_from_complete (one_of (w ∷ ws) ∷ []) none before (w ++ after)
        (match_here-one_of w after ws (last_of none before)) in
    cc (ap (search_from (one_of (w ∷ ws) ∷ []) none) e)

-- The character before a place, if there is one, ends the text before it.
last_of-some :
    (prev : Option ℕ) (before : List ℕ) (c : ℕ)
    → last_of prev before ≡ some c
    → ((before ≡ []) × (prev ≡ some c)) ⊎ ((b : List ℕ) × (before ≡ b ++ c ∷ []))
last_of-some prev [] c h = inl (refl, h)
last_of-some prev (d ∷ s) c h = elim (last_of-some (some d) s c h) [
  | inl (e, q) ↦ inr ([], ground arith)
  | inr (b, e) ↦ inr (d ∷ b, ap (λ t. d ∷ t) e)
]

pub last_of-none :
    (before : List ℕ) (c : ℕ) → last_of none before ≡ some c → (b : List ℕ) × (before ≡ b ++ c ∷ [])
last_of-none before c h = elim (last_of-some none before c h) [ inl (e, q) ↦ cc | inr r ↦ r ]

pub last_of-append : (prev : Option ℕ) (b : List ℕ) (c : ℕ) → last_of prev (b ++ c ∷ []) ≡ some c
last_of-append prev [] c = refl
last_of-append prev (d ∷ b) c = last_of-append (some d) b c
