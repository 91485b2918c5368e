-- ===== src/Sandbox/Sanitizer/Laws.antt =====
-- What an accepted command holds, and what the pattern for `&&` catches.
use bolder_vibes_backend.Common.{
  ℕ, ◌≡◌, refl, sym, ap, ◌∙◌, ◌↔◌, inl, inr, true, false, Option, none, some, List, [], ◌∷◌, ◌++◌,
  All, arith, Bool-cases, append_assoc, any,
}
use mathlib.Core.List.{Memᴰ}
use bolder_vibes_backend.Sandbox.Regex.{codes, Regex, match_here, search_from, test, is_word}
use bolder_vibes_backend.Sandbox.Regex.Laws.{
  Occurs, last_of-none, last_of-append, search_from_sound, search_from_complete, test-one_All,
  test-literal_not-Occurs, test-one_of_not-Occurs,
}
use bolder_vibes_backend.Sandbox.Sanitizer.{
  valid, sanitize_command, trim, first_match, check_base, first_token, same_text,
  dangerous_patterns, allowed_base_commands, and_operator, is_chaining,
}

first_match-none :
    (rs : List Regex) (s : List ℕ) → first_match rs s ≡ none → All (λ r. test r s ≡ false) rs
unfolding first_match
first_match-none [] s h = tt
first_match-none (r ∷ rs) s h = elim (Bool-cases (test r s)) [
  | inl found ↦ ground arith
  | inr absent ↦ (absent, first_match-none rs s (ground arith))
]

same_text_sound : (s t : List ℕ) → same_text s t ≡ true → s ≡ t
unfolding same_text
same_text_sound [] [] h = refl
same_text_sound [] (d ∷ t) h = cc
same_text_sound (c ∷ s) [] h = cc
same_text_sound (c ∷ s) (d ∷ t) h = ground (arith, same_text_sound s t)

any-same_text : (s : List ℕ) (ts : List (List ℕ)) → any (same_text s) ts ≡ true → Memᴰ s ts
any-same_text s [] h = cc
any-same_text s (t ∷ ts) h = elim (Bool-cases (same_text s t)) [
  | inl same ↦ Memᴰ.head (same_text_sound s t same)
  | inr other ↦ Memᴰ.tail (any-same_text s ts (ground arith))
]

check_base-valid :
    (s : List ℕ)
    → check_base s ≡ valid
    → any (same_text (first_token s)) allowed_base_commands ≡ true
unfolding check_base
check_base-valid s h = ground arith

valid_parts :
    (command : List ℕ)
    → sanitize_command command ≡ valid
    → (first_match dangerous_patterns (trim command) ≡ none) × (check_base (trim command) ≡ valid)
unfolding sanitize_command
valid_parts command h = ground arith

-- An accepted command, trimmed, holds no `;`, `|` or backtick, no substitution or expansion, no
-- redirection and no path into /etc, /proc or /dev, and its first word is an allowed command.
pub accepted_is_confined :
    (command : List ℕ)
    → sanitize_command command ≡ valid
    → let s = trim command in
      All (λ c. is_chaining c ≡ false) s
      × (¬ (Occurs (codes "$(") s))
      × (¬ (Occurs (codes "${") s))
      × (¬ (Occurs (codes ">") s))
      × (¬ (Occurs (codes "<") s))
      × (¬ (Occurs (codes "/etc/") s))
      × (¬ (Occurs (codes "/proc/") s))
      × (¬ (Occurs (codes "/dev/") s))
      × Memᴰ (first_token s) allowed_base_commands
accepted_is_confined command h =
    let (no_match, base) = valid_parts command h in
    let absent = first_match-none dangerous_patterns (trim command) no_match in
    (
      test-one_All is_chaining _ absent.0,
      test-literal_not-Occurs (codes "$(") _ absent.1.0,
      test-literal_not-Occurs (codes "${") _ absent.1.1.0,
      test-one_of_not-Occurs (codes ">") (codes ">>" ∷ []) _ absent.1.1.1.0,
      test-one_of_not-Occurs (codes "<") (codes "<<" ∷ []) _ absent.1.1.1.1.0,
      test-literal_not-Occurs (codes "/etc/") _ absent.1.1.1.1.1.1.1.1.1.1.1.1.1.0,
      test-literal_not-Occurs (codes "/proc/") _ absent.1.1.1.1.1.1.1.1.1.1.1.1.1.1.0,
      test-literal_not-Occurs (codes "/dev/") _ absent.1.1.1.1.1.1.1.1.1.1.1.1.1.1.1.0,
      any-same_text _ _ (check_base-valid _ base),
    )

word_not_amp : is_word b'&' ≡ false
unfolding is_word
word_not_amp = refl

-- What `\b&&\b` matches at a place: a word character before, `&&`, and a word character after.
abbrev AndHere : Option ℕ → List ℕ → Type 0
AndHere prev s =
    (c d : ℕ) × (after : List ℕ) × (prev ≡ some c)
    × (s ≡ b'&' ∷ b'&' ∷ d ∷ after)
    × (is_word c ≡ true)
    × (is_word d ≡ true)

AndHere-sound :
    (prev : Option ℕ) (s : List ℕ) → match_here and_operator prev s ≡ true → AndHere prev s
unfolding match_here
AndHere-sound none [] h = cc
AndHere-sound none (x ∷ s) h = ground (arith, word_not_amp)
AndHere-sound (some c) [] h = ground (arith, word_not_amp)
AndHere-sound (some c) (x ∷ []) h = ground (arith, word_not_amp)
AndHere-sound (some c) (x ∷ y ∷ []) h = ground (arith, word_not_amp)
AndHere-sound (some c) (x ∷ y ∷ d ∷ after) h = (
  c,
  d,
  after,
  refl,
  ground (arith, word_not_amp),
  ground (arith, word_not_amp),
  ground (arith, word_not_amp),
)

AndHere-complete :
    (c d : ℕ) (after : List ℕ)
    → is_word c ≡ true
    → is_word d ≡ true
    → match_here and_operator (some c) (b'&' ∷ b'&' ∷ d ∷ after) ≡ true
unfolding match_here
AndHere-complete c d after p q = rw (p, q, word_not_amp)

-- `&&` with a word character on both sides stands in the text.
abbrev pub TightAnd : List ℕ → Type 0
TightAnd s =
    (before : List ℕ) × (c d : ℕ) × (after : List ℕ) × (s ≡ before ++ (c ∷ b'&' ∷ b'&' ∷ d ∷ after))
    × (is_word c ≡ true)
    × (is_word d ≡ true)

regroup : (b suffix : List ℕ) (c : ℕ) → (b ++ c ∷ []) ++ suffix ≡ b ++ (c ∷ suffix)
regroup b suffix c = append_assoc b (c ∷ []) suffix

and_found_sound : (s : List ℕ) → search_from and_operator none s ≡ true → TightAnd s
and_found_sound s h =
    let (before, suffix, e, m) = search_from_sound and_operator none s h in
    let (c, d, after, last, rest, p, q) = AndHere-sound _ suffix m in
    let (b, eb) = last_of-none before c last in
    (
      b,
      c,
      d,
      after,
      e ∙ ap (λ t. t ++ suffix) eb ∙ regroup b suffix c ∙ ap (λ t. b ++ (c ∷ t)) rest,
      p,
      q,
    )

and_found_complete : (s : List ℕ) → TightAnd s → search_from and_operator none s ≡ true
and_found_complete s (before, c, d, after, e, p, q) =
    let split : s ≡ (before ++ c ∷ []) ++ (b'&' ∷ b'&' ∷ d ∷ after) =
      e ∙ sym (regroup before (b'&' ∷ b'&' ∷ d ∷ after) c) in
    rw split (
      search_from_complete and_operator none (before ++ c ∷ []) (b'&' ∷ b'&' ∷ d ∷ after)
        (rw (last_of-append none before c) (AndHere-complete c d after p q)))

-- The pattern for `&&` is found exactly where a word character stands on both sides of it; so
-- `a && b`, with the usual spaces, is not caught.
pub and_operator_iff : (s : List ℕ) → (test and_operator s ≡ true) ↔ TightAnd s
unfolding test
and_operator_iff s = (and_found_sound s, and_found_complete s)
