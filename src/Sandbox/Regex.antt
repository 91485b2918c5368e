-- ===== src/Sandbox/Regex.antt =====
-- The part of JavaScript's regular expressions that src/sandbox/command-sanitizer.ts uses, over the
-- UTF-16 code units of a text.
pub mod Laws
use Prim.Native.Char.{code}
use bolder_vibes_backend.Common.{
  ℕ, String, Bool, true, false, not, ◌&&◌, ◌||◌, Option, none, some, List, [], ◌∷◌, ◌++◌, ◌==◌, leb,
  any, if◌then◌else◌,
}

-- The units of a text in the basic plane. `String` has its own `[]` and `∷`.
abbrev pub codes : String → List ℕ
codes String.[] = []
codes (String.◌∷◌ c s) = code c ∷ codes s

-- `\s`, which is also what `trim` strips.
unfoldable pub is_space : ℕ → Bool
is_space c =
    (leb 9 c && leb c 13)
    || c == 32
    || c == 0xa0
    || c == 0x1680
    || (leb 0x2000 c && leb c 0x200a)
    || c == 0x2028
    || c == 0x2029
    || c == 0x202f
    || c == 0x205f
    || c == 0x3000
    || c == 0xfeff

-- `\w`.
unfoldable pub is_word : ℕ → Bool
is_word c =
    (leb b'a' c && leb c b'z')
    || (leb b'A' c && leb c b'Z')
    || (leb b'0' c && leb c b'9')
    || c == b'_'

pub data Atom : Type 0 where
  one : (ℕ → Bool) → Atom  -- a character or a class
  boundary : Atom  -- `\b`
  spaces : Atom  -- `\s+`
  one_of : List (List ℕ) → Atom  -- `(a|b)` of literal texts

abbrev pub Regex : Type 0
Regex = List Atom

-- A literal text as atoms.
abbrev pub literal : List ℕ → Regex
literal [] = []
literal (c ∷ s) = one (λ d. d == c) ∷ literal s

abbrev word_at : Option ℕ → Bool
word_at none = false
word_at (some c) = is_word c

abbrev head : List ℕ → Option ℕ
head [] = none
head (c ∷ s) = some c

-- Just one of the characters on the two sides is a word character.
unfoldable pub at_boundary : Option ℕ → List ℕ → Bool
at_boundary prev s = if word_at prev then not (word_at (head s)) else word_at (head s)

-- What is left to match, given the character before and the rest of the text.
abbrev pub Rest : Type 0
Rest = Option ℕ → List ℕ → Bool

-- At least one space, any number of them, then `k`.
unfoldable pub spaces_then : Rest → List ℕ → Bool
spaces_then k [] = false
spaces_then k (c ∷ s) = is_space c && (k (some c) s || spaces_then k s)

unfoldable pub literal_then : Rest → List ℕ → Rest
literal_then k [] prev s = k prev s
literal_then k (c ∷ w) prev [] = false
literal_then k (c ∷ w) prev (d ∷ s) = d == c && literal_then k w (some d) s

unfoldable pub match_here : Regex → Rest
unfolding at_boundary spaces_then literal_then
match_here [] prev s = true
match_here (one p ∷ r) prev [] = false
match_here (one p ∷ r) prev (c ∷ s) = p c && match_here r (some c) s
match_here (boundary ∷ r) prev s = at_boundary prev s && match_here r prev s
match_here (spaces ∷ r) prev s = spaces_then (match_here r) s
match_here (one_of ws ∷ r) prev s = any (λ w. literal_then (match_here r) w prev s) ws

unfoldable pub search_from : Regex → Rest
unfolding match_here
search_from r prev [] = match_here r prev []
search_from r prev (c ∷ s) = match_here r prev (c ∷ s) || search_from r (some c) s

-- `r.test(s)`, and `r.test(s)` for a pattern that starts with `^`.
unfoldable pub test : Regex → List ℕ → Bool
unfolding search_from
test r s = search_from r none s

unfoldable pub test_at_start : Regex → List ℕ → Bool
unfolding match_here
test_at_start r s = match_here r none s
