-- ===== src/Sandbox/Sanitizer.antt =====
-- src/sandbox/command-sanitizer.ts: which commands may run in the sandbox.
pub mod Laws
mod Tests
use bolder_vibes_backend.Common.{
  ℕ, String, Bool, true, false, ◌&&◌, ◌||◌, Option, none, some, List, [], ◌∷◌, ◌++◌, ◌==◌, any,
  if◌then◌else◌,
}
use mathlib.Core.List.{reverse}
use bolder_vibes_backend.Sandbox.Regex.{
  codes, is_space, Atom, one, boundary, spaces, one_of, Regex, literal, test, test_at_start,
}

-- Two texts of code units are the same.
unfoldable pub same_text : List ℕ → List ℕ → Bool
same_text [] [] = true
same_text (c ∷ s) (d ∷ t) = c == d && same_text s t
same_text _ _ = false

abbrev pub allowed_base_commands : List (List ℕ)
allowed_base_commands =
    codes "npm"
    ∷ codes "npx"
    ∷ codes "node"
    ∷ codes "yarn"
    ∷ codes "pnpm"
    ∷ codes "cat"
    ∷ codes "ls"
    ∷ codes "mkdir"
    ∷ codes "cp"
    ∷ codes "mv"
    ∷ codes "rm"
    ∷ codes "echo"
    ∷ codes "cd"
    ∷ codes "pwd"
    ∷ codes "which"
    ∷ codes "python"
    ∷ codes "python3"
    ∷ codes "pip"
    ∷ codes "pip3"
    ∷ []

-- `\bw\b`.
abbrev whole_word : List ℕ → Regex
whole_word w = boundary ∷ (literal w ++ boundary ∷ [])

-- `[;|`]`, the first pattern.
abbrev pub is_chaining : ℕ → Bool
is_chaining c = c == b';' || c == b'|' || c == b'`'

abbrev pub chaining : Regex
chaining = one is_chaining ∷ []

abbrev pub substitution : Regex
substitution = literal (codes "$(")

abbrev pub expansion : Regex
expansion = literal (codes "${")

abbrev pub output_redirection : Regex
output_redirection = one_of (codes ">" ∷ codes ">>" ∷ []) ∷ []

abbrev pub input_redirection : Regex
input_redirection = one_of (codes "<" ∷ codes "<<" ∷ []) ∷ []

-- `\b&&\b`.
abbrev pub and_operator : Regex
and_operator = whole_word (codes "&&")

abbrev pub or_operator : Regex
or_operator = literal (codes "||")

abbrev pub registry : Regex
registry =
    literal (codes "npm")
    ++ spaces
      ∷ one_of (
          codes "publish"
          ∷ codes "login"
          ∷ codes "adduser"
          ∷ codes "token"
          ∷ codes "owner"
          ∷ codes "access"
          ∷ [])
      ∷ []

abbrev pub dangerous_patterns : List Regex
dangerous_patterns =
    chaining
    ∷ substitution
    ∷ expansion
    ∷ output_redirection
    ∷ input_redirection
    ∷ and_operator
    ∷ or_operator
    ∷ whole_word (codes "eval")
    ∷ whole_word (codes "exec")
    ∷ whole_word (codes "source")
    ∷ whole_word (codes "curl")
    ∷ whole_word (codes "wget")
    ∷ whole_word (codes "nc")
    ∷ literal (codes "/etc/")
    ∷ literal (codes "/proc/")
    ∷ literal (codes "/dev/")
    ∷ registry
    ∷ (literal (codes "--global") ++ boundary ∷ [])
    ∷ (one is_space ∷ (literal (codes "-g") ++ boundary ∷ []))
    ∷ []

abbrev pub installs : Regex
installs =
    one_of (codes "npm" ∷ codes "yarn" ∷ codes "pnpm" ∷ [])
    ∷ spaces
    ∷ one_of (codes "install" ∷ codes "i" ∷ codes "add" ∷ [])
    ∷ boundary
    ∷ []

abbrev pub from_url : Regex
from_url = one_of (codes "http://" ∷ codes "https://" ∷ []) ∷ []

abbrev pub from_tarball : Regex
from_tarball = literal (codes ".tgz") ++ boundary ∷ []

-- `s.trim()`.
unfoldable pub trim_start : List ℕ → List ℕ
unfolding is_space
trim_start [] = []
trim_start (c ∷ s) = if is_space c then trim_start s else c ∷ s

unfoldable pub trim : List ℕ → List ℕ
unfolding trim_start
trim s = reverse (trim_start (reverse (trim_start s)))

-- `s.split(/\s+/)[0]`: what stands before the first space.
unfoldable pub first_token : List ℕ → List ℕ
unfolding is_space
first_token [] = []
first_token (c ∷ s) = if is_space c then [] else c ∷ first_token s

-- `isValid: true`, or why not. A refused pattern is given by itself instead of by its text.
pub data Verdict : Type 0 where
  valid : Verdict
  empty : Verdict
  disallowed_pattern : Regex → Verdict
  not_allowed : List ℕ → Verdict
  from_url_or_tarball : Verdict

-- The loop over the patterns: the first that is found.
unfoldable pub first_match : List Regex → List ℕ → Option Regex
first_match [] s = none
first_match (r ∷ rs) s = if test r s then some r else first_match rs s

-- The checks on the trimmed text, after the patterns.
unfoldable pub check_base : List ℕ → Verdict
check_base trimmed =
    if any (same_text (first_token trimmed)) allowed_base_commands
    then (if test_at_start installs trimmed && (test from_url trimmed || test from_tarball trimmed)
        then from_url_or_tarball
        else valid)
    else not_allowed (first_token trimmed)

abbrev is_empty : List ℕ → Bool
is_empty [] = true
is_empty (c ∷ s) = false

unfoldable pub sanitize_command : List ℕ → Verdict
sanitize_command command =
    let trimmed = trim command in
    if is_empty trimmed then empty else elim (first_match dangerous_patterns trimmed) [
      | some r ↦ disallowed_pattern r
      | none ↦ check_base trimmed
    ]
