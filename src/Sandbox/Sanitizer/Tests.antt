-- ===== src/Sandbox/Sanitizer/Tests.antt =====
-- Commands that are accepted and refused.
use mathlib.Core.List.{Memᴰ}
use bolder_vibes_backend.Common.{All, true, false, ◌↔◌, ◌≡◌, refl}
use bolder_vibes_backend.Sandbox.Regex.{codes, test, test_at_start, is_word, is_space}
use bolder_vibes_backend.Sandbox.Regex.Laws.{Occurs}
use bolder_vibes_backend.Sandbox.Sanitizer.Laws.{TightAnd, accepted_is_confined, and_operator_iff}
use bolder_vibes_backend.Sandbox.Sanitizer.{
  is_chaining, allowed_base_commands, valid, empty, disallowed_pattern, not_allowed,
  from_url_or_tarball, chaining, and_operator, registry, sanitize_command, trim, first_match,
  check_base, first_token, same_text,
}

-- What a run computes with.
everything : Unit {0}
unfolding sanitize_command trim first_match check_base first_token same_text test test_at_start
    is_word is_space
everything = tt

plain_install : sanitize_command (codes "  npm install left-pad ") ≡ valid
unfolding everything
plain_install = refl

chained : sanitize_command (codes "npm test; rm -rf x") ≡ disallowed_pattern chaining
unfolding everything
chained = refl

published : sanitize_command (codes "npm  publish") ≡ disallowed_pattern registry
unfolding everything
published = refl

tight_and : sanitize_command (codes "pwd&&ls") ≡ disallowed_pattern and_operator
unfolding everything
tight_and = refl

-- With spaces round it, `&&` is let through, and chains any second command.
spaced_and : sanitize_command (codes "npm test && shutdown now") ≡ valid
unfolding everything
spaced_and = refl

blank : sanitize_command (codes "   ") ≡ empty
unfolding everything
blank = refl

unknown_base : sanitize_command (codes "bash x") ≡ not_allowed (codes "bash")
unfolding everything
unknown_base = refl

tarball : sanitize_command (codes "npm i https://x.io/a.tgz") ≡ from_url_or_tarball
unfolding everything
tarball = refl

accepted_is_confined_example :
    let s = trim (codes " npm test && ls ") in
    All (λ c. is_chaining c ≡ false) s
    × (¬ (Occurs (codes "$(") s))
    × (¬ (Occurs (codes "${") s))
    × (¬ (Occurs (codes ">") s))
    × (¬ (Occurs (codes "<") s))
    × (¬ (Occurs (codes "/etc/") s))
    × (¬ (Occurs (codes "/proc/") s))
    × (¬ (Occurs (codes "/dev/") s))
    × Memᴰ (first_token s) allowed_base_commands
accepted_is_confined_example =
    accepted_is_confined (codes " npm test && ls ") (unfold everything in refl)

and_operator_iff_example : (test and_operator (codes "a && b") ≡ true) ↔ TightAnd (codes "a && b")
and_operator_iff_example = and_operator_iff (codes "a && b")
