-- ===== src/Users/ExpoAccount/Tests.antt =====
-- Tokens set with src/users/expo-account/expo-account.service.ts over tables in memory.
use Prim.Native.Char.{Char, code}
use Prim.Native.String.compare
use text.Mathlib.TextEquality.{Char-path}
use bolder_vibes_backend.Common.{
  ℕ, String, ◌≡◌, refl, ap, ◌∙◌, sym, true, false, Option, none, some, ◌==◌, ◌=s=◌, ==_iff,
  if◌then◌else◌, ok, is_free, arith, Bool-cases, inl, inr, ltb,
}
use bolder_vibes_backend.Sandbox.Regex.{is_space}
use bolder_vibes_backend.Users.ExpoAccount.{
  Crypto, CryptoLaws, TokenTable, TokenTableLaws, TokenRow, ExpoTokenStatus, set_token, get_status,
  clear_token, get_token_plaintext, trim, hint_of,
}
use bolder_vibes_backend.Users.ExpoAccount.Tokens.{set_token-get_token_plaintext}

abbrev bar : Char
bar = "|"

abbrev letter_a : Char
letter_a = "a"

abbrev letter_b : Char
letter_b = "b"

-- A code for texts that has no bar: a bar is a `b`, any other character stands behind an `a`.
escape : String → String
escape String.[] = String.[]
escape (String.◌∷◌ c s) =
    let rest = escape s in
    if code c == b'|' then String.◌∷◌ letter_b rest else String.◌∷◌ letter_a (String.◌∷◌ c rest)

unescape : String → String
unescape String.[] = String.[]
unescape (String.◌∷◌ m String.[]) = if code m == b'b' then String.◌∷◌ bar String.[] else String.[]
unescape (String.◌∷◌ m (String.◌∷◌ c s)) =
    let plain = unescape s in
    let skipped = unescape (String.◌∷◌ c s) in
    if code m == b'b' then String.◌∷◌ bar skipped else String.◌∷◌ c plain

unescape-bar : (s : String) → unescape (String.◌∷◌ letter_b s) ≡ String.◌∷◌ bar (unescape s)
unfolding unescape
unescape-bar String.[] = refl
unescape-bar (String.◌∷◌ c s) = refl

unescape-other :
    (c : Char) (s : String)
    → unescape (String.◌∷◌ letter_a (String.◌∷◌ c s)) ≡ String.◌∷◌ c (unescape s)
unfolding unescape
unescape-other c s = refl

unescape-escape : (s : String) → unescape (escape s) ≡ s
unfolding escape
unescape-escape String.[] = unfold unescape in refl
unescape-escape (String.◌∷◌ c s) = elim (Bool-cases (code c == b'|')) [
  | inl e ↦ rw e (
      unescape-bar (escape s)
      ∙ ap (String.◌∷◌ bar) (unescape-escape s)
      ∙ ap (λ d. String.◌∷◌ d s) (sym (Char-path c bar ((==_iff (code c) b'|').0 e))))
  | inr ne ↦ rw ne (unescape-other c (escape s) ∙ ap (String.◌∷◌ c) (unescape-escape s))
]

escape-is_free : (s : String) → is_free b'|' (escape s) ≡ true
unfolding escape
escape-is_free String.[] = refl
escape-is_free (String.◌∷◌ c s) = ground (arith, escape-is_free s)

escape_filled : (c : Char) (s : String) → escape (String.◌∷◌ c s) =s= "" ≡ false
unfolding escape
escape_filled c s = ground (
  arith,
  compare.cons-nil letter_b (escape s),
  compare.cons-nil letter_a (String.◌∷◌ c (escape s)),
)

abbrev plain_crypto : Crypto
plain_crypto = record {
  Bytes = String;
  sha256 = λ s. s;
  random_iv = λ draw. "iv";
  seal = λ key iv t. (t, "tag");
  unseal = λ key iv tag ciphertext. some ciphertext;
  base64 = escape;
  unbase64 = unescape;
}

text_filled : (t : String) → t =s= "" ≡ false → escape t =s= "" ≡ false
text_filled String.[] h = cc
text_filled (String.◌∷◌ c s) h = escape_filled c s

plain_crypto-CryptoLaws : CryptoLaws plain_crypto
plain_crypto-CryptoLaws = record {
  unseal-seal = λ key iv t. refl;
  unbase64-base64 = unescape-escape;
  base64-is_free = escape-is_free;
  iv_filled = λ draw. text_filled "iv" refl;
  tag_filled = λ key iv t. text_filled "tag" refl;
  ciphertext_filled = λ key iv t h. text_filled t h;
}

abbrev Rows : Type 0
Rows = ℕ → Option TokenRow

abbrev write_row : ℕ → TokenRow → Rows → Option TokenRow → Option Rows
write_row u row db none = none
write_row u row db (some old) = some (λ v. if u == v then some row else db v)

abbrev rows : TokenTable Rows
rows = record { find_user = λ u db. db u; update_user = λ u row db. write_row u row db (db u) }

rows-update :
    (u : ℕ) (row row' : TokenRow) (db : Rows)
    → db u ≡ some row
    → (db' : Rows) × (write_row u row' db (db u) ≡ some db')
rows-update u row row' db e = ((λ v. if u == v then some row' else db v), rw e refl)

rows-find :
    (u v : ℕ) (row : TokenRow) (db db' : Rows) (old : Option TokenRow)
    → write_row u row db old ≡ some db'
    → db' v ≡ (if u == v then some row else db v)
rows-find u v row db db' none e = cc
rows-find u v row db db' (some r) e = ap (λ o. at_row o) (sym e)
  where
    at_row : Option Rows → Option TokenRow
    at_row none = none
    at_row (some f) = f v

rows-TokenTableLaws : TokenTableLaws rows
rows-TokenTableLaws = record {
  update-succeeds = rows-update;
  find-update = λ u v row db db' e. rows-find u v row db db' (db u) e;
}

abbrev two_users : Rows
two_users u =
    if ltb u 2 then some (record { expo_token_enc = none; expo_token_set_at = none }) else none

set_token-get_token_plaintext_example :
    (status : ExpoTokenStatus) × (db' db'' : Rows) × (set_token plain_crypto rows "key" 0 9 1
        " exp|42 " two_users
      ≡ (ok status, db'))
    × (get_status plain_crypto rows "key" 1 db' ≡ status)
    × ((v : ℕ)
        → get_token_plaintext plain_crypto rows "key" v db' ≡ (
            if 1 == v
            then some (trim " exp|42 ")
            else get_token_plaintext plain_crypto rows "key" v two_users))
    × (clear_token plain_crypto rows "key" 1 db' ≡ (ok tt, db''))
    × (get_token_plaintext plain_crypto rows "key" 1 db'' ≡ none)
unfolding trim is_space
set_token-get_token_plaintext_example =
    set_token-get_token_plaintext plain_crypto plain_crypto-CryptoLaws "key" rows
      rows-TokenTableLaws 0 9 1 " exp|42 "
      (record { expo_token_enc = none; expo_token_set_at = none }) two_users refl refl

trims_the_token : trim " exp|42 " ≡ "exp|42"
unfolding trim is_space
trims_the_token = refl

hints_at_the_end : hint_of "exp-token" ≡ "••••oken"
unfolding hint_of
hints_at_the_end = refl
