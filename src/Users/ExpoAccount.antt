-- ===== src/Users/ExpoAccount.antt =====
-- The Expo tokens of src/users/expo-account/expo-account.service.ts.
mod Tokens
mod Tests
use Prim.Native.Char.{Char, code}
use Prim.Native.String.{◌++◌}
use bolder_vibes_backend.Common.{
  ℕ, zero, suc, ◌+◌, ◌-◌, String, ◌≡◌, ◌≢◌, Bool, true, false, not, ◌&&◌, Option, none, some, List,
  [], ◌∷◌, ◌==◌, ◌=s=◌, if◌then◌else◌, leb, length, Result, ok, err, split, is_free, ◌||◌,
}
use bolder_vibes_backend.Sandbox.Regex.{codes, is_space}

-- Node's `crypto` and `Buffer`. `seal` gives the ciphertext and the tag, `unseal` nothing where
-- `decipher.final()` throws.
pub record Crypto : Type 1 where
  pub Bytes : Type 0
  pub sha256 : String → Bytes
  pub random_iv : (draw : ℕ) → Bytes
  pub seal : (key iv : Bytes) → String → Bytes × Bytes
  pub unseal : (key iv tag ciphertext : Bytes) → Option String
  pub base64 : Bytes → String
  pub unbase64 : String → Bytes

-- What AES-256-GCM and base64 promise: a text comes back, base64 has no `|`, and is not empty for the
-- 12 bytes of an initial value, the 16 of a tag, and a ciphertext, which is as long as the text.
pub record CryptoLaws (c : Crypto) : Type 0 where
  pub unseal-seal :
      (key iv : c.Bytes) (t : String)
      → c.unseal key iv (c.seal key iv t).1 (c.seal key iv t).0 ≡ some t
  pub unbase64-base64 : (bytes : c.Bytes) → c.unbase64 (c.base64 bytes) ≡ bytes
  pub base64-is_free : (bytes : c.Bytes) → is_free b'|' (c.base64 bytes) ≡ true
  pub iv_filled : (draw : ℕ) → c.base64 (c.random_iv draw) =s= "" ≡ false
  pub tag_filled : (key iv : c.Bytes) (t : String) → c.base64 (c.seal key iv t).1 =s= "" ≡ false
  pub ciphertext_filled :
      (key iv : c.Bytes) (t : String)
      → t =s= "" ≡ false
      → c.base64 (c.seal key iv t).0 =s= "" ≡ false

-- The columns of a user's row.
pub record TokenRow : Type 0 where
  pub expo_token_enc : Option String
  pub expo_token_set_at : Option ℕ

-- The users table: a row by its id; an update gives `none` where Prisma throws.
pub record TokenTable (Db : Type 0) : Type 0 where
  pub find_user : ℕ → Db → Option TokenRow
  pub update_user : ℕ → TokenRow → Db → Option Db

pub record TokenTableLaws {Db : Type 0} (t : TokenTable Db) : Type 0 where
  pub update-succeeds :
      (u : ℕ) (row row' : TokenRow) (db : Db)
      → t.find_user u db ≡ some row
      → (db' : Db) × (t.update_user u row' db ≡ some db')
  pub find-update :
      (u v : ℕ) (row : TokenRow) (db db' : Db)
      → t.update_user u row db ≡ some db'
      → t.find_user v db' ≡ (if u == v then some row else t.find_user v db)

pub record ExpoTokenStatus : Type 0 where
  pub is_set : Bool
  pub hint : Option String
  pub set_at : Option ℕ

pub data TokenError : Type 0 where
  not_configured : TokenError  -- thrown by the constructor
  empty_token : TokenError  -- BadRequestException
  no_such_user : TokenError  -- thrown by Prisma

pub data Decrypted : Type 0 where
  opened : String → Decrypted
  malformed : Decrypted
  not_authentic : Decrypted

-- `s.trim()`.
unfoldable pub trim_start : String → String
trim_start String.[] = String.[]
trim_start (String.◌∷◌ c s) = if is_space (code c) then trim_start s else String.◌∷◌ c s

unfoldable pub trim_end : String → String
trim_end String.[] = String.[]
trim_end (String.◌∷◌ c s) =
    let rest = trim_end s in
    if is_space (code c) && (rest =s= "") then String.[] else String.◌∷◌ c rest

unfoldable pub trim : String → String
unfolding trim_start trim_end
trim s = trim_end (trim_start s)

-- The text after its first characters.
abbrev pub skip : ℕ → String → String
skip zero s = s
skip (suc n) String.[] = String.[]
skip (suc n) (String.◌∷◌ c s) = skip n s

-- The last four characters behind bullets, or stars for a short token.
unfoldable pub hint_of : String → String
hint_of t = let n = length (codes t) in if leb n 4 then "****" else "••••" ++ skip (n - 4) t

-- An empty text counts as none.
abbrev pub truthy : Option String → Option String
truthy none = none
truthy (some t) = if t =s= "" then none else some t

abbrev pub envelope_of : Option TokenRow → Option String
envelope_of none = none
envelope_of (some row) = truthy row.expo_token_enc

abbrev pub plain_of : Decrypted → Option String
plain_of (opened t) = some t
plain_of malformed = none
plain_of not_authentic = none

abbrev pub hint_if : Option String → Option String
hint_if none = none
hint_if (some t) = some (hint_of t)

abbrev pub set_at_of : Option TokenRow → Option ℕ
set_at_of none = none
set_at_of (some row) = row.expo_token_set_at

module _ (c : Crypto) where
  -- The constructor: the key, if a secret is configured.
  unfoldable pub derive_key : (secret : Option String) → Result TokenError c.Bytes
  derive_key secret = elim (truthy secret) [ none ↦ err not_configured | some s ↦ ok (c.sha256 s) ]

  -- `encrypt`: initial value, tag and ciphertext, joined by `|`.
  unfoldable pub encrypt : (key : c.Bytes) (draw : ℕ) → String → String
  encrypt key draw plaintext =
      let iv = c.random_iv draw in
      let (ciphertext, tag) = c.seal key iv plaintext in
      c.base64 iv ++ ("|" ++ (c.base64 tag ++ ("|" ++ c.base64 ciphertext)))

  abbrev pub open_parts : (key : c.Bytes) → List String → Decrypted
  open_parts key (iv ∷ tag ∷ ciphertext ∷ rest) =
      if (iv =s= "") || ((tag =s= "") || (ciphertext =s= ""))
      then malformed
      else elim (c.unseal key (c.unbase64 iv) (c.unbase64 tag) (c.unbase64 ciphertext)) [
        | none ↦ not_authentic
        | some t ↦ opened t
      ]
  open_parts key _ = malformed

  -- `decrypt`.
  unfoldable pub decrypt : (key : c.Bytes) → String → Decrypted
  decrypt key envelope = open_parts key (split b'|' envelope)

  module _ {Db : Type 0} (t : TokenTable Db) (key : c.Bytes) where
    -- A token that cannot be decrypted is reported as set, without a hint.
    unfoldable pub get_status : ℕ → Db → ExpoTokenStatus
    get_status u db = elim (envelope_of (t.find_user u db)) [
      | none ↦ record { is_set = false; hint = none; set_at = none }
      | some envelope ↦ record {
        is_set = true;
        hint = hint_if (plain_of (decrypt key envelope));
        set_at = set_at_of (t.find_user u db);
      }
    ]

    unfoldable pub set_token :
        (draw now u : ℕ) → String → Db → Result TokenError ExpoTokenStatus × Db
    unfolding encrypt
    set_token draw now u token db =
        let trimmed = trim token in
        if trimmed =s= ""
        then (err empty_token, db)
        else elim (t.update_user u
            (record {
              expo_token_enc = some (encrypt key draw trimmed);
              expo_token_set_at = some now;
            })
            db) [
              | none ↦ (err no_such_user, db)
              | some db' ↦ (
                ok (record { is_set = true; hint = some (hint_of trimmed); set_at = some now }),
                db',
              )
            ]

    unfoldable pub clear_token : ℕ → Db → Result TokenError (Unit {0}) × Db
    clear_token u db =
        elim (t.update_user u (record { expo_token_enc = none; expo_token_set_at = none }) db) [
          | none ↦ (err no_such_user, db)
          | some db' ↦ (ok tt, db')
        ]

    unfoldable pub get_token_plaintext : ℕ → Db → Option String
    get_token_plaintext u db = elim (envelope_of (t.find_user u db)) [
      | none ↦ none
      | some envelope ↦ plain_of (decrypt key envelope)
    ]
