-- ===== src/Users/ExpoAccount/Tokens.antt =====
-- A token that is set with src/users/expo-account/expo-account.service.ts comes back.
use Prim.Native.Char.{Char}
use Prim.Native.String.{◌++◌}
use Prim.Native.String.append
use Prim.Native.String.compare
use bolder_vibes_backend.Common.{
  ℕ, String, ◌≡◌, refl, ap, ◌∙◌, true, false, Option, none, some, [], ◌∷◌, arith, ◌==◌, ◌=s=◌,
  if◌then◌else◌, ok, split, split-append, split-free, ==_refl, ==_iff, Bool-cases, inl, inr, subst,
}
use bolder_vibes_backend.Users.ExpoAccount.{
  Crypto, CryptoLaws, TokenTable, TokenTableLaws, TokenRow, ExpoTokenStatus, opened, encrypt,
  decrypt, set_token, get_status, clear_token, get_token_plaintext, trim, hint_of,
}

append-nonempty : (a b : String) → a =s= "" ≡ false → (a ++ b) =s= "" ≡ false
append-nonempty String.[] b h = cc
append-nonempty (String.◌∷◌ c a) b h = rw (append.cons c a b, compare.cons-nil c (a ++ b)) refl

abbrev bar : Char
bar = "|"

-- A text after a bar.
append-bar : (t : String) → "|" ++ t ≡ String.◌∷◌ bar t
append-bar t = append.cons bar String.[] t ∙ ap (String.◌∷◌ bar) (append.nil t)

module _ (c : Crypto) (laws : CryptoLaws c) (key : c.Bytes) where
  parts_of_envelope :
      (draw : ℕ) (t : String)
      → let iv = c.random_iv draw in
        let (ciphertext, tag) = c.seal key iv t in
        split b'|' (encrypt c key draw t) ≡ c.base64 iv ∷ c.base64 tag ∷ c.base64 ciphertext ∷ []
  unfolding encrypt
  parts_of_envelope draw t =
      let iv = c.random_iv draw in
      let (ciphertext, tag) = c.seal key iv t in
      let last = c.base64 ciphertext in
      let rest = c.base64 tag ++ ("|" ++ last) in
      ap (λ s. split b'|' (c.base64 iv ++ s)) (append-bar rest)
      ∙ split-append b'|' (c.base64 iv) bar rest (laws.base64-is_free iv) refl
      ∙ ap (λ s. c.base64 iv ∷ split b'|' (c.base64 tag ++ s)) (append-bar last)
      ∙ ap (λ ps. c.base64 iv ∷ ps)
          (split-append b'|' (c.base64 tag) bar last (laws.base64-is_free tag) refl
            ∙ ap (λ ps. c.base64 tag ∷ ps) (split-free b'|' last (laws.base64-is_free ciphertext)))

  decrypt-encrypt :
      (draw : ℕ) (t : String) → t =s= "" ≡ false → decrypt c key (encrypt c key draw t) ≡ opened t
  unfolding decrypt
  decrypt-encrypt draw t filled =
      let iv = c.random_iv draw in
      let (ciphertext, tag) = c.seal key iv t in
      rw
        (
          parts_of_envelope draw t,
          laws.iv_filled draw,
          laws.tag_filled key iv t,
          laws.ciphertext_filled key iv t filled,
          laws.unbase64-base64 iv,
          laws.unbase64-base64 tag,
          laws.unbase64-base64 ciphertext,
          laws.unseal-seal key iv t,
        )
        refl

  encrypt-nonempty : (draw : ℕ) (t : String) → encrypt c key draw t =s= "" ≡ false
  unfolding encrypt
  encrypt-nonempty draw t =
      let iv = c.random_iv draw in append-nonempty (c.base64 iv) _ (laws.iv_filled draw)

  module _ {Db : Type 0} (t : TokenTable Db) (table : TokenTableLaws t) where
    -- What the reads make of a row that a token was written to.
    reads_of_row :
        (draw now u : ℕ) (token : String) (db : Db)
        → token =s= "" ≡ false
        → t.find_user u db
          ≡ some (record {
            expo_token_enc = some (encrypt c key draw token);
            expo_token_set_at = some now;
          })
        → (get_token_plaintext c t key u db ≡ some token)
          × (get_status c t key u db
              ≡ record { is_set = true; hint = some (hint_of token); set_at = some now })
    unfolding get_token_plaintext get_status
    reads_of_row draw now u token db filled found = (
      ground (arith, encrypt-nonempty draw token, decrypt-encrypt draw token filled),
      ground (arith, encrypt-nonempty draw token, decrypt-encrypt draw token filled),
    )

    set_token_lem :
        (draw now u : ℕ) (token : String) (db db' : Db)
        → trim token =s= "" ≡ false
        → t.update_user u
            (record {
              expo_token_enc = some (encrypt c key draw (trim token));
              expo_token_set_at = some now;
            })
            db
          ≡ some db'
        → set_token c t key draw now u token db ≡ (
          ok (record { is_set = true; hint = some (hint_of (trim token)); set_at = some now }),
          db',
        )
    unfolding set_token
    set_token_lem draw now u token db db' filled w = ground arith

    clear_token_lem :
        (u : ℕ) (db db' : Db)
        → t.update_user u (record { expo_token_enc = none; expo_token_set_at = none }) db ≡ some db'
        → clear_token c t key u db ≡ (ok tt, db')
    unfolding clear_token
    clear_token_lem u db db' w = ground arith

    -- What a read gives depends on the row.
    plaintext_of_row :
        (u : ℕ) (db db' : Db)
        → t.find_user u db' ≡ t.find_user u db
        → get_token_plaintext c t key u db' ≡ get_token_plaintext c t key u db
    unfolding get_token_plaintext
    plaintext_of_row u db db' e = ground arith

    -- A write to one row changes what the reads give for that row only.
    plaintext_after :
        (u v : ℕ) (plain : Option String) (written : TokenRow) (db db' : Db)
        → t.find_user v db' ≡ (if u == v then some written else t.find_user v db)
        → get_token_plaintext c t key u db' ≡ plain
        → get_token_plaintext c t key v db'
          ≡ (if u == v then plain else get_token_plaintext c t key v db)
    plaintext_after u v plain written db db' found read = elim (Bool-cases (u == v)) [
      | inl e ↦
          rw e (subst (λ w. get_token_plaintext c t key w db' ≡ plain) ((==_iff u v).0 e) read)
      | inr ne ↦ rw ne (plaintext_of_row v db db' (ground arith))
    ]

    no_token :
        (u : ℕ) (db : Db)
        → t.find_user u db ≡ some (record { expo_token_enc = none; expo_token_set_at = none })
        → get_token_plaintext c t key u db ≡ none
    unfolding get_token_plaintext
    no_token u db found = ground arith

    -- A token that is not blank and set for a user who exists comes back trimmed, with the status that
    -- setting it answered; every other user's token stays; and after it is cleared, there is none.
    pub set_token-get_token_plaintext :
        (draw now u : ℕ) (token : String) (row : TokenRow) (db : Db)
        → t.find_user u db ≡ some row
        → trim token =s= "" ≡ false
        → (status : ExpoTokenStatus) × (db' db'' : Db) × (set_token c t key draw now u token db
            ≡ (ok status, db'))
          × (get_status c t key u db' ≡ status)
          × ((v : ℕ)
              → get_token_plaintext c t key v db'
                ≡ (if u == v then some (trim token) else get_token_plaintext c t key v db))
          × (clear_token c t key u db' ≡ (ok tt, db''))
          × (get_token_plaintext c t key u db'' ≡ none)
    set_token-get_token_plaintext draw now u token row db found filled =
        let trimmed = trim token in
        let written : TokenRow = record {
          expo_token_enc = some (encrypt c key draw trimmed);
          expo_token_set_at = some now;
        } in
        let cleared : TokenRow = record { expo_token_enc = none; expo_token_set_at = none } in
        let (db', w) = table.update-succeeds u row written db found in
        let there = table.find-update u u written db db' w in
        let found' : t.find_user u db' ≡ some written = ground (arith, there, ==_refl u) in
        let (db'', w') = table.update-succeeds u written cleared db' found' in
        let (plain, status) = reads_of_row draw now u trimmed db' filled found' in
        (
          record { is_set = true; hint = some (hint_of trimmed); set_at = some now },
          db',
          db'',
          set_token_lem draw now u token db db' filled w,
          status,
          λ v.
              plaintext_after u v (some trimmed) written db db'
                (table.find-update u v written db db' w) plain,
          clear_token_lem u db' db'' w',
          no_token u db'' (ground (arith, table.find-update u u cleared db' db'' w', ==_refl u)),
        )
