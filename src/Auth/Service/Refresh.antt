-- ===== src/Auth/Service/Refresh.antt =====
-- Token refresh and logout of src/auth/auth.service.ts.
use bolder_vibes_backend.Common.{
  ℕ, ◌+◌, String, ◌≡◌, refl, sym, ap, ◌∙◌, ◌≢◌, ◌↔◌, ◌⊎◌, inl, inr, false, Option, none, some, ok,
  err, Bool-cases, Option-cases, arith, eq_iff, ==_refl, if◌then◌else◌, subst,
}
use mathlib.Core.Option
use bolder_vibes_backend.Auth.Deps.{
  AuthDeps, AuthLaws, User, UserPatch, patched, apply_patch, first_72,
}
use bolder_vibes_backend.Auth.Service.{
  access_denied, AuthState, AuthResponse, open_session, refresh_tokens, logout,
}
use bolder_vibes_backend.Auth.Service.Login.{
  session_patch, session_token, session_response, open_session_lem,
}

module _ {Db Kv : Type 0} (d : AuthDeps Db Kv) (laws : AuthLaws d) where
  find_by_id_patched :
      (i : ℕ) (u : User) (p : UserPatch) (db db' : Db)
      → d.find_by_id i db ≡ some u
      → d.update_user i p db ≡ some db'
      → d.find_by_id i db' ≡ some (apply_patch p u)
  find_by_id_patched i u p db db' f w =
      rw (laws.find_by_id-update i p db db' i w, f, laws.find_by_id-id i db u f, ==_refl i)

  -- What a refresh does for a row with a stored hash.
  refresh_stored :
      (i : ℕ) (token stored : String) (u : User) (s : AuthState Db Kv)
      → d.find_by_id i s.db ≡ some u
      → u.refresh_token ≡ some stored
      → stored ≢ ""
      → refresh_tokens d i token s
        ≡ (if d.compare token stored then open_session d u s else (err access_denied, s))
  unfolding refresh_tokens
  refresh_stored i token stored u s f h ne = ground (arith, eq_iff stored "")

  module _ (i : ℕ) (u : User) (stored : String) (salt : ℕ) (s : AuthState Db Kv)
      (found : d.find_by_id i s.db ≡ some u)
      (held : u.refresh_token ≡ some (d.hash stored 12 salt)) where
    -- What a refresh does, for the token that was stored.
    refresh_hashed :
        (token : String)
        → refresh_tokens d i token s ≡ (
            if d.compare token (d.hash stored 12 salt)
            then open_session d u s
            else (err access_denied, s))
    refresh_hashed token =
        refresh_stored i token (d.hash stored 12 salt) u s found held
          (laws.hash-ne-empty stored 12 salt)

    refresh_denied :
        (token : String)
        → d.compare token (d.hash stored 12 salt) ≡ false
        → refresh_tokens d i token s ≡ (err access_denied, s)
    refresh_denied token differs = rw (refresh_hashed token, differs)

    -- The state after a refresh: the row holds the hash of the new token.
    rotated :
        (token : String)
        → first_72 token ≡ first_72 stored
        → (s' : AuthState Db Kv) × (refresh_tokens d i token s
            ≡ (ok (session_response d laws u s.tick), s'))
          × (d.find_by_id i s'.db ≡ some (apply_patch (session_patch d laws u s.tick) u))
    rotated token same =
        let p = session_patch d laws u s.tick in
        let (db', w) = laws.update-by_id i u p s.db found in
        let w' : d.update_user u.id p s.db ≡ some db' =
          subst (λ j. d.update_user j p s.db ≡ some db') (sym (laws.find_by_id-id i s.db u found))
            w in
        let agrees = (laws.compare_iff token stored 12 salt).1 same in
        (
          record s { db = db'; tick = s.tick + 1 + 1 },
          rw (refresh_hashed token, agrees) (open_session_lem d laws u s db' w'),
          find_by_id_patched i u p s.db db' found w,
        )

    -- A refresh succeeds exactly for the tokens that bcrypt cannot tell from the stored one.
    refresh_iff :
        (token : String)
        → ((r : AuthResponse) × (s' : AuthState Db Kv) × (refresh_tokens d i token s ≡ (ok r, s')))
          ↔ (first_72 token ≡ first_72 stored)
    refresh_iff token = (sound, complete)
      where
        sound :
            ((r : AuthResponse) × (s' : AuthState Db Kv) × (refresh_tokens d i token s
                ≡ (ok r, s')))
            → first_72 token ≡ first_72 stored
        sound (r, s', e) = elim (Bool-cases (d.compare token (d.hash stored 12 salt))) [
          | inl agrees ↦ (laws.compare_iff token stored 12 salt).0 agrees
          | inr differs ↦ cc (refresh_denied token differs)
        ]

        complete :
            first_72 token ≡ first_72 stored
            → (r : AuthResponse) × (s' : AuthState Db Kv) × (refresh_tokens d i token s
                ≡ (ok r, s'))
        complete same =
            let (s', e, _) = rotated token same in (session_response d laws u s.tick, s', e)

  -- A refresh with the stored token succeeds and hands out a new one. After it a token is accepted
  -- exactly if it agrees with the new one in the first 72 bytes.
  pub refresh_rotates_iff :
      (i : ℕ) (u : User) (stored : String) (salt : ℕ) (s : AuthState Db Kv) (token old : String)
      → d.find_by_id i s.db ≡ some u
      → u.refresh_token ≡ some (d.hash stored 12 salt)
      → first_72 token ≡ first_72 stored
      → (r : AuthResponse) × (s' : AuthState Db Kv) × (refresh_tokens d i token s ≡ (ok r, s'))
        × (((r' : AuthResponse) × (s'' : AuthState Db Kv) × (refresh_tokens d i old s'
                ≡ (ok r', s'')))
            ↔ (first_72 old ≡ first_72 r.tokens.refresh_token))
  refresh_rotates_iff i u stored salt s token old found held same =
      let (s', e, found') = rotated i u stored salt s found held token same in
      (
        session_response d laws u s.tick,
        s',
        e,
        refresh_iff i (apply_patch (session_patch d laws u s.tick) u)
            (session_token d laws u s.tick) (s.tick + 1) s' found' refl old,
      )

  -- If the tokens of a user agree in their first 72 bytes, the token that a refresh replaces stays
  -- valid: presented again after the rotation, it opens another session.
  pub replaced_token_accepted :
      (i : ℕ) (u : User) (token : String) (salt : ℕ) (s : AuthState Db Kv)
      → d.find_by_id i s.db ≡ some u
      → u.refresh_token ≡ some (d.hash token 12 salt)
      → first_72 token ≡ first_72 (session_token d laws u s.tick)
      → (r r' : AuthResponse) × (s' s'' : AuthState Db Kv) × (refresh_tokens d i token s
          ≡ (ok r, s'))
        × (refresh_tokens d i token s' ≡ (ok r', s''))
  replaced_token_accepted i u token salt s found held same =
      let (s', e, found') = rotated i u token salt s found held token refl in
      let (r', s'', e') =
        (refresh_iff i (apply_patch (session_patch d laws u s.tick) u)
            (session_token d laws u s.tick) (s.tick + 1) s' found' refl token).1
          same in
      (session_response d laws u s.tick, r', s', s'', e, e')

  refresh_cleared :
      (i : ℕ) (token : String) (s : AuthState Db Kv)
      → ((d.find_by_id i s.db ≡ none)
          ⊎ ((u : User) × (d.find_by_id i s.db ≡ some u) × (u.refresh_token ≡ none)))
      → refresh_tokens d i token s ≡ (err access_denied, s)
  unfolding refresh_tokens
  refresh_cleared i token s (inl e) = ground arith
  refresh_cleared i token s (inr (u, e, c)) = ground arith

  -- An update that clears the refresh token leaves none in the row.
  pub cleared_by_update :
      (i : ℕ) (token : String) (h : Option String) (s : AuthState Db Kv) (db : Db)
      → d.update_user i (record { password_hash = h; refresh_token = some none }) db ≡ some s.db
      → refresh_tokens d i token s ≡ (err access_denied, s)
  cleared_by_update i token h s db w =
      let p : UserPatch = record { password_hash = h; refresh_token = some none } in
      let after = laws.find_by_id-update i p db s.db i w in
      refresh_cleared i token s (elim (Option-cases (d.find_by_id i db)) [
        | inl missing ↦ inl (after ∙ ap (Option.map (patched i p)) missing)
        | inr (u, found) ↦ inr (
          apply_patch p u,
          after
              ∙ ap (Option.map (patched i p)) found
              ∙ ground (arith, laws.find_by_id-id i db u found),
          refl,
        )
      ])

  logout_wrote :
      (i : ℕ) (s s' : AuthState Db Kv)
      → logout d i s ≡ (ok tt, s')
      → d.update_user i (record { password_hash = none; refresh_token = some none }) s.db
        ≡ some s'.db
  unfolding logout
  logout_wrote i s s' l = ground arith

  -- After a logout no refresh token of the user is accepted.
  pub logout-refresh_tokens :
      (i : ℕ) (token : String) (s s' : AuthState Db Kv)
      → logout d i s ≡ (ok tt, s')
      → refresh_tokens d i token s' ≡ (err access_denied, s')
  logout-refresh_tokens i token s s' l =
      cleared_by_update i token none s' s.db (logout_wrote i s s' l)
