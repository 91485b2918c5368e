-- ===== src/Auth/Service/Login.antt =====
-- Registration, login, token refresh and logout of src/auth/auth.service.ts.
use bolder_vibes_backend.Common.{
  if◌then◌else◌, ℕ, ◌+◌, String, ◌≡◌, refl, none, some, ok, err, true, false, arith, ◌↔◌, ◌⊎◌, inl,
  ==_refl, ◌∙◌, inr,
}
use bolder_vibes_backend.Auth.Deps.{AuthDeps, AuthLaws, User, UserPatch, first_72, apply_patch}
use bolder_vibes_backend.Auth.Service.{
  AuthState, AuthResponse, payload_of, open_session, login, LoginDto, register, RegisterDto,
  insert_user, invalid_credentials,
}

module _ {Db Kv : Type 0} (d : AuthDeps Db Kv) (laws : AuthLaws d) where
  -- The patch that a new session writes at a time, and the tokens that it hands out.
  abbrev pub session_token : User → ℕ → String
  session_token u t = d.sign (payload_of u) d.refresh_secret d.refresh_expiration t

  abbrev pub session_patch : User → ℕ → UserPatch
  session_patch u t = record {
    password_hash = none;
    refresh_token = some (some (d.hash (session_token u t) 12 (t + 1)));
  }

  abbrev pub session_response : User → ℕ → AuthResponse
  session_response u t = record {
    tokens = record {
      access_token = d.sign (payload_of u) d.access_secret d.access_expiration t;
      refresh_token = session_token u t;
    };
    id = u.id;
    email = u.email;
    name = u.name;
    role = u.role;
  }

  -- A session opens when the row can be updated; the row then holds the hash of the new token.
  pub open_session_lem :
      (u : User) (s : AuthState Db Kv) (db' : Db)
      → d.update_user u.id (session_patch u s.tick) s.db ≡ some db'
      → open_session d u s
        ≡ (ok (session_response u s.tick), record s { db = db'; tick = s.tick + 1 + 1 })
  unfolding open_session
  open_session_lem u s db' e = ground arith

  -- What a login does with a row that is found.
  login_found :
      (dto : LoginDto) (u : User) (s : AuthState Db Kv)
      → d.find_by_email dto.email s.db ≡ some u
      → login d dto s ≡ (
          if d.compare dto.password u.password_hash
          then open_session d u s
          else (err invalid_credentials, s))
  unfolding login
  login_found dto u s e = ground arith

  pub login_accepts :
      (dto : LoginDto) (u : User) (s : AuthState Db Kv)
      → d.find_by_email dto.email s.db ≡ some u
      → d.compare dto.password u.password_hash ≡ true
      → (s' : AuthState Db Kv) × (login d dto s ≡ (ok (session_response u s.tick), s'))
  login_accepts dto u s e c =
      let (db', w) = laws.update-by_email dto.email u (session_patch u s.tick) s.db e in
      (
        record s { db = db'; tick = s.tick + 1 + 1 },
        rw (login_found dto u s e, c) (open_session_lem u s db' w),
      )

  login_compared :
      (dto : LoginDto) (u : User) (stored : String) (salt : ℕ) (s : AuthState Db Kv)
      (r : AuthResponse) (s' : AuthState Db Kv)
      → d.find_by_email dto.email s.db ≡ some u
      → u.password_hash ≡ d.hash stored 12 salt
      → login d dto s ≡ (ok r, s')
      → d.compare dto.password (d.hash stored 12 salt) ≡ true
  unfolding login
  login_compared dto u stored salt s r s' e h l = ground arith

  -- For an email that is registered, a login succeeds exactly when the password agrees with the
  -- stored one in the 72 bytes that bcrypt reads; it then answers with the row's id.
  pub login_iff :
      (dto : LoginDto) (u : User) (stored : String) (salt : ℕ) (s : AuthState Db Kv)
      → d.find_by_email dto.email s.db ≡ some u
      → u.password_hash ≡ d.hash stored 12 salt
      → ((r : AuthResponse) × (s' : AuthState Db Kv) × (login d dto s ≡ (ok r, s')) × (r.id ≡ u.id))
        ↔ (first_72 dto.password ≡ first_72 stored)
  login_iff dto u stored salt s e h = (
    (λ (r, s', l, _).
        (laws.compare_iff dto.password stored 12 salt).0
          (login_compared dto u stored salt s r s' e h l)),
    λ same.
        let agrees = (laws.compare_iff dto.password stored 12 salt).1 same in
        let (s', l) = login_accepts dto u s e (rw h agrees) in
        (session_response u s.tick, s', l, refl),
  )

  -- A login with an email that is not registered and one with a wrong password end alike: the same
  -- error, and nothing is written.
  login_refuses_alike :
      (dto : LoginDto) (s : AuthState Db Kv)
      → ((d.find_by_email dto.email s.db ≡ none)
          ⊎ ((u : User) × (d.find_by_email dto.email s.db ≡ some u)
              × (d.compare dto.password u.password_hash ≡ false)))
      → login d dto s ≡ (err invalid_credentials, s)
  unfolding login
  login_refuses_alike dto s (inl e) = ground arith
  login_refuses_alike dto s (inr (u, e, c)) = ground arith

  pub find_by_email_patched :
      (e : String) (u : User) (p : UserPatch) (db db' : Db)
      → d.find_by_email e db ≡ some u
      → d.update_user u.id p db ≡ some db'
      → d.find_by_email e db' ≡ some (apply_patch p u)
  find_by_email_patched e u p db db' f w =
      rw (laws.find_by_email-update u.id p db db' e w, f, ==_refl u.id)

  register_new :
      (dto : RegisterDto) (u : User) (s : AuthState Db Kv) (db' : Db)
      → d.find_by_email dto.email s.db ≡ none
      → d.create_user dto.email (d.hash dto.password 12 s.tick) dto.name s.db ≡ some (u, db')
      → register d dto s ≡ open_session d u (record s { db = db'; tick = s.tick + 1 })
  unfolding register insert_user
  register_new dto u s db' e c = ground arith

  -- Whoever registers with an email that is not taken can log in with the same password.
  pub register-login :
      (dto : RegisterDto) (s : AuthState Db Kv)
      → d.find_by_email dto.email s.db ≡ none
      → (r r' : AuthResponse) × (s' s'' : AuthState Db Kv) × (register d dto s ≡ (ok r, s'))
        × (login d (record { email = dto.email; password = dto.password }) s' ≡ (ok r', s''))
        × (r'.id ≡ r.id)
  register-login dto s e =
      let hashed = d.hash dto.password 12 s.tick in
      let (u, db', c, em, ph, found) = laws.create_lem dto.email hashed dto.name s.db e in
      let t : ℕ = s.tick + 1 in
      let p = session_patch u t in
      let (db'', w) = laws.update-by_email dto.email u p db' found in
      let s' = record s { db = db''; tick = t + 1 + 1 } in
      let found' = find_by_email_patched dto.email u p db' db'' found w in
      let agrees = (laws.compare_iff dto.password dto.password 12 s.tick).1 refl in
      let (s'', l) =
        login_accepts (record { email = dto.email; password = dto.password }) (apply_patch p u) s'
          found' (rw ph agrees) in
      (
        session_response u t,
        session_response (apply_patch p u) s'.tick,
        s',
        s'',
        register_new dto u s db' e c ∙ open_session_lem u (record s { db = db'; tick = t }) db'' w,
        l,
        refl,
      )
