-- ===== src/Auth/Service/Reset.antt =====
-- The password reset of src/auth/auth.service.ts.
use bolder_vibes_backend.Common.{
  ◌+◌, String, ◌≡◌, refl, ap, ◌≢◌, Option, none, some, ok, err, arith, eq_iff, Option-cases, inl,
  inr,
}
use bolder_vibes_backend.Auth.Deps.{AuthDeps, AuthLaws, User, UserPatch, apply_patch}
use bolder_vibes_backend.Auth.Service.{
  AuthState, AuthResponse, login, refresh_tokens, access_denied, forgot_password, reset_password,
  reset_key, reset_link_sent, password_reset, invalid_reset_token,
}
use bolder_vibes_backend.Auth.Service.Login.{login_accepts, find_by_email_patched}
use bolder_vibes_backend.Auth.Service.Refresh.{cleared_by_update}

module _ {Db Kv : Type 0} (d : AuthDeps Db Kv) (laws : AuthLaws d) where
  abbrev reset_patch : String → UserPatch
  reset_patch h = record { password_hash = some h; refresh_token = some none }

  forgot_known :
      (email : String) (u : User) (s : AuthState Db Kv)
      → d.find_by_email email s.db ≡ some u
      → forgot_password d email s ≡ (
        ok (reset_link_sent, some (d.random_hex s.tick)),
        record s {
          kv = d.redis_set (reset_key d (d.random_hex s.tick)) (d.id_text u.id) 3600 s.kv;
          tick = s.tick + 1;
        },
      )
  unfolding forgot_password
  forgot_known email u s e = ground arith

  forgot_unknown :
      (email : String) (s : AuthState Db Kv)
      → d.find_by_email email s.db ≡ none
      → forgot_password d email s ≡ (ok (reset_link_sent, none), s)
  unfolding forgot_password
  forgot_unknown email s e = ground arith

  -- The answer to a forgotten password is the same whether the email is registered or not, and the
  -- users table is not touched.
  forgot_password_uniform :
      (email : String) (s : AuthState Db Kv)
      → ((sent : Option String) × ((forgot_password d email s).0 ≡ ok (reset_link_sent, sent)))
        × ((forgot_password d email s).1.db ≡ s.db)
  forgot_password_uniform email s = elim (Option-cases (d.find_by_email email s.db)) [
    | inl missing ↦
        let e = forgot_unknown email s missing in ((none, ap (λ r. r.0) e), ap (λ r. r.1.db) e)
    | inr (u, found) ↦
        let e = forgot_known email u s found in
        ((some (d.random_hex s.tick), ap (λ r. r.0) e), ap (λ r. r.1.db) e)
  ]

  reset_known :
      (token new_password stored : String) (s : AuthState Db Kv) (db' : Db)
      → d.redis_get (reset_key d token) s.kv ≡ some stored
      → stored ≢ ""
      → d.update_user (d.id_of_text stored) (reset_patch (d.hash new_password 12 s.tick)) s.db
        ≡ some db'
      → reset_password d token new_password s ≡ (
        ok password_reset,
        record s { db = db'; kv = d.redis_del (reset_key d token) s.kv; tick = s.tick + 1 },
      )
  unfolding reset_password
  reset_known token new_password stored s db' g ne w = ground (arith, eq_iff stored "")

  reset_unknown :
      (token new_password : String) (s : AuthState Db Kv)
      → d.redis_get (reset_key d token) s.kv ≡ none
      → reset_password d token new_password s ≡ (err invalid_reset_token, s)
  unfolding reset_password
  reset_unknown token new_password s g = ground arith

  -- The token generated for a registered email resets the password: after it a login with the new
  -- password succeeds, every refresh token of the user is refused, and the token is used up.
  pub forgot-reset-login :
      (email new_password other_password token : String) (u : User) (s : AuthState Db Kv)
      → d.find_by_email email s.db ≡ some u
      → (sent : String) × (s₁ s₂ s₃ : AuthState Db Kv) × (r : AuthResponse) × (forgot_password d
            email s
          ≡ (ok (reset_link_sent, some sent), s₁))
        × (reset_password d sent new_password s₁ ≡ (ok password_reset, s₂))
        × (login d (record { email = email; password = new_password }) s₂ ≡ (ok r, s₃))
        × (refresh_tokens d u.id token s₂ ≡ (err access_denied, s₂))
        × (reset_password d sent other_password s₂ ≡ (err invalid_reset_token, s₂))
  forgot-reset-login email new_password other_password token u s e =
      let sent = d.random_hex s.tick in
      let kv₁ = d.redis_set (reset_key d sent) (d.id_text u.id) 3600 s.kv in
      let s₁ = record s { kv = kv₁; tick = s.tick + 1 } in
      let h = d.hash new_password 12 s₁.tick in
      let (db₂, w) = laws.update-by_email email u (reset_patch h) s.db e in
      let w' : d.update_user (d.id_of_text (d.id_text u.id)) (reset_patch h) s.db ≡ some db₂ =
        rw (laws.id_of_text-id_text u.id) w in
      let s₂ = record s₁ {
        db = db₂;
        kv = d.redis_del (reset_key d sent) kv₁;
        tick = s₁.tick + 1;
      } in
      let (s₃, l) =
        login_accepts d laws (record { email = email; password = new_password })
          (apply_patch (reset_patch h) u) s₂
          (find_by_email_patched d laws email u (reset_patch h) s.db db₂ e w)
          ((laws.compare_iff new_password new_password 12 s₁.tick).1 refl) in
      (
        sent,
        s₁,
        s₂,
        s₃,
        _,
        forgot_known email u s e,
        reset_known sent new_password (d.id_text u.id) s₁ db₂
            (laws.get-set (reset_key d sent) (d.id_text u.id) 3600 s.kv)
            (laws.id_text-ne-empty u.id) w',
        l,
        cleared_by_update d laws u.id token (some h) s₂ s.db w,
        reset_unknown sent other_password s₂ (laws.get-del (reset_key d sent) kv₁),
      )
