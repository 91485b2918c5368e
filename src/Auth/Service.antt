-- ===== src/Auth/Service.antt =====
-- src/auth/auth.service.ts.
pub mod Login
pub mod Refresh
pub mod Reset
mod Tests
use bolder_vibes_backend.Common.{
  ℕ, ◌+◌, String, Bool, true, false, not, ◌||◌, Option, none, some, ◌=s=◌, ◌==◌, Result, ok, err,
  Action, pure, throw, ◌>>=◌, ◌>>◌, throw_if, or_throw, is_some, if◌then◌else◌,
}
use Prim.Native.String.{◌++◌}
use bolder_vibes_backend.Auth.Deps.{AuthDeps, User, UserPatch, JwtPayload, Role}

-- The exceptions: the HTTP ones with their message, and one of the database.
pub data AuthError : Type 0 where
  email_already_registered : AuthError  -- ConflictException
  invalid_credentials : AuthError  -- UnauthorizedException
  access_denied : AuthError  -- ForbiddenException
  invalid_reset_token : AuthError  -- BadRequestException
  database_error : AuthError

-- The stores, and a counter that stands for the clock and the random source.
pub record AuthState (Db Kv : Type 0) : Type 0 where
  pub db : Db
  pub kv : Kv
  pub tick : ℕ

pub record RegisterDto : Type 0 where
  pub email : String
  pub password : String
  pub name : Option String

pub record LoginDto : Type 0 where
  pub email : String
  pub password : String

pub record Tokens : Type 0 where
  pub access_token : String
  pub refresh_token : String

-- `AuthResponseDto`.
pub record AuthResponse : Type 0 where
  pub tokens : Tokens
  pub id : ℕ
  pub email : String
  pub name : Option String
  pub role : Role

pub data Message : Type 0 where
  reset_link_sent : Message
  password_reset : Message

abbrev pub payload_of : User → JwtPayload
payload_of u = record { sub = u.id; email = u.email; role = u.role }

abbrev respond : User → Tokens → AuthResponse
respond u t = record { tokens = t; id = u.id; email = u.email; name = u.name; role = u.role }

-- `!text`, for a text that may be null.
abbrev is_blank : Option String → Bool
is_blank none = true
is_blank (some t) = t =s= ""

module _ {Db Kv : Type 0} (d : AuthDeps Db Kv) where
  abbrev S : Type 0
  S = AuthState Db Kv

  -- A write of Prisma, which may throw.
  abbrev write : (Db → Option Db) → Action S AuthError (Unit {0})
  write f s = elim (f s.db) [
    | none ↦ (err database_error, s)
    | some db' ↦ (ok tt, record s { db = db' })
  ]

  -- `bcrypt.hash(text, 12)`.
  abbrev bcrypt : String → Action S AuthError String
  bcrypt text s = (ok (d.hash text 12 s.tick), record s { tick = s.tick + 1 })

  unfoldable pub generate_tokens : JwtPayload → Action S AuthError Tokens
  generate_tokens payload s = (
    ok (record {
      access_token = d.sign payload d.access_secret d.access_expiration s.tick;
      refresh_token = d.sign payload d.refresh_secret d.refresh_expiration s.tick;
    }),
    record s { tick = s.tick + 1 },
  )

  unfoldable pub update_refresh_token : ℕ → String → Action S AuthError (Unit {0})
  update_refresh_token user_id token = do
    hashed ← bcrypt token
    write (
        d.update_user user_id (record { password_hash = none; refresh_token = some (some hashed) }))

  -- The end that `register`, `login` and `refreshTokens` share: new tokens, the new hash, the answer.
  unfoldable pub open_session : User → Action S AuthError AuthResponse
  unfolding generate_tokens update_refresh_token
  open_session u = do
    tokens ← generate_tokens (payload_of u)
    update_refresh_token u.id tokens.refresh_token
    pure (respond u tokens)

  unfoldable pub insert_user : RegisterDto → String → Action S AuthError User
  insert_user dto password_hash s = elim (d.create_user dto.email password_hash dto.name s.db) [
    | none ↦ (err database_error, s)
    | some (u, db') ↦ (ok u, record s { db = db' })
  ]

  unfoldable pub register : RegisterDto → Action S AuthError AuthResponse
  register dto s = elim (d.find_by_email dto.email s.db) [
    | some u ↦ (err email_already_registered, s)
    | none ↦
        (do password_hash ← bcrypt dto.password; u ← insert_user dto password_hash; open_session u)
          s
  ]

  unfoldable pub login : LoginDto → Action S AuthError AuthResponse
  login dto s = elim (d.find_by_email dto.email s.db) [
    | none ↦ (err invalid_credentials, s)
    | some u ↦
        if d.compare dto.password u.password_hash
        then open_session u s
        else (err invalid_credentials, s)
  ]

  -- The row's refresh token, `null` as the empty text.
  unfoldable pub refresh_tokens : ℕ → String → Action S AuthError AuthResponse
  refresh_tokens user_id refresh_token s = elim (d.find_by_id user_id s.db) [
    | none ↦ (err access_denied, s)
    | some u ↦ elim u.refresh_token [
      | none ↦ (err access_denied, s)
      | some stored ↦
          if stored =s= ""
          then (err access_denied, s)
          else if d.compare refresh_token stored
          then open_session u s
          else (err access_denied, s)
    ]
  ]

  unfoldable pub logout : ℕ → Action S AuthError (Unit {0})
  logout user_id =
      write (d.update_user user_id (record { password_hash = none; refresh_token = some none }))

  unfoldable pub hash_reset_token : String → String
  hash_reset_token token = d.hmac d.access_secret token

  unfoldable pub reset_key : String → String
  reset_key token = "password-reset:" ++ hash_reset_token token

  -- The second part of the result is the token generated, which the source drops: the delivery by
  -- email is a stub there.
  unfoldable pub forgot_password : String → Action S AuthError (Message × Option String)
  forgot_password email s = elim (d.find_by_email email s.db) [
    | none ↦ (ok (reset_link_sent, none), s)
    | some u ↦
        let token = d.random_hex s.tick in
        (
          ok (reset_link_sent, some token),
          record s {
            kv = d.redis_set (reset_key token) (d.id_text u.id) 3600 s.kv;
            tick = s.tick + 1;
          },
        )
  ]

  unfoldable pub reset_password : (token new_password : String) → Action S AuthError Message
  reset_password token new_password s = elim (d.redis_get (reset_key token) s.kv) [
    | none ↦ (err invalid_reset_token, s)
    | some user_id ↦
        if user_id =s= ""
        then (err invalid_reset_token, s)
        else (do
          password_hash ← bcrypt new_password
          write (
              d.update_user (d.id_of_text user_id)
                (record { password_hash = some password_hash; refresh_token = some none }))
          (λ s'. (ok password_reset, record s' { kv = d.redis_del (reset_key token) s'.kv })))
            s
  ]
