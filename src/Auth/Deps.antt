-- ===== src/Auth/Deps.antt =====
-- What src/auth/auth.service.ts uses and does not implement: the users table behind Prisma, Redis,
-- bcrypt, the JWT signer and the random source, as operations with the behaviour that is documented.
use Prim.Native.Char.{code}
use bolder_vibes_backend.Common.{
  ℕ, zero, suc, ◌+◌, String, ◌≡◌, ◌↔◌, Bool, List, [], ◌∷◌, ◌++◌, ltb, true, Option, none, some,
  ◌==◌, if◌then◌else◌, ◌≢◌, ◌/◌, ◌%◌,
}
use mathlib.Core.Option

-- The roles of prisma/schema.prisma.
pub data Role : Type 0 where
  user admin : Role

-- A row of the users table, as far as the service reads and writes it.
pub record User : Type 0 where
  pub id : ℕ
  pub email : String
  pub password_hash : String
  pub name : Option String
  pub role : Role
  pub refresh_token : Option String

-- The `data` of an update; `none` leaves the column alone.
pub record UserPatch : Type 0 where
  pub password_hash : Option String
  pub refresh_token : Option (Option String)

abbrev keep {ℓ} : {A : Type ℓ} → Option A → A → A
keep none old = old
keep (some a) old = a

abbrev pub apply_patch : UserPatch → User → User
apply_patch p u = record u {
  password_hash = keep p.password_hash u.password_hash;
  refresh_token = keep p.refresh_token u.refresh_token;
}

-- `JwtPayload`.
pub record JwtPayload : Type 0 where
  pub sub : ℕ
  pub email : String
  pub role : Role

-- A row that has the id is patched.
abbrev pub patched : ℕ → UserPatch → User → User
patched i p u = if u.id == i then apply_patch p u else u

pub record AuthDeps (Db Kv : Type 0) : Type 0 where
  -- `prisma.user`: `none` of a write is the exception of Prisma.
  pub find_by_email : String → Db → Option User
  pub find_by_id : ℕ → Db → Option User
  pub create_user : (email password_hash : String) (name : Option String) → Db → Option (User × Db)
  pub update_user : ℕ → UserPatch → Db → Option Db
  -- Redis.
  pub redis_get : String → Kv → Option String
  pub redis_set : (key value : String) (ttl : ℕ) → Kv → Kv
  pub redis_del : String → Kv → Kv
  -- `bcrypt.hash` with a salt drawn by the library.
  pub hash : (text : String) (rounds salt : ℕ) → String
  pub compare : (text hashed : String) → Bool
  -- `jwt.signAsync`, at a time.
  pub sign : (payload : JwtPayload) (secret expires_in : String) (now : ℕ) → String
  -- `randomBytes(32).toString('hex')` and the HMAC of a text under a secret.
  pub random_hex : ℕ → String
  pub hmac : (secret text : String) → String
  -- An id as the text that Redis stores, and back.
  pub id_text : ℕ → String
  pub id_of_text : String → ℕ
  -- The configuration.
  pub access_secret : String
  pub refresh_secret : String
  pub access_expiration : String
  pub refresh_expiration : String

-- The bytes of a character in UTF-8, by its code.
abbrev utf8_of_code : ℕ → List ℕ
utf8_of_code n =
    if ltb n 128
    then n ∷ []
    else if ltb n 2048
    then (192 + n / 64) ∷ (128 + n % 64) ∷ []
    else if ltb n 65536
    then (224 + n / 4096) ∷ (128 + (n / 64) % 64) ∷ (128 + n % 64) ∷ []
    else (240 + n / 262144) ∷ (128 + (n / 4096) % 64) ∷ (128 + (n / 64) % 64) ∷ (128 + n % 64) ∷ []

abbrev utf8 : String → List ℕ
utf8 String.[] = []
utf8 (String.◌∷◌ c s) = utf8_of_code (code c) ++ utf8 s

-- So many bytes of a list, from its beginning again where it ends; `rest` is what is left of the round.
abbrev cycled : ℕ → (whole rest : List ℕ) → List ℕ
cycled zero whole rest = []
cycled (suc n) whole (b ∷ rest) = b ∷ cycled n whole rest
cycled (suc n) [] [] = []
cycled (suc n) (b ∷ whole) [] = b ∷ cycled n (b ∷ whole) whole

-- The 72 bytes that bcrypt's key schedule reads of a text: its UTF-8 and a zero byte, over and over. Of
-- a text of at least 72 bytes they are the first 72.
abbrev pub first_72 : String → List ℕ
first_72 text = let key = utf8 text ++ (0 ∷ []) in cycled 72 key key

pub record AuthLaws {Db Kv : Type 0} (d : AuthDeps Db Kv) : Type 0 where
  -- An email that no row has can be inserted, and the row is what the query then finds.
  pub create_lem :
      (e h : String) (n : Option String) (db : Db)
      → d.find_by_email e db ≡ none
      → (u : User) × (db' : Db) × (d.create_user e h n db ≡ some (u, db'))
        × (u.email ≡ e)
        × (u.password_hash ≡ h)
        × (d.find_by_email e db' ≡ some u)
  -- A row that a query finds can be updated.
  pub update-by_email :
      (e : String) (u : User) (p : UserPatch) (db : Db)
      → d.find_by_email e db ≡ some u
      → (db' : Db) × (d.update_user u.id p db ≡ some db')
  pub update-by_id :
      (i : ℕ) (u : User) (p : UserPatch) (db : Db)
      → d.find_by_id i db ≡ some u
      → (db' : Db) × (d.update_user i p db ≡ some db')
  -- An update patches the row with the id, and no other.
  pub find_by_email-update :
      (i : ℕ) (p : UserPatch) (db db' : Db) (e : String)
      → d.update_user i p db ≡ some db'
      → d.find_by_email e db' ≡ Option.map (patched i p) (d.find_by_email e db)
  pub find_by_id-update :
      (i : ℕ) (p : UserPatch) (db db' : Db) (j : ℕ)
      → d.update_user i p db ≡ some db'
      → d.find_by_id j db' ≡ Option.map (patched i p) (d.find_by_id j db)
  pub find_by_id-id : (i : ℕ) (db : Db) (u : User) → d.find_by_id i db ≡ some u → u.id ≡ i
  -- A key reads as it was last written, and as nothing once it is deleted.
  pub get-set : (k v : String) (ttl : ℕ) (kv : Kv) → d.redis_get k (d.redis_set k v ttl kv) ≡ some v
  pub get-del : (k : String) (kv : Kv) → d.redis_get k (d.redis_del k kv) ≡ none
  -- bcrypt tells apart what differs in these bytes, and nothing else: collisions of its output are left
  -- out.
  pub compare_iff :
      (p q : String) (rounds salt : ℕ)
      → (d.compare p (d.hash q rounds salt) ≡ true) ↔ (first_72 p ≡ first_72 q)
  pub hash-ne-empty : (q : String) (rounds salt : ℕ) → d.hash q rounds salt ≢ ""
  pub id_of_text-id_text : (i : ℕ) → d.id_of_text (d.id_text i) ≡ i
  pub id_text-ne-empty : (i : ℕ) → d.id_text i ≢ ""
