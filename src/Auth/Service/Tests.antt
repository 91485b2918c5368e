-- ===== src/Auth/Service/Tests.antt =====
-- An in-memory account store, and the theorems about src/auth/auth.service.ts at it.
use Prim.Native.Char.{Char}
use Prim.Native.String.{◌++◌, count, ◌∷◌}
use bolder_vibes_backend.Common.{
  ℕ, zero, suc, ◌+◌, ◌-◌, String, ◌≡◌, refl, ◌↔◌, inl, inr, Option, none, some, ok, err, arith,
  ◌=s=◌, ◌==◌, if◌then◌else◌, ap, ◌≢◌, ◌∙◌, Option-cases, subst, sym, List, ==_refl, ◌&&◌,
}
use text.Mathlib.TextLemmas.{length-cons, cons-ne-nil}
use mathlib.Core.Option
use mathlib.Core.List.{[], ◌∷◌}
use bolder_vibes_backend.Auth.Deps.{AuthDeps, AuthLaws, User, UserPatch, user, patched, first_72}
use bolder_vibes_backend.Auth.Service.Login.{register-login, login_iff}
use bolder_vibes_backend.Auth.Service.Refresh.{
  refresh_rotates_iff, replaced_token_accepted, logout-refresh_tokens,
}
use bolder_vibes_backend.Auth.Service.Reset.{forgot-reset-login}
use mathlib.Core.Option.{some-injective}
use text.Mathlib.TextPositions.{eq_refl}
use bolder_vibes_backend.Auth.Service.{
  AuthState, AuthResponse, LoginDto, login, refresh_tokens, access_denied, forgot_password,
  reset_password, reset_link_sent, password_reset, invalid_reset_token, register, logout, Bool,
  true, false,
}

record Memory : Type 0 where
  by_email : String → Option User
  by_id : ℕ → Option User
  next : ℕ

abbrev with_id : ℕ → User → User
with_id i u = record u { id = i }

abbrev new_user : String → String → Option String → ℕ → User
new_user e h n i = record {
  id = i;
  email = e;
  password_hash = h;
  name = n;
  role = user;
  refresh_token = none;
}

abbrev find_id : ℕ → Memory → Option User
find_id i db = Option.map (with_id i) (db.by_id i)

abbrev inserted : User → Memory → Memory
inserted u db = record {
  by_email = λ e. if u.email =s= e then some u else db.by_email e;
  by_id = λ i. if u.id == i then some u else db.by_id i;
  next = db.next + 1;
}

abbrev updated : ℕ → UserPatch → Memory → Memory
updated i p db = record db {
  by_email = λ e. Option.map (patched i p) (db.by_email e);
  by_id = λ j. Option.map (patched i p) (find_id j db);
}

-- A number as a text of that many letters and one more.
unary : ℕ → String
unary zero = "i"
unary (suc n) = String.◌∷◌ "i" (unary n)

count-unary : (n : ℕ) → count (unary n) ≡ suc n
unfolding unary
count-unary zero = refl
count-unary (suc n) = length-cons _ (unary n) ∙ ap suc (count-unary n)

unary-ne-empty : (n : ℕ) → unary n ≢ ""
unary-ne-empty n e = omega (arith, count-unary n, ap count e)

-- The header of a token, and the start of a payload, which names the user: 73 bytes.
abbrev token_start : String
token_start = "eyJhbGciOiJIUzI1NiIsInR5cCI6IkpXVCJ9.eyJzdWIiOiIxMjM0NTY3ODkwMTIzNDU2Nzg5"

abbrev dollar : Char
dollar = "$"

-- The hash is the text behind a dollar.
abbrev behind_dollar : String → String
behind_dollar String.[] = String.[]
behind_dollar (String.◌∷◌ c s) = s

abbrev same_bytes : List ℕ → List ℕ → Bool
same_bytes [] [] = true
same_bytes [] (b ∷ bs) = false
same_bytes (a ∷ xs) [] = false
same_bytes (a ∷ xs) (b ∷ bs) = let rest = same_bytes xs bs in (a == b) && rest

same_bytes_refl : (xs : List ℕ) → same_bytes xs xs ≡ true
same_bytes_refl [] = refl
same_bytes_refl (a ∷ xs) = rw (==_refl a, same_bytes_refl xs) refl

same_bytes_equal : (xs ys : List ℕ) → same_bytes xs ys ≡ true → xs ≡ ys
same_bytes_equal [] [] h = refl
same_bytes_equal [] (b ∷ ys) h = absurd (ground arith)
same_bytes_equal (a ∷ xs) [] h = absurd (ground arith)
same_bytes_equal (a ∷ xs) (b ∷ ys) h =
    let here : a ≡ b = ground arith in
    let there : same_bytes xs ys ≡ true = ground arith in
    rw (here, same_bytes_equal xs ys there) refl

same_bytes_iff : (xs ys : List ℕ) → (same_bytes xs ys ≡ true) ↔ (xs ≡ ys)
same_bytes_iff xs ys =
    (same_bytes_equal xs ys, λ e. subst (λ z. same_bytes xs z ≡ true) e (same_bytes_refl xs))

abbrev memory : AuthDeps Memory (String → Option String)
memory = record {
  find_by_email = λ e db. db.by_email e;
  find_by_id = find_id;
  create_user = λ e h n db. let u = new_user e h n db.next in some (u, inserted u db);
  update_user = λ i p db. some (updated i p db);
  redis_get = λ k kv. kv k;
  redis_set = λ k v ttl kv j. if k =s= j then some v else kv j;
  redis_del = λ k kv j. if k =s= j then none else kv j;
  hash = λ text rounds salt. String.◌∷◌ dollar text;
  compare = λ text hashed. same_bytes (first_72 text) (first_72 (behind_dollar hashed));
  sign = λ payload secret expires_in now. token_start ++ unary now;
  random_hex = unary;
  hmac = λ secret text. secret ++ text;
  id_text = unary;
  id_of_text = λ text. count text - 1;
  access_secret = "a";
  refresh_secret = "r";
  access_expiration = "15m";
  refresh_expiration = "7d";
}

find_by_id-updated :
    (i : ℕ) (p : UserPatch) (db : Memory) (j : ℕ)
    → find_id j (updated i p db) ≡ Option.map (patched i p) (find_id j db)
find_by_id-updated i p db j = elim (Option-cases (db.by_id j)) [
  | inl missing ↦ rw missing
  | inr (u, found) ↦ rw found (ground arith)
]

-- The in-memory store behaves as is assumed of the real ones.
memory-AuthLaws : AuthLaws memory
memory-AuthLaws = record {
  create_lem = λ e h n db missing.
      let u = new_user e h n db.next in (u, inserted u db, refl, refl, refl, rw (eq_refl e));
  update-by_email = λ e u p db found. (updated u.id p db, refl);
  update-by_id = λ i u p db found. (updated i p db, refl);
  find_by_email-update = λ i p db db' e w.
      subst (λ m. m.by_email e ≡ Option.map (patched i p) (db.by_email e)) (some-injective _ _ w)
        refl;
  find_by_id-update = λ i p db db' j w.
      subst (λ m. find_id j m ≡ Option.map (patched i p) (find_id j db)) (some-injective _ _ w)
        (find_by_id-updated i p db j);
  find_by_id-id = λ i db u found.
      let (v, _, same) = (Option.map-eq-some_iff _ _).0 found in sym (ap (λ w. w.id) same);
  get-set = λ k v ttl kv. rw (eq_refl k);
  get-del = λ k kv. rw (eq_refl k);
  compare_iff = λ p q rounds salt. same_bytes_iff (first_72 p) (first_72 q);
  hash-ne-empty = λ q rounds salt e. cons-ne-nil dollar q e;
  id_of_text-id_text = λ i. omega (arith, count-unary i);
  id_text-ne-empty = unary-ne-empty;
}

abbrev start : AuthState Memory (String → Option String)
start = record {
  db = record { by_email = λ e. none; by_id = λ i. none; next = 0 };
  kv = λ k. none;
  tick = 0;
}

abbrev ann : User
ann = record {
  id = 7;
  email = "ann@x";
  password_hash = memory.hash "Secret12" 12 0;
  name = none;
  role = user;
  refresh_token = some (memory.hash (token_start ++ "old") 12 0);
}

abbrev with_ann : AuthState Memory (String → Option String)
with_ann = record start { db = inserted ann start.db }

abbrev ann_login : LoginDto
ann_login = record { email = "ann@x"; password = "Secret12" }

register-login_example :
    (r r' : AuthResponse) × (s' s'' : AuthState Memory (String → Option String)) × (register memory
        (record { email = "bob@x"; password = "Secret12"; name = none })
        with_ann
      ≡ (ok r, s'))
    × (login memory (record { email = "bob@x"; password = "Secret12" }) s' ≡ (ok r', s''))
    × (r'.id ≡ r.id)
register-login_example =
    register-login memory memory-AuthLaws
      (record { email = "bob@x"; password = "Secret12"; name = none }) with_ann refl

login_iff_example :
    ((r : AuthResponse) × (s' : AuthState Memory (String → Option String)) × (login memory ann_login
          with_ann
        ≡ (ok r, s'))
      × (r.id ≡ 7))
    ↔ (first_72 "Secret12" ≡ first_72 "Secret12")
login_iff_example = login_iff memory memory-AuthLaws ann_login ann "Secret12" 0 with_ann refl refl

refresh_rotates_iff_example :
    (r : AuthResponse) × (s' : AuthState Memory (String → Option String)) × (refresh_tokens memory 7
        (token_start ++ "old")
        with_ann
      ≡ (ok r, s'))
    × (((r' : AuthResponse) × (s'' : AuthState Memory (String → Option String)) × (refresh_tokens
              memory 7 "short" s'
            ≡ (ok r', s'')))
        ↔ (first_72 "short" ≡ first_72 r.tokens.refresh_token))
refresh_rotates_iff_example =
    refresh_rotates_iff memory memory-AuthLaws 7 ann (token_start ++ "old") 0 with_ann
      (token_start ++ "old") "short" refl refl refl

replaced_token_accepted_example :
    (r r' : AuthResponse) × (s' s'' : AuthState Memory (String → Option String)) × (refresh_tokens
        memory 7
        (token_start ++ "old")
        with_ann
      ≡ (ok r, s'))
    × (refresh_tokens memory 7 (token_start ++ "old") s' ≡ (ok r', s''))
unfolding unary
replaced_token_accepted_example =
    replaced_token_accepted memory memory-AuthLaws 7 ann (token_start ++ "old") 0 with_ann refl refl
      refl

logout-refresh_tokens_example :
    let s' = record with_ann {
      db = updated 7 (record { password_hash = none; refresh_token = some none }) with_ann.db;
    } in
    refresh_tokens memory 7 (token_start ++ "old") s' ≡ (err access_denied, s')
logout-refresh_tokens_example =
    logout-refresh_tokens memory memory-AuthLaws 7 (token_start ++ "old") with_ann
      (record with_ann {
        db = updated 7 (record { password_hash = none; refresh_token = some none }) with_ann.db;
      })
      (unfold logout in refl)

forgot-reset-login_example :
    (sent : String) × (s₁ s₂ s₃ : AuthState Memory (String → Option String)) × (r : AuthResponse)
    × (forgot_password memory "ann@x" with_ann ≡ (ok (reset_link_sent, some sent), s₁))
    × (reset_password memory sent "Changed34" s₁ ≡ (ok password_reset, s₂))
    × (login memory (record { email = "ann@x"; password = "Changed34" }) s₂ ≡ (ok r, s₃))
    × (refresh_tokens memory 7 "any" s₂ ≡ (err access_denied, s₂))
    × (reset_password memory sent "Again56" s₂ ≡ (err invalid_reset_token, s₂))
forgot-reset-login_example =
    forgot-reset-login memory memory-AuthLaws "ann@x" "Changed34" "Again56" "any" ann with_ann refl
