-- ===== src/Sandbox/ApkBuild/Starts.antt =====
-- When src/sandbox/apk-build/apk-build.service.ts starts a build, and how it recovers from a restart.
use mathlib.Core.Option.{some-injective}
use bolder_vibes_backend.Common.{
  ℕ, String, ◌≡◌, refl, sym, ◌≢◌, ◌↔◌, inl, inr, Bool, true, false, not, ◌&&◌, Option, none, some,
  List, [], arith, ◌=s=◌, has, ok, err, eq_iff, Option-cases, Bool-cases, ==_refl, ◌∙◌,
}
use bolder_vibes_backend.Sandbox.ApkBuild.{
  ApkBuildState, ApkBuildMode, ApkBuildPlatform, AndroidBuildType, local, cloud, android, ios, apk,
  aab, is_building, is_cloud, is_ios, is_aab, idle_state,
}
use bolder_vibes_backend.Sandbox.ApkBuild.Service.{
  ApkRedis, ApkRedisLaws, BuildState, BuildRequest, BuildError, Lookups, check_combination,
  check_owner, check_token, token_error, start_build, get_status, building_state, enter, publish,
}

-- The combinations that the comment of `startBuild` lists as supported.
pub data Supported : ApkBuildMode → ApkBuildPlatform → AndroidBuildType → Type 0 where
  local_apk : Supported local android apk
  on_cloud : {platform : ApkBuildPlatform} {t : AndroidBuildType} → Supported cloud platform t

-- The account that pays for the build: none locally, and a token that is not empty on the cloud.
abbrev pub Funded : Lookups → ApkBuildMode → ℕ → Type 0
Funded q local owner = Unit
Funded q cloud owner = (token : String) × (q.token_of owner ≡ some token) × (token ≢ "")

-- What a start wants: no build in the set, a supported combination, and a project with an owner who
-- can pay.
pub record IsStartable (q : Lookups) (req : BuildRequest) (in_progress : List ℕ) : Type 0 where
  pub free : has req.project_id in_progress ≡ false
  pub supported : Supported req.mode req.platform req.build_type
  pub funded : (owner : ℕ) × (q.owner_of req.project_id ≡ some owner) × Funded q req.mode owner

-- What the two tests on the combination let pass.
combination_of :
    (mode : ApkBuildMode) (platform : ApkBuildPlatform) (t : AndroidBuildType)
    → (is_ios platform && not (is_cloud mode)) ≡ false
    → (is_aab t && not (is_cloud mode)) ≡ false
    → Supported mode platform t
combination_of cloud platform t a b = on_cloud
combination_of local android apk a b = local_apk
combination_of local ios t a b = cc
combination_of local android aab a b = cc

let_pass :
    (mode : ApkBuildMode) (platform : ApkBuildPlatform) (t : AndroidBuildType)
    → Supported mode platform t
    → ((is_ios platform && not (is_cloud mode)) ≡ false)
      × ((is_aab t && not (is_cloud mode)) ≡ false)
let_pass mode platform t local_apk = (refl, refl)
let_pass cloud android apk on_cloud = (refl, refl)
let_pass cloud android aab on_cloud = (refl, refl)
let_pass cloud ios apk on_cloud = (refl, refl)
let_pass cloud ios aab on_cloud = (refl, refl)

Supported-iff :
    (req : BuildRequest) (in_progress : List ℕ)
    → (check_combination req in_progress ≡ none)
      ↔ ((has req.project_id in_progress ≡ false) × Supported req.mode req.platform req.build_type)
unfolding check_combination
Supported-iff req in_progress = (
  λ e. (
    ground arith,
    combination_of req.mode req.platform req.build_type (ground arith) (ground arith),
  ),
  λ (free, s). let (a, b) = let_pass req.mode req.platform req.build_type s in rw (free, a, b) refl,
)

token_iff :
    (o : Option String)
    → (token_error o ≡ none) ↔ ((token : String) × (o ≡ some token) × (token ≢ ""))
token_iff none = (λ e. cc, λ (t, e, ne). cc)
token_iff (some t) = elim (Bool-cases (t =s= "")) [
  | inl same ↦ (
    λ e. absurd (ground arith),
    λ (u, e, ne). absurd (ne (sym (some-injective _ _ e) ∙ (eq_iff t "").0 same)),
  )
  | inr other ↦ (λ e. (t, refl, λ blank. absurd (ground (arith, eq_iff t ""))), λ w. rw other refl)
]

Funded-iff :
    (q : Lookups) (mode : ApkBuildMode) (owner : ℕ)
    → (check_token q mode owner ≡ none) ↔ Funded q mode owner
unfolding check_token
Funded-iff q local owner = (λ e. tt, λ f. refl)
Funded-iff q cloud owner = token_iff (q.token_of owner)

at_owner :
    (q : Lookups) (req : BuildRequest) (owner : ℕ)
    → q.owner_of req.project_id ≡ some owner
    → check_owner q req ≡ check_token q req.mode owner
unfolding check_owner
at_owner q req owner found = rw (found, check_owner) refl

owner_iff :
    (q : Lookups) (req : BuildRequest)
    → (check_owner q req ≡ none)
      ↔ ((owner : ℕ) × (q.owner_of req.project_id ≡ some owner) × Funded q req.mode owner)
unfolding check_owner
owner_iff q req = elim (Option-cases (q.owner_of req.project_id)) [
  | inl missing ↦ (λ e. ground arith, λ (o, e, f). cc)
  | inr (owner, found) ↦ (
    λ e. (owner, found, (Funded-iff q req.mode owner).0 (sym (at_owner q req owner found) ∙ e)),
    λ (o, e, f). at_owner q req o e ∙ (Funded-iff q req.mode o).1 f,
  )
]

-- A startable request passes the checks.
pub passes_combination :
    (q : Lookups) (req : BuildRequest) (in_progress : List ℕ)
    → IsStartable q req in_progress
    → check_combination req in_progress ≡ none
passes_combination q req in_progress h = (Supported-iff req in_progress).1 (h.free, h.supported)

pub passes_owner :
    (q : Lookups) (req : BuildRequest) (in_progress : List ℕ)
    → IsStartable q req in_progress
    → check_owner q req ≡ none
passes_owner q req in_progress h = (owner_iff q req).1 h.funded

module _ {Kv : Type 0} (r : ApkRedis Kv) where
  IsStartable-of_accepted :
      (q : Lookups) (req : BuildRequest) (s s' : BuildState Kv) (st : ApkBuildState)
      → start_build r q req s ≡ (ok st, s')
      → IsStartable q req s.building_projects
  unfolding start_build
  IsStartable-of_accepted q req s s' st e =
      let (free, supported) = (Supported-iff req s.building_projects).0 (ground (arith)) in
      record { free = free; supported = supported; funded = (owner_iff q req).0 (ground arith) }

  accepts :
      (q : Lookups) (req : BuildRequest) (s : BuildState Kv)
      → IsStartable q req s.building_projects
      → start_build r q req s ≡ (ok (building_state req), enter r req (publish r req s))
  unfolding start_build
  accepts q req s h =
      let passed = passes_combination q req s.building_projects h in
      let paid = passes_owner q req s.building_projects h in ground arith

  -- A build starts exactly when none is in the set for the project, the mode, platform and type are a
  -- combination that the comment lists, and the project exists with an owner who, for a cloud build,
  -- has saved a token that is not empty.
  pub start_build_iff :
      (q : Lookups) (req : BuildRequest) (s : BuildState Kv)
      → ((st : ApkBuildState) × (s' : BuildState Kv) × (start_build r q req s ≡ (ok st, s')))
        ↔ IsStartable q req s.building_projects
  start_build_iff q req s = (
    λ (st, s', e). IsStartable-of_accepted q req s s' st e,
    λ h. (building_state req, enter r req (publish r req s), accepts q req s h),
  )

  -- A refused start writes nothing: Redis, the set, the events and the counters are as before.
  pub start_build_refused :
      (q : Lookups) (req : BuildRequest) (s s' : BuildState Kv) (e : BuildError)
      → start_build r q req s ≡ (err e, s')
      → s' ≡ s
  unfolding start_build
  start_build_refused q req s s' e refused = ground arith

  nothing_stored :
      (alive : Bool) (p : ℕ) (s : BuildState Kv)
      → r.get p s.kv ≡ none
      → get_status r alive p s ≡ (idle_state p, s)
  unfolding get_status
  nothing_stored alive p s e = ground arith

  orphan_dropped :
      (p : ℕ) (s : BuildState Kv) (st : ApkBuildState)
      → r.get p s.kv ≡ some st
      → is_building st.status ≡ true
      → s.building_projects ≡ []
      → get_status r false p s ≡ (idle_state p, record s { kv = r.del p s.kv })
  unfolding get_status
  orphan_dropped p s st e b restarted = ground arith

  pub stored_shown :
      (alive : Bool) (p : ℕ) (s : BuildState Kv) (st : ApkBuildState)
      → r.get p s.kv ≡ some st
      → is_building st.status ≡ false
      → get_status r alive p s ≡ (st, s)
  unfolding get_status
  stored_shown alive p s st e b = ground arith

  -- After a restart (the set is empty) with no container left, a poll of a project never shows a build
  -- in progress, and polling again gives the same answer and writes nothing.
  get_status_recovers :
      (laws : ApkRedisLaws r) (p : ℕ) (s : BuildState Kv)
      → s.building_projects ≡ []
      → let (st, s') = get_status r false p s in
        (is_building st.status ≡ false) × (get_status r false p s' ≡ (st, s'))
  get_status_recovers laws p s restarted = elim (Option-cases (r.get p s.kv)) [
    | inl nothing ↦ rw (nothing_stored false p s nothing) (refl, nothing_stored false p s nothing)
    | inr (st, there) ↦ elim (Bool-cases (is_building st.status)) [
      | inl b ↦ rw (orphan_dropped p s st there b restarted) (
        refl,
        nothing_stored false p (record s { kv = r.del p s.kv })
            (rw (laws.get-del p p s.kv, ==_refl p) refl),
      )
      | inr b ↦ rw (stored_shown false p s st there b) (b, stored_shown false p s st there b)
    ]
  ]
