-- ===== src/Sandbox/ApkBuild/Service.antt =====
-- The operations of src/sandbox/apk-build/apk-build.service.ts on its state.
use Prim.Native.String.{◌++◌}
use bolder_vibes_backend.Common.{
  ℕ, ◌+◌, String, ◌≡◌, Bool, not, ◌&&◌, Option, none, some, List, [], ◌∷◌, ◌==◌, ◌=s=◌,
  if◌then◌else◌, has, add, remove, Result, ok, err, map,
}
use bolder_vibes_backend.Sandbox.ApkBuild.{
  ApkBuildState, ApkBuildMode, ApkBuildPlatform, AndroidBuildType, Artifact, building, ready, error,
  idle_state, is_cloud, is_ios, is_aab, is_building, artifact_of, extension_for, filename_for,
  BuildFailure,
}

-- Redis, under the keys `apk:<project>`; an entry is the state that its JSON stands for.
pub record ApkRedis (Kv : Type 0) : Type 0 where
  pub get : ℕ → Kv → Option ApkBuildState
  pub set : ℕ → ApkBuildState → Kv → Kv
  pub del : ℕ → Kv → Kv

pub record ApkRedisLaws {Kv : Type 0} (r : ApkRedis Kv) : Type 0 where
  pub get-set :
      (k j : ℕ) (v : ApkBuildState) (kv : Kv)
      → r.get j (r.set k v kv) ≡ (if k == j then some v else r.get j kv)
  pub get-del : (k j : ℕ) (kv : Kv) → r.get j (r.del k kv) ≡ (if k == j then none else r.get j kv)

-- The events that go to a project's room.
pub data BuildEvent : Type 0 where
  build_started : ℕ → ApkBuildMode → ApkBuildPlatform → Option Artifact → BuildEvent
  build_ready : ℕ → ApkBuildState → BuildEvent
  build_error : ℕ → ApkBuildState → BuildEvent

-- The counters of `MetricsService` that the builds move.
pub record BuildMetrics : Type 0 where
  pub started : ℕ
  pub succeeded : ℕ
  pub failed : ℕ

-- The service's fields, and what it reaches: Redis, the sent events (the last first), the counters.
pub record BuildState (Kv : Type 0) : Type 0 where
  pub kv : Kv
  pub building_projects : List ℕ
  pub events : List BuildEvent
  pub metrics : BuildMetrics

pub data BuildError : Type 0 where
  already_in_progress : BuildError  -- BadRequestException
  ios_needs_cloud : BuildError  -- BadRequestException
  aab_needs_cloud : BuildError  -- BadRequestException
  project_not_found : BuildError  -- NotFoundException
  expo_token_missing : BuildError  -- BadRequestException
  not_ready : BuildError  -- NotFoundException
  outside_uploads : BuildError  -- NotFoundException
  artifact_gone : BuildError  -- NotFoundException

pub record BuildRequest : Type 0 where
  pub project_id : ℕ
  pub mode : ApkBuildMode
  pub platform : ApkBuildPlatform
  pub build_type : AndroidBuildType

-- What the database and the user's account answer: the owner of a project, and a user's Expo token.
pub record Lookups : Type 0 where
  pub owner_of : ℕ → Option ℕ
  pub token_of : ℕ → Option String

-- An empty token counts as none.
abbrev pub token_error : Option String → Option BuildError
token_error none = some expo_token_missing
token_error (some t) = if t =s= "" then some expo_token_missing else none

-- The token check of cloud mode.
unfoldable pub check_token : Lookups → ApkBuildMode → ℕ → Option BuildError
check_token q mode owner = if is_cloud mode then token_error (q.token_of owner) else none

-- The checks of `startBuild` before its first `await`: the guard on the set, and the combination.
unfoldable pub check_combination : BuildRequest → List ℕ → Option BuildError
check_combination req in_progress =
    if has req.project_id in_progress
    then some already_in_progress
    else if is_ios req.platform && not (is_cloud req.mode)
    then some ios_needs_cloud
    else if is_aab req.build_type && not (is_cloud req.mode)
    then some aab_needs_cloud
    else none

-- The checks that wait for the database.
unfoldable pub check_owner : Lookups → BuildRequest → Option BuildError
check_owner q req = elim (q.owner_of req.project_id) [
  | none ↦ some project_not_found
  | some owner ↦ check_token q req.mode owner
]

unfoldable pub building_state : BuildRequest → ApkBuildState
building_state req = record (idle_state req.project_id) {
  status = building;
  mode = some req.mode;
  platform = some req.platform;
  build_type = some (artifact_of req.platform req.build_type);
}

-- `markReady`; the local build leaves platform and type at their defaults.
unfoldable pub ready_state :
    (id_text : ℕ → String) (p : ℕ)
    → ApkBuildMode
    → (size_bytes built_at : ℕ) → ApkBuildPlatform
    → AndroidBuildType
    → ApkBuildState
ready_state id_text p mode size_bytes built_at platform build_type = record {
  project_id = p;
  status = ready;
  mode = some mode;
  platform = some platform;
  build_type = some (artifact_of platform build_type);
  download_url = some ("/api/v1/projects/" ++ (id_text p ++ "/apk/download"));
  size_bytes = some size_bytes;
  error = none;
  built_at = some built_at;
  eas_build_url = none;
  filename = some (filename_for (id_text p) (extension_for platform build_type));
}

unfoldable pub error_state : BuildRequest → BuildFailure → Option String → ApkBuildState
error_state req failure eas_build_url = record (idle_state req.project_id) {
  status = error;
  mode = some req.mode;
  platform = some req.platform;
  build_type = some (artifact_of req.platform req.build_type);
  error = some failure;
  eas_build_url = if is_cloud req.mode then eas_build_url else none;
}

module _ {Kv : Type 0} (r : ApkRedis Kv) where
  -- `redis.set` of the building state: the write that `startBuild` awaits.
  unfoldable pub publish : BuildRequest → BuildState Kv → BuildState Kv
  unfolding building_state
  publish req s = record s { kv = r.set req.project_id (building_state req) s.kv }

  -- What follows that `await`, up to the return: the event, the set, the counter.
  unfoldable pub enter : BuildRequest → BuildState Kv → BuildState Kv
  enter req s = record s {
    building_projects = add req.project_id s.building_projects;
    events =
        build_started req.project_id req.mode req.platform
          (some (artifact_of req.platform req.build_type))
        ∷ s.events;
    metrics = record (s.metrics) { started = s.metrics.started + 1 };
  }

  -- `startBuild`, with nothing else running between its steps.
  unfoldable pub start_build :
      Lookups → BuildRequest → BuildState Kv → Result BuildError ApkBuildState × BuildState Kv
  start_build q req s = elim (check_combination req s.building_projects) [
    | some e ↦ (err e, s)
    | none ↦ elim (check_owner q req) [
      | some e ↦ (err e, s)
      | none ↦ (ok (building_state req), enter req (publish req s))
    ]
  ]

  unfoldable pub mark_ready : ApkBuildState → BuildState Kv → BuildState Kv
  mark_ready state s = record s {
    kv = r.set state.project_id state s.kv;
    events = build_ready state.project_id state ∷ s.events;
  }

  unfoldable pub mark_error : ApkBuildState → BuildState Kv → BuildState Kv
  mark_error state s = record s {
    kv = r.set state.project_id state s.kv;
    events = build_error state.project_id state ∷ s.events;
  }

  -- `this.buildingProjects.delete(projectId)`, in the `finally`.
  abbrev pub leave : ℕ → BuildState Kv → BuildState Kv
  leave p s = record s { building_projects = remove p s.building_projects }

  -- The end of the background task: `then` or `catch`, and `finally`. A build that succeeds has
  -- already marked itself ready.
  unfoldable pub finish_ok : ApkBuildState → BuildState Kv → BuildState Kv
  unfolding mark_ready
  finish_ok state s =
      let s' = mark_ready state s in
      leave state.project_id
        (record s' { metrics = record (s'.metrics) { succeeded = s'.metrics.succeeded + 1 } })

  unfoldable pub finish_failed :
      BuildRequest → BuildFailure → Option String → BuildState Kv → BuildState Kv
  unfolding mark_error
  finish_failed req failure eas_build_url s =
      let s' = record s { metrics = record (s.metrics) { failed = s.metrics.failed + 1 } } in
      leave req.project_id (mark_error (error_state req failure eas_build_url) s')

  -- `getStatus`, with what `docker ps` says of the container.
  unfoldable pub get_status : (alive : Bool) (p : ℕ) → BuildState Kv → ApkBuildState × BuildState Kv
  get_status alive p s = elim (r.get p s.kv) [
    | none ↦ (idle_state p, s)
    | some state ↦
        if is_building state.status && not (has p s.building_projects) && not alive
        then (idle_state p, record s { kv = r.del p s.kv })
        else (state, s)
  ]

  -- `onApplicationShutdown`: the names of the containers to remove, and the empty set.
  unfoldable pub on_application_shutdown :
      (container_of : ℕ → String) → BuildState Kv → List String × BuildState Kv
  on_application_shutdown container_of s =
      (map container_of s.building_projects, record s { building_projects = [] })
