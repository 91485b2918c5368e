-- ===== src/Sandbox/ApkBuild/Invariant.antt =====
-- What holds of the builds of src/sandbox/apk-build/apk-build.service.ts over every sequence of
-- operations, when no two of them overlap.
use bolder_vibes_backend.Common.{
  ℕ, String, ◌≡◌, refl, sym, Bool, true, false, Option, none, some, List, [], ◌∷◌, arith, ◌==◌,
  if◌then◌else◌, has, remove, erase, Distinct, has-add, has-remove, has-erase, erase-Distinct,
  Result, ok, err, Bool-cases, Option-cases, ==_refl, ==_iff, inl, inr, subst, ◌⊎◌, ◌∙◌,
}
use bolder_vibes_backend.Sandbox.ApkBuild.{ApkBuildState, BuildFailure, is_building}
use bolder_vibes_backend.Sandbox.ApkBuild.Service.{
  ApkRedis, ApkRedisLaws, BuildState, BuildRequest, Lookups, check_combination, check_owner,
  building_state, start_build, publish, enter, finish_ok, finish_failed, get_status, error_state,
}

-- What may happen: a start, the end of a background task either way, a poll of the status.
pub data Op : Type 0 where
  start : Lookups → BuildRequest → Op
  succeed : ApkBuildState → Op
  fail : BuildRequest → BuildFailure → Option String → Op
  poll : Bool → ℕ → Op

-- The service, and the projects of the background tasks that have not ended.
pub record System (Kv : Type 0) : Type 0 where
  pub state : BuildState Kv
  pub tasks : List ℕ

abbrev pub started : {E A : Type 0} → Result E A → ℕ → List ℕ → List ℕ
started (ok a) p tasks = p ∷ tasks
started (err e) p tasks = tasks

module _ {Kv : Type 0} (r : ApkRedis Kv) where
  -- A task ends once; an end of a task that is not there does nothing.
  unfoldable pub step : System Kv → Op → System Kv
  step x (start q req) =
      let (result, s) = start_build r q req x.state in
      record { state = s; tasks = started result req.project_id x.tasks }
  step x (succeed done) =
      if has done.project_id x.tasks
      then record { state = finish_ok r done x.state; tasks = erase done.project_id x.tasks }
      else x
  step x (fail req failure url) =
      if has req.project_id x.tasks
      then record {
        state = finish_failed r req failure url x.state;
        tasks = erase req.project_id x.tasks;
      }
      else x
  step x (poll alive p) = record x { state = (get_status r alive p x.state).1 }

  unfoldable pub run : System Kv → List Op → System Kv
  run x [] = x
  run x (op ∷ ops) = run (step x op) ops

  -- The stored state of a project says that it is being built.
  abbrev pub ShownBuilding : ℕ → Kv → Type 0
  ShownBuilding p kv =
      (st : ApkBuildState) × (r.get p kv ≡ some st) × (is_building st.status ≡ true)

  -- The set holds the projects of the running tasks, each has one, and Redis shows it as building.
  pub record Inv (x : System Kv) : Type 0 where
    pub same : (p : ℕ) → has p x.state.building_projects ≡ has p x.tasks
    pub distinct : Distinct x.tasks
    pub shown : (p : ℕ) → has p x.tasks ≡ true → ShownBuilding p x.state.kv

not_in_progress :
    (req : BuildRequest) (in_progress : List ℕ)
    → check_combination req in_progress ≡ none
    → has req.project_id in_progress ≡ false
unfolding check_combination
not_in_progress req in_progress e = ground arith

in_and_out : (p j : ℕ) (xs : List ℕ) → p ≡ j → has p xs ≡ false → has j xs ≡ true → ⊥
in_and_out p j xs e f t = cc

-- The service after it has started.
abbrev pub fresh : {Kv : Type 0} → Kv → System Kv
fresh kv = record {
  state = record {
    kv = kv;
    building_projects = [];
    events = [];
    metrics = record { started = 0; succeeded = 0; failed = 0 };
  };
  tasks = [];
}

module _ {Kv : Type 0} (r : ApkRedis Kv) (laws : ApkRedisLaws r) where
  -- A write under one key leaves what another project shows.
  ShownBuilding-set :
      (k p : ℕ) (st : ApkBuildState) (kv : Kv)
      → (k == p) ≡ false
      → ShownBuilding r p kv
      → ShownBuilding r p (r.set k st kv)
  ShownBuilding-set k p st kv ne (old, g, b) = (old, rw (laws.get-set k p st kv, ne) g, b)

  ShownBuilding-del :
      (k p : ℕ) (kv : Kv) → (k == p) ≡ false → ShownBuilding r p kv → ShownBuilding r p (r.del k kv)
  ShownBuilding-del k p kv ne (old, g, b) = (old, rw (laws.get-del k p kv, ne) g, b)

  ShownBuilding-publish :
      (req : BuildRequest) (kv : Kv)
      → ShownBuilding r req.project_id (r.set req.project_id (building_state req) kv)
  unfolding building_state
  ShownBuilding-publish req kv = (
    building_state req,
    rw (laws.get-set req.project_id req.project_id _ kv, ==_refl req.project_id),
    refl,
  )

  entered-Inv :
      (req : BuildRequest) (x : System Kv)
      → has req.project_id x.state.building_projects ≡ false
      → Inv r x
      → Inv r
          (record { state = enter r req (publish r req x.state); tasks = req.project_id ∷ x.tasks })
  unfolding enter publish
  entered-Inv req x free h = record {
    same = λ p. ground (arith, h.same p, has-add p req.project_id x.state.building_projects);
    distinct = (ground (arith, h.same req.project_id), h.distinct);
    shown = λ p t. elim (Bool-cases (req.project_id == p)) [
      | inl e ↦
          subst (λ j. ShownBuilding r j (r.set req.project_id (building_state req) x.state.kv))
            ((==_iff req.project_id p).0 e) (ShownBuilding-publish req x.state.kv)
      | inr ne ↦ ShownBuilding-set req.project_id p _ x.state.kv ne (h.shown p (ground arith))
    ];
  }

  start-Inv :
      (q : Lookups) (req : BuildRequest) (x : System Kv) → Inv r x → Inv r (step r x (start q req))
  unfolding step start_build
  start-Inv q req x h = elim (Option-cases (check_combination req x.state.building_projects)) [
    | inr (e, refused) ↦ rw (refused, start_build) h
    | inl passed ↦ elim (Option-cases (check_owner q req)) [
      | inr (e, refused) ↦ rw (passed, refused, start_build) h
      | inl known ↦
          rw (passed, known, start_build) (entered-Inv req x (not_in_progress req _ passed) h)
    ]
  ]

  -- A task ends: its project leaves the set, and one write under its key is made.
  ended-Inv :
      (p : ℕ) (st : ApkBuildState) (x : System Kv) (s : BuildState Kv)
      → s.kv ≡ r.set p st x.state.kv
      → s.building_projects ≡ remove p x.state.building_projects
      → Inv r x
      → Inv r (record { state = s; tasks = erase p x.tasks })
  ended-Inv p st x s wrote left h = record {
    same = λ j. rw left (
        ground (
          arith,
          h.same j,
          has-remove j p x.state.building_projects,
          has-erase j p x.tasks h.distinct,
        ));
    distinct = erase-Distinct p x.tasks h.distinct;
    shown = λ j t.
        let still = has-erase j p x.tasks h.distinct in
        rw wrote (ShownBuilding-set p j st x.state.kv (ground arith) (h.shown j (ground arith)));
  }

  succeed-Inv : (done : ApkBuildState) (x : System Kv) → Inv r x → Inv r (step r x (succeed done))
  unfolding step finish_ok
  succeed-Inv done x h = elim (Bool-cases (has done.project_id x.tasks)) [
    | inl there ↦ rw there (ended-Inv done.project_id done x _ refl refl h)
    | inr gone ↦ rw gone h
  ]

  fail-Inv :
      (req : BuildRequest) (failure : BuildFailure) (url : Option String) (x : System Kv)
      → Inv r x
      → Inv r (step r x (fail req failure url))
  unfolding step finish_failed error_state
  fail-Inv req failure url x h = elim (Bool-cases (has req.project_id x.tasks)) [
    | inl there ↦ rw there (ended-Inv req.project_id (error_state req failure url) x _ refl refl h)
    | inr gone ↦ rw gone h
  ]

  -- A poll changes nothing, or drops the entry of a project that is not in the set.
  poll_cases :
      (alive : Bool) (p : ℕ) (s : BuildState Kv)
      → ((get_status r alive p s).1 ≡ s)
        ⊎ ((has p s.building_projects ≡ false)
            × ((get_status r alive p s).1 ≡ record s { kv = r.del p s.kv }))
  unfolding get_status
  poll_cases alive p s = ground arith

  poll-Inv : (alive : Bool) (p : ℕ) (x : System Kv) → Inv r x → Inv r (step r x (poll alive p))
  unfolding step
  poll-Inv alive p x h = elim (poll_cases alive p x.state) [
    | inl same ↦ rw same h
    | inr (out, dropped) ↦ rw dropped (record {
      same = h.same;
      distinct = h.distinct;
      shown = λ j t. elim (Bool-cases (p == j)) [
        | inl e ↦ absurd (in_and_out p j x.tasks ((==_iff p j).0 e) (sym (h.same p) ∙ out) t)
        | inr ne ↦ ShownBuilding-del p j x.state.kv ne (h.shown j t)
      ];
    })
  ]

  step-Inv : (op : Op) (x : System Kv) → Inv r x → Inv r (step r x op)
  step-Inv (start q req) x h = start-Inv q req x h
  step-Inv (succeed done) x h = succeed-Inv done x h
  step-Inv (fail req failure url) x h = fail-Inv req failure url x h
  step-Inv (poll alive p) x h = poll-Inv alive p x h

  run_from-Inv : (x : System Kv) (ops : List Op) → Inv r x → Inv r (run r x ops)
  unfolding run
  run_from-Inv x [] h = h
  run_from-Inv x (op ∷ ops) h = run_from-Inv (step r x op) ops (step-Inv op x h)

  -- After any sequence of starts, ends and polls of a service that has just started, whatever Redis
  -- still holds: no project has two running builds, the in-memory set holds exactly the projects that
  -- have one, and Redis shows each of them as building.
  pub run-Inv : (kv : Kv) (ops : List Op) → Inv r (run r (fresh kv) ops)
  run-Inv kv ops =
      run_from-Inv (fresh kv) ops (record { same = λ p. refl; distinct = tt; shown = λ p t. cc })

  -- So a poll never resets a build that is running, even if its container is not up yet.
  pub get_status-running :
      (kv : Kv) (ops : List Op) (alive : Bool) (p : ℕ)
      → let x = run r (fresh kv) ops in
        has p x.tasks ≡ true
        → (is_building (get_status r alive p x.state).0.status ≡ true)
          × ((get_status r alive p x.state).1 ≡ x.state)
  unfolding get_status
  get_status-running kv ops alive p t =
      let h = run-Inv kv ops in
      let (st, g, b) = h.shown p t in (ground (arith, h.same p), ground (arith, h.same p))
