-- ===== src/Sandbox/Preview/Worlds.antt =====
-- Overlapping calls and builds of src/sandbox/preview/preview.service.ts: any call, build or watcher
-- goes on to its next wait, in any order.
use bolder_vibes_backend.Common.{
  ℕ, String, Bool, true, false, Option, none, some, List, [], ◌∷◌, ◌==◌, if◌then◌else◌, has, add,
  remove, Result, ok,
}
use bolder_vibes_backend.Sandbox.Preview.Service.{
  PreviewRedis, PreviewService, StartError, Started, to_build, begin_start, enter_build,
  stop_preview, mark_ready, mark_error, catch_failure, end_build, reap_idle_previews, touch_preview,
}

-- Where a build is: before its container, waiting for the server, between the two halves of its
-- `catch`, before its `finally`, after it.
pub data Phase : Type 0 where
  preparing : Phase
  waiting : Phase
  reporting : String → Phase
  ending : Phase
  over : Phase

pub record Build : Type 0 where
  pub project_id : ℕ
  pub nonce : ℕ
  pub phase : Phase

abbrev pub is_over : Phase → Bool
is_over over = true
is_over _ = false

-- What may come of a build at its wait.
pub data BuildOutcome : Type 0 where
  container_up : BuildOutcome
  server_up : ℕ → String → BuildOutcome
  failed : String → BuildOutcome
  goes_on : BuildOutcome

-- The service, the calls of `startPreview` that wait for their write, the builds, and the projects
-- that a watcher looks after.
pub record World (Kv : Type 0) : Type 0 where
  pub service : PreviewService Kv
  pub pending : List ℕ
  pub builds : List Build
  pub watchers : List ℕ

pub data Move : Type 0 where
  start : ℕ → Option ℕ → Move
  resume : ℕ → Move
  stop : ℕ → Option ℕ → Move
  build : ℕ → BuildOutcome → Move  -- the build with this nonce
  watch : ℕ → Option String → Move  -- a watcher of the project, with the bundle error that it has
  lose_container : ℕ → Move  -- a container is removed from outside
  touch : ℕ → ℕ → Move
  sweep : ℕ → Move  -- the reaper's timer

abbrev pub find_build : ℕ → List Build → Option Build
find_build n [] = none
find_build n (b ∷ bs) = if b.nonce == n then some b else find_build n bs

abbrev pub replace_build : ℕ → Build → List Build → List Build
replace_build n b [] = []
replace_build n b (c ∷ cs) = if c.nonce == n then b ∷ cs else c ∷ replace_build n b cs

module _ {Kv : Type 0} (r : PreviewRedis Kv) where
  -- A build fails: `catch` looks at the nonce first.
  unfoldable pub fail_build : String → Build → PreviewService Kv → Build × PreviewService Kv
  fail_build message b s =
      let (current, s') = catch_failure r b.project_id b.nonce message s in
      (record b { phase = if current then reporting message else ending }, s')

  -- What a phase does with an outcome. The rest of `buildAndStart` does not ask for the nonce.
  unfoldable pub phase_step :
      Phase → BuildOutcome → Build → PreviewService Kv → Build × PreviewService Kv
  phase_step preparing container_up b s =
      (record b { phase = waiting }, record s { containers = add b.project_id s.containers })
  phase_step preparing (failed message) b s = fail_build message b s
  phase_step preparing (server_up now url) b s = (b, s)
  phase_step preparing goes_on b s = (b, s)
  phase_step waiting (server_up now url) b s =
      (record b { phase = ending }, mark_ready r now b.project_id url s)
  phase_step waiting (failed message) b s = fail_build message b s
  phase_step waiting container_up b s = (b, s)
  phase_step waiting goes_on b s = (b, s)
  phase_step (reporting message) o b s =
      (record b { phase = ending }, mark_error r b.project_id message s)
  phase_step ending o b s = (record b { phase = over }, end_build r b.project_id b.nonce s)
  phase_step over o b s = (b, s)

  -- A build goes on to its next wait.
  unfoldable pub build_step : BuildOutcome → Build → PreviewService Kv → Build × PreviewService Kv
  unfolding phase_step
  build_step o b s = phase_step b.phase o b s

  -- A ready build leaves a watcher behind.
  abbrev pub watched : Phase → BuildOutcome → ℕ → List ℕ → List ℕ
  watched waiting (server_up now url) p ws = p ∷ ws
  watched _ _ p ws = ws

  -- A round of the watcher that `buildAndStart` leaves: a bundle error or a container that is gone
  -- marks the preview as failed, and ends it.
  unfoldable pub watch_step :
      ℕ → Option String → List ℕ → PreviewService Kv → List ℕ × PreviewService Kv
  watch_step p (some e) ws s = (remove p ws, mark_error r p e s)
  watch_step p none ws s =
      if has p s.containers
      then (ws, s)
      else (remove p ws, mark_error r p "Preview container exited unexpectedly" s)

  module _ (random : ℕ → ℕ) (max_global timeout : ℕ) where
    abbrev pub pend : ℕ → Result StartError Started → List ℕ → List ℕ
    pend p (ok to_build) pending = p ∷ pending
    pend p _ pending = pending

    -- A call that is pending writes the state and begins its build.
    abbrev pub enter_world : ℕ → World Kv → World Kv
    enter_world p w = record w {
      service = enter_build r random p w.service;
      pending = remove p w.pending;
      builds =
          record { project_id = p; nonce = random w.service.draws; phase = preparing } ∷ w.builds;
    }

    abbrev pub step_build : ℕ → BuildOutcome → Option Build → World Kv → World Kv
    step_build n o none w = w
    step_build n o (some b) w =
        let (b', s') = build_step o b w.service in
        record w {
          service = s';
          builds = replace_build n b' w.builds;
          watchers = watched b.phase o b.project_id w.watchers;
        }

    unfoldable pub move : World Kv → Move → World Kv
    move w (start p user) =
        let (result, s') = begin_start r max_global p user w.service in
        record w { service = s'; pending = pend p result w.pending }
    move w (resume p) = if has p w.pending then enter_world p w else w
    move w (stop p user) = record w { service = stop_preview r p user w.service }
    move w (build n o) = step_build n o (find_build n w.builds) w
    move w (watch p e) =
        if has p w.watchers
        then (let (ws, s') = watch_step p e w.watchers w.service in
            record w { service = s'; watchers = ws })
        else w
    move w (lose_container p) =
        let s = w.service in record w { service = record s { containers = remove p s.containers } }
    move w (touch now p) = record w { service = touch_preview r now p w.service }
    move w (sweep now) = record w { service = reap_idle_previews r timeout now w.service }

    unfoldable pub play : World Kv → List Move → World Kv
    play w [] = w
    play w (m ∷ ms) = play (move w m) ms

-- The service after it has started.
abbrev pub fresh : {Kv : Type 0} → Kv → World Kv
fresh kv = record {
  service = record {
    kv = kv;
    building_projects = [];
    build_nonces = λ p. none;
    draws = 0;
    containers = [];
    events = [];
  };
  pending = [];
  builds = [];
  watchers = [];
}
