-- ===== src/Sandbox/ApkBuild/Race.antt =====
-- Overlapping calls of `startBuild` of src/sandbox/apk-build/apk-build.service.ts: each call runs up
-- to its next `await`, and another one may run there.
use bolder_vibes_backend.Common.{
  ℕ, zero, suc, ◌≡◌, refl, false, none, List, [], ◌∷◌, if◌then◌else◌, has, has-remove, ==_refl,
  is_some, ap, ◌∙◌,
}
use bolder_vibes_backend.Sandbox.ApkBuild.{BuildFailure}
use bolder_vibes_backend.Sandbox.ApkBuild.Service.{
  ApkRedis, BuildState, BuildRequest, Lookups, check_combination, check_owner, publish, enter,
  finish_failed,
}
use bolder_vibes_backend.Sandbox.ApkBuild.Starts.{IsStartable, passes_combination, passes_owner}

-- A call: it waits for the database, then for Redis, then its background task runs.
pub data Call : Type 0 where
  waiting : BuildRequest → Call
  published : BuildRequest → Call
  running : BuildRequest → Call
  ended : BuildRequest → Call

pub record World (Kv : Type 0) : Type 0 where
  pub state : BuildState Kv
  pub calls : List Call

-- A request comes in; the call at a position (the last made is 0) goes on; its task fails.
pub data Move : Type 0 where
  call : BuildRequest → Move
  go_on : ℕ → Move
  fail : ℕ → BuildFailure → Move

module _ {Kv : Type 0} (r : ApkRedis Kv) (q : Lookups) where
  -- From one `await` to the next.
  unfoldable pub advance : Call → BuildState Kv → Call × BuildState Kv
  advance (waiting req) s =
      if is_some (check_owner q req) then (ended req, s) else (published req, publish r req s)
  advance (published req) s = (running req, enter r req s)
  advance (running req) s = (running req, s)
  advance (ended req) s = (ended req, s)

  unfoldable pub fail_call : BuildFailure → Call → BuildState Kv → Call × BuildState Kv
  fail_call failure (running req) s = (ended req, finish_failed r req failure none s)
  fail_call failure c s = (c, s)

  abbrev at_call :
      (Call → BuildState Kv → Call × BuildState Kv) → ℕ → List Call → BuildState Kv → World Kv
  at_call f k [] s = record { state = s; calls = [] }
  at_call f zero (c ∷ cs) s = let (c', s') = f c s in record { state = s'; calls = c' ∷ cs }
  at_call f (suc k) (c ∷ cs) s =
      let w = at_call f k cs s in record { state = w.state; calls = c ∷ w.calls }

  unfoldable pub move : World Kv → Move → World Kv
  move w (call req) =
      if is_some (check_combination req w.state.building_projects)
      then w
      else record w { calls = waiting req ∷ w.calls }
  move w (go_on k) = at_call advance k w.calls w.state
  move w (fail k failure) = at_call (fail_call failure) k w.calls w.state

  unfoldable pub play : World Kv → List Move → World Kv
  play w [] = w
  play w (m ∷ ms) = play (move w m) ms

  abbrev overlapping : BuildRequest → List Move
  overlapping req = call req ∷ call req ∷ go_on 0 ∷ go_on 1 ∷ go_on 0 ∷ go_on 1 ∷ []

  abbrev both_running : BuildRequest → BuildState Kv → World Kv
  both_running req s = record {
    state = enter r req (enter r req (publish r req (publish r req s)));
    calls = running req ∷ running req ∷ [];
  }

  move-call :
      (req : BuildRequest) (w : World Kv)
      → check_combination req w.state.building_projects ≡ none
      → move w (call req) ≡ record w { calls = waiting req ∷ w.calls }
  unfolding move
  move-call req w a = rw a refl

  abbrev goes_on : World Kv → World Kv
  goes_on w = play w (go_on 0 ∷ go_on 1 ∷ go_on 0 ∷ go_on 1 ∷ [])

  play-go_on :
      (req : BuildRequest) (s : BuildState Kv)
      → check_owner q req ≡ none
      → play
          (record { state = s; calls = waiting req ∷ waiting req ∷ [] })
          (go_on 0 ∷ go_on 1 ∷ go_on 0 ∷ go_on 1 ∷ [])
        ≡ both_running req s
  unfolding play move advance
  play-go_on req s b = rw b refl

  play-overlapping :
      (req : BuildRequest) (s : BuildState Kv)
      → check_combination req s.building_projects ≡ none
      → check_owner q req ≡ none
      → play (record { state = s; calls = [] }) (overlapping req) ≡ both_running req s
  unfolding play
  play-overlapping req s a b =
      ap (λ w. goes_on (move w (call req))) (move-call req (record { state = s; calls = [] }) a)
      ∙ ap goes_on (move-call req (record { state = s; calls = waiting req ∷ [] }) a)
      ∙ play-go_on req s b

  -- For every project that can start a build, two calls that overlap both pass the guard and both
  -- run, and when the first one fails the set no longer holds the project although the other
  -- build goes on.
  pub two_builds_at_once :
      (req : BuildRequest) (s : BuildState Kv) (failure : BuildFailure)
      → IsStartable q req s.building_projects
      → let w = play (record { state = s; calls = [] }) (overlapping req) in
        let w' = move w (fail 1 failure) in
        (w.calls ≡ running req ∷ running req ∷ [])
        × (w'.calls ≡ running req ∷ ended req ∷ [])
        × (has req.project_id w'.state.building_projects ≡ false)
  unfolding move fail_call finish_failed
  two_builds_at_once req s failure h =
      rw
        (play-overlapping req s (passes_combination q req s.building_projects h)
          (passes_owner q req s.building_projects h))
        (
          refl,
          refl,
          rw
              (
                has-remove req.project_id req.project_id
                    (both_running req s).state.building_projects,
                ==_refl req.project_id,
              )
              refl,
        )
