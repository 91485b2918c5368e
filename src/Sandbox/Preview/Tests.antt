-- ===== src/Sandbox/Preview/Tests.antt =====
-- Runs of the previews of src/sandbox/preview/preview.service.ts over a Redis in memory.
use bolder_vibes_backend.Common.{
  ℕ, ◌+◌, ◌≤◌, ◌<◌, max, ◌≡◌, refl, true, false, ◌&&◌, Option, none, some, List, [], ◌∷◌, arith,
  ◌==◌, if◌then◌else◌, has, add, remove, any, filter, length, Distinct, has-add, has-remove, ◌↔◌,
  ltb, ◌*◌, suc,
}
use bolder_vibes_backend.Sandbox.Preview.Service.{
  PreviewRedis, PreviewRedisLaws, PreviewService, PreviewState, SetKey, global_active, same_key,
  state_of, ready, begin_start, start_preview, reap_idle_previews, admit, get_active_count,
  count_active, check_user, drop_ghost, get_preview_status, enter_build,
}
use bolder_vibes_backend.Sandbox.Preview.Worlds.{
  Move, start, resume, build, failed, goes_on, fresh, play,
}
use bolder_vibes_backend.Sandbox.Preview.Builds.{is_current}
use bolder_vibes_backend.Sandbox.Preview.Invariant.{play-tracked}
use bolder_vibes_backend.Sandbox.Preview.Capacity.{active_count, user_active}
use bolder_vibes_backend.Sandbox.Preview.Resumed.{is_ok, of_user, resume_start, admit_counted}
use bolder_vibes_backend.Sandbox.Preview.Starts.{start_preview_iff}
use bolder_vibes_backend.Sandbox.Preview.Reaper.{Reaped, is_idle, reap_idle_previews_lem}
use bolder_vibes_backend.Sandbox.Preview.Comeback.{stopped_early, stopped_build_comes_back}
use bolder_vibes_backend.Sandbox.Preview.Waits.{
  Answer, Settles, answers_http, accepts_connections, wait_for_ready, wait_for_database,
  waits_settle,
}

pub record Memory : Type 0 where
  pub states : ℕ → Option PreviewState
  pub sets : SetKey → List ℕ
  pub access : ℕ → Option ℕ

once : List ℕ → List ℕ
once [] = []
once (x ∷ xs) = add x (once xs)

once-Distinct : (xs : List ℕ) → Distinct (once xs)
unfolding once
once-Distinct [] = tt
once-Distinct (x ∷ xs) = ground (arith, once-Distinct xs)

has-once : (j : ℕ) (xs : List ℕ) → has j (once xs) ≡ has j xs
unfolding once
has-once j [] = refl
has-once j (x ∷ xs) = ground (arith, has-add j x (once xs), has-once j xs)

abbrev memory : PreviewRedis Memory
memory = record {
  get_state = λ p kv. kv.states p;
  set_state = λ p v kv. record kv { states = λ j. if p == j then some v else kv.states j };
  del_state = λ p kv. record kv { states = λ j. if p == j then none else kv.states j };
  smembers = λ key kv. once (kv.sets key);
  sadd = λ key p kv. record kv {
    sets = λ other. if same_key key other then p ∷ kv.sets other else kv.sets other;
  };
  srem = λ key p kv. record kv {
    sets = λ other. if same_key key other then remove p (kv.sets other) else kv.sets other;
  };
  get_access = λ p kv. kv.access p;
  set_access = λ p now kv. record kv { access = λ j. if p == j then some now else kv.access j };
}

memory-sadd :
    (key other : SetKey) (p j : ℕ) (kv : Memory)
    → has j (memory.smembers other (memory.sadd key p kv))
      ≡ (if same_key key other && (p == j) then true else has j (memory.smembers other kv))
memory-sadd key other p j kv =
    ground (arith, has-once j (kv.sets other), has-once j (p ∷ kv.sets other))

memory-srem :
    (key other : SetKey) (p j : ℕ) (kv : Memory)
    → has j (memory.smembers other (memory.srem key p kv))
      ≡ (if same_key key other && (p == j) then false else has j (memory.smembers other kv))
memory-srem key other p j kv = ground (
  arith,
  has-once j (kv.sets other),
  has-once j (remove p (kv.sets other)),
  has-remove j p (kv.sets other),
)

memory-PreviewRedisLaws : PreviewRedisLaws memory
memory-PreviewRedisLaws = record {
  state-set = λ k j v kv. refl;
  state-del = λ k j kv. refl;
  state-sadd = λ key p j kv. refl;
  state-srem = λ key p j kv. refl;
  state-access = λ p now j kv. refl;
  members-set = λ key p v kv. refl;
  members-del = λ key p kv. refl;
  members-access = λ key p now kv. refl;
  members-sadd = memory-sadd;
  members-srem = memory-srem;
  members-Distinct = λ key kv. once-Distinct (kv.sets key);
  access-srem = λ key p j kv. refl;
  access-del = λ p j kv. refl;
}

abbrev nothing : Memory
nothing = record { states = λ p. none; sets = λ key. []; access = λ p. none }

abbrev tenfold : ℕ → ℕ
tenfold i = i + 10

-- Two starts of project 1 overlap; the build of the first fails after the second has begun.
abbrev overlap : List Move
overlap =
    start 1 (some 7)
    ∷ start 1 (some 7)
    ∷ resume 1
    ∷ build 10 (failed "no package.json")
    ∷ build 10 goes_on
    ∷ build 10 goes_on
    ∷ []

play-tracked_example :
    let w = play memory tenfold 50 900000 (fresh nothing) overlap in
    let current = is_current w.service.build_nonces 1 in
    (has 1 w.service.building_projects ≡ any current w.builds)
    × (length (filter current w.builds) ≤ 1)
play-tracked_example =
    play-tracked memory tenfold 50 900000 (λ i j e. omega arith) nothing overlap 1

abbrev at_rest : PreviewService Memory
at_rest = (fresh nothing).service

-- Another start has registered project 2 by the time that the start of project 1 goes on.
abbrev other_started : PreviewService Memory
other_started = (start_preview memory tenfold 1 2 (some 8) at_rest).1

start_preview_iff_example :
    let (result, s') = start_preview memory tenfold 50 1 (some 7) at_rest in
    let (resumed, later') = resume_start memory tenfold 50 0 0 1 (some 7) other_started in
    ((is_ok result ≡ true) ↔ (
      (active_count memory global_active nothing < 50) × (user_active memory (some 7) nothing < 3)))
    × (active_count memory global_active s'.kv ≤ max 50 (active_count memory global_active nothing))
    × (user_active memory (some 7) s'.kv ≤ max 3 (user_active memory (some 7) nothing))
    × ((is_ok resumed ≡ true) ↔ ((0 < 50) × (of_user (some 7) 0 < 3)))
    × (active_count memory global_active later'.kv
        ≤ suc (active_count memory global_active other_started.kv))
    × (user_active memory (some 7) later'.kv ≤ suc (user_active memory (some 7) other_started.kv))
start_preview_iff_example =
    start_preview_iff memory memory-PreviewRedisLaws tenfold 50 1 (some 7) at_rest 0 0 other_started

-- With a limit of one preview: both starts have counted none, and both enter.
overlapping_starts_exceed :
    let (first, s) = resume_start memory tenfold 1 0 0 2 none at_rest in
    let (second, s') = resume_start memory tenfold 1 0 0 1 none s in
    (is_ok first ≡ true) × (is_ok second ≡ true) × (active_count memory global_active s'.kv ≡ 2)
unfolding resume_start admit_counted drop_ghost enter_build get_preview_status once
overlapping_starts_exceed = (refl, refl, refl)

-- Project 1 is ready and was last accessed at 5.
abbrev ready_long_ago : PreviewService Memory
ready_long_ago = record at_rest {
  kv = record {
    states =
        λ p. if p == 1 then some (record (state_of 1 ready) { url = some "http://x" }) else none;
    sets = λ key. 1 ∷ [];
    access = λ p. some 5;
  };
  containers = 1 ∷ [];
}

reap_idle_previews_lem_example :
    Reaped memory 900 5000 1
      (has 1 (memory.smembers global_active ready_long_ago.kv)
        && is_idle memory 900 5000 1 ready_long_ago.kv)
      ready_long_ago
      (reap_idle_previews memory 900 5000 ready_long_ago)
reap_idle_previews_lem_example =
    reap_idle_previews_lem memory memory-PreviewRedisLaws 900 5000 1 ready_long_ago

stopped_build_comes_back_example :
    let w' =
      play memory tenfold 50 900 (fresh nothing) (stopped_early 1 (some 7) none 10 3 "http://x") in
    let shown = record (state_of 1 ready) { url = some "http://x" } in
    let s = reap_idle_previews memory 900 5000 w'.service in
    (w'.service.kv.states 1 ≡ some shown)
    × (has 1 w'.service.containers ≡ true)
    × (has 1 (memory.smembers global_active w'.service.kv) ≡ false)
    × (s.kv.states 1 ≡ some shown)
    × (has 1 s.containers ≡ true)
unfolding begin_start admit get_active_count count_active check_user drop_ghost once
    get_preview_status
stopped_build_comes_back_example =
    stopped_build_comes_back memory memory-PreviewRedisLaws tenfold 50 900 (fresh nothing) 1
      (some 7) none 3 5000 "http://x" refl

-- The server answers 502 twice, and then 200.
abbrev slow_server : ℕ → Option Answer
slow_server k = some (
    if ltb k 2
    then record { is_2xx = false; status = 502 }
    else record { is_2xx = true; status = 200 })

waits_settle_example :
    Settles 361 180000
      (λ k. k * 500)
      (λ k. answers_http (slow_server k))
      (wait_for_ready 180000 (λ k. k * 500) slow_server)
    × Settles 181 180000
        (λ k. k * 1000)
        (λ k. accepts_connections none)
        (wait_for_database 180000 (λ k. k * 1000) (λ k. none))
waits_settle_example =
    waits_settle 180000 (λ k. k * 500) (λ k. k * 1000) slow_server (λ k. none) (λ k. omega arith)
      (λ k. omega arith)
