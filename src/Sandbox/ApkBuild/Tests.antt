-- ===== src/Sandbox/ApkBuild/Tests.antt =====
-- Runs of the builds of src/sandbox/apk-build/apk-build.service.ts over a Redis that is a function.

use bolder_vibes_backend.Common.{
  ℕ, String, ◌≡◌, refl, inr, true, false, Option, none, some, List, [], ◌∷◌, ◌==◌, if◌then◌else◌,
  ok, has, ◌↔◌, is_some, ◌=s=◌,
}
use bolder_vibes_backend.Sandbox.ApkBuild.{
  ApkBuildState, local, cloud, android, ios, apk, container_name, too_many_redirects,
  content_type_for, safe_id, without_dashes, apk_not_found, keep_safe, first_chars, extension_for,
  invalid_url,
}
use bolder_vibes_backend.Sandbox.ApkBuild.Service.{
  ApkRedis, ApkRedisLaws, BuildState, BuildRequest, Lookups, start_build, ready_state, finish_ok,
}
use bolder_vibes_backend.Sandbox.ApkBuild.Invariant.{Op, start, poll, run, fresh, Inv, run-Inv}
use bolder_vibes_backend.Sandbox.ApkBuild.Starts.{IsStartable, local_apk, start_build_iff}
use bolder_vibes_backend.Sandbox.ApkBuild.Race.{
  play, move, call, go_on, running, ended, two_builds_at_once, Move,
}
use bolder_vibes_backend.Sandbox.ApkBuild.Run.{
  Response, answered, download_file, Target, LocalHost, CloudHost, Disk, tick, write_file,
  artifact_at, run_cloud_build, fetch_artifact, whole, arrived, gave_up, never_settles, after,
  not_https,
}
use bolder_vibes_backend.Sandbox.ApkBuild.Download.{get_apk_stream}
use bolder_vibes_backend.Sandbox.ApkBuild.Download.Redirects.{download_file_iff}
use bolder_vibes_backend.Sandbox.ApkBuild.Download.Chains.{Arrives, Hangs}
use bolder_vibes_backend.Sandbox.ApkBuild.Download.Serves.{
  Serves, ResolveLaws, get_apk_stream-built,
}

abbrev Memory : Type 0
Memory = ℕ → Option ApkBuildState

abbrev memory : ApkRedis Memory
memory = record {
  get = λ k kv. kv k;
  set = λ k v kv j. if k == j then some v else kv j;
  del = λ k kv j. if k == j then none else kv j;
}

memory-ApkRedisLaws : ApkRedisLaws memory
memory-ApkRedisLaws = record { get-set = λ k j v kv. refl; get-del = λ k j kv. refl }

-- Project 1 of user 7, who has a token; project 2 of user 8, who has saved none.
abbrev lookups : Lookups
lookups = record {
  owner_of = λ p. if p == 1 then some 7 else if p == 2 then some 8 else none;
  token_of = λ u. if u == 7 then some "expo-token" else none;
}

abbrev local_request : BuildRequest
local_request = record { project_id = 1; mode = local; platform = android; build_type = apk }

abbrev nothing : Memory
nothing k = none

abbrev at_rest : BuildState Memory
at_rest = (fresh nothing).state

abbrev history : List Op
history =
    start lookups local_request
    ∷ poll false 1
    ∷ start lookups (record local_request { mode = cloud })
    ∷ []

run-Inv_example : Inv memory (run memory (fresh nothing) history)
run-Inv_example = run-Inv memory memory-ApkRedisLaws nothing history

local_request-IsStartable : IsStartable lookups local_request []
local_request-IsStartable = record { free = refl; supported = local_apk; funded = (7, refl, tt) }

start_build_iff_example :
    ((st : ApkBuildState) × (s' : BuildState Memory) × (start_build memory lookups local_request
          at_rest
        ≡ (ok st, s')))
    ↔ IsStartable lookups local_request []
start_build_iff_example = start_build_iff memory lookups local_request at_rest

-- The archive of the user who has no token.
abbrev unpaid : BuildRequest
unpaid = record { project_id = 2; mode = cloud; platform = ios; build_type = apk }

two_builds_at_once_example :
    let w =
      play memory lookups
        (record { state = at_rest; calls = [] })
        (call local_request ∷ call local_request ∷ go_on 0 ∷ go_on 1 ∷ go_on 0 ∷ go_on 1 ∷ []) in
    let w' = move memory lookups w (Move.fail 1 apk_not_found) in
    (w.calls ≡ running local_request ∷ running local_request ∷ [])
    × (w'.calls ≡ running local_request ∷ ended local_request ∷ [])
    × (has 1 w'.state.building_projects ≡ false)
two_builds_at_once_example =
    two_builds_at_once memory lookups local_request at_rest apk_not_found local_request-IsStartable

-- A server with a short chain of redirects, a loop, and a file that is missing.
abbrev web : String → Response
web url =
    if url =s= "https://expo.dev/a"
    then answered (some 302) (some "https://cdn.dev/b") (whole 0)
    else if url =s= "https://cdn.dev/b"
    then answered (some 200) none (whole 41)
    else if url =s= "https://loop.dev"
    then answered (some 301) (some "https://loop.dev") (whole 0)
    else if url =s= "https://old.dev"
    then answered (some 301) (some "http://old.dev") (whole 0)
    else if url =s= "http://old.dev"
    then not_https
    else answered (some 404) none (whole 9)

-- Every location here is absolute.
abbrev absolute : String → String → Option String
absolute location base = some location

download_file_iff_example :
    (is_some (download_file web absolute "https://expo.dev/a") ≡ true)
    × ((download_file web absolute "https://expo.dev/a" ≡ some (arrived 41))
        ↔ Arrives web absolute "https://expo.dev/a" 41)
    × ((download_file web absolute "https://expo.dev/a" ≡ some never_settles)
        ↔ Hangs web absolute "https://expo.dev/a")
download_file_iff_example = download_file_iff web absolute "https://expo.dev/a" 41

downloads_through_a_redirect : download_file web absolute "https://expo.dev/a" ≡ some (arrived 41)
downloads_through_a_redirect = unfold download_file tick after in refl

gives_up_on_a_loop :
    download_file web absolute "https://loop.dev" ≡ some (gave_up too_many_redirects)
gives_up_on_a_loop = unfold download_file tick after in refl

hangs_behind_http : download_file web absolute "https://old.dev" ≡ some never_settles
hangs_behind_http = unfold download_file tick after in refl

-- An address that is not https to begin with is refused.
refuses_http : download_file web absolute "http://old.dev" ≡ some (gave_up invalid_url)
refuses_http = unfold download_file tick after in refl

-- Project ids as texts, with the shape of a UUID.
abbrev uuid : ℕ → String
uuid p = "3f2b9c1e-77aa-4c1d"

abbrev empty_disk : Disk
empty_disk path = none

abbrev on_host : LocalHost
on_host = record { image_there = true; exit_code = 0; apk_size = some 1200 }

abbrev on_expo : CloudHost
on_expo = record {
  image_there = false;
  pull_succeeds = true;
  exit_code = 0;
  url_in_file = none;
  url_in_log = some "https://expo.dev/a";
}

abbrev target : Target
target = record { project_id = 1; has_files = true; now = 99 }

as_is-ResolveLaws : ResolveLaws (λ path. path)
as_is-ResolveLaws = record { resolve-name = λ dir stem ext named below a b c. refl }

abbrev built_state : ApkBuildState
built_state = ready_state uuid 1 cloud 41 99 ios apk

abbrev built_disk : Disk
built_disk = write_file (artifact_at uuid (λ path. path) "/srv/apk" 1 "tar.gz") 41 empty_disk

get_apk_stream-built_example :
    Serves uuid
      (λ path. path)
      "/srv/apk"
      built_state
      (get_apk_stream uuid
        (λ path. path)
        "/srv/apk"
        memory
        false
        1
        built_disk
        (finish_ok memory built_state at_rest)).0
get_apk_stream-built_example =
    get_apk_stream-built uuid (λ path. path) "/srv/apk" memory memory-ApkRedisLaws as_is-ResolveLaws
      (λ e. cc, λ e. cc) web absolute target ios apk on_host on_expo empty_disk built_disk
      built_state false at_rest refl
      (inr (unfold run_cloud_build fetch_artifact download_file tick after extension_for in refl))

reads_the_id :
    (container_name "3f2b9c1e-77aa-4c1d" ≡ "bv-apk-3f2b9c1e77aa4c1d")
    × (safe_id "3f2b9c1e-77aa-4c1d" ≡ "3f2b9c1e")
reads_the_id = unfold container_name safe_id without_dashes keep_safe first_chars in (refl, refl)

archives_are_gzip : content_type_for "tar.gz" ≡ "application/gzip"
archives_are_gzip = unfold content_type_for in refl
