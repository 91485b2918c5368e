-- ===== src/Sandbox/ApkBuild/Run.antt =====
-- The two background tasks of src/sandbox/apk-build/apk-build.service.ts, `runLocalBuild` and
-- `runCloudBuild`, from what Docker, Expo and the web answer.

use bolder_vibes_backend.Common.{
  ℕ, zero, suc, ◌+◌, String, Bool, false, not, ◌&&◌, Option, none, some, ◌==◌, ◌=s=◌, leb, ltb,
  if◌then◌else◌, Result, ok, err, or_else,
}
use bolder_vibes_backend.Sandbox.ApkBuild.{
  ApkBuildState, ApkBuildPlatform, AndroidBuildType, DownloadError, too_many_redirects, http_status,
  connection_failed, BuildFailure, no_files, image_not_found, could_not_pull, build_exit,
  apk_not_found, artifact_url_missing, download_failed, local, cloud, android, apk, is_ios, is_aab,
  extension_for, apk_path, invalid_url,
}
use bolder_vibes_backend.Sandbox.ApkBuild.Service.{ready_state}

-- The body of an answer: it arrives with that many bytes, breaks off, or does not end.
pub data Body : Type 0 where
  whole : ℕ → Body
  cut_off : Body
  stalled : Body

-- What `https.get` of an address does: it throws at once, where the address is no https URL; the
-- connection breaks; nothing is ever answered (the request has no timeout); or there is an answer.
pub data Response : Type 0 where
  not_https : Response
  broken : Response
  silent : Response
  answered : (status : Option ℕ) (location : Option String) (body : Body) → Response

-- How the promise of a download settles, if it does.
pub data Download : Type 0 where
  arrived : (size : ℕ) → Download
  gave_up : DownloadError → Download
  never_settles : Download

-- `res.statusCode && 300 <= res.statusCode < 400 && res.headers.location`.
abbrev pub redirect : Option ℕ → Option String → Option String
redirect (some code) (some location) =
    if leb 300 code && ltb code 400 && not (location =s= "") then some location else none
redirect _ _ = none

abbrev pub is_200 : Option ℕ → Bool
is_200 (some code) = code == 200
is_200 none = false

-- An answer that is no redirect.
abbrev pub landing : Option ℕ → Body → Download
landing status body =
    if is_200 status
    then elim body [
      | whole size ↦ arrived size
      | cut_off ↦ gave_up connection_failed
      | stalled ↦ never_settles
    ]
    else gave_up (http_status status)

-- An exception of `https.get`: the executor of the promise turns it into a rejection, but from the
-- callback of an earlier answer nothing settles the promise any more.
abbrev pub thrown_at : (hops : ℕ) → Download
thrown_at hops = if hops == 0 then gave_up invalid_url else never_settles

module _ (get : String → Response) (join_url : String → String → Option String) where
  -- What a request comes to: an end, or the address to go on with. `join_url location base` is the
  -- text of `new URL(location, base)`, which the callback computes, and `none` where that throws.
  unfoldable pub after : (hops : ℕ) (url : String) → Response → Result Download String
  after hops url not_https = err (thrown_at hops)
  after hops url broken = err (gave_up connection_failed)
  after hops url silent = err never_settles
  after hops url (answered status location body) = elim (redirect status location) [
    | none ↦ err (landing status body)
    | some l ↦ elim (join_url l url) [ none ↦ err never_settles | some u ↦ ok u ]
  ]

  -- `tick`: `none` when the fuel is out.
  unfoldable pub tick : (fuel : ℕ) (url : String) (hops : ℕ) → Option Download
  tick zero url hops = none
  tick (suc fuel) url hops =
      if ltb 5 hops
      then some (gave_up too_many_redirects)
      else elim (after hops url (get url)) [ err d ↦ some d | ok u ↦ tick fuel u (hops + 1) ]

  -- `downloadFile`: the size of what it writes. Seven steps reach the limit on the redirects.
  unfoldable pub download_file : String → Option Download
  download_file url = tick 7 url 0

-- The uploads directory: the size of the file at a resolved path.
abbrev pub Disk : Type 0
Disk = String → Option ℕ

abbrev pub write_file : String → ℕ → Disk → Disk
write_file path size disk path' = if path' =s= path then some size else disk path'

-- What the build asks of its host: Docker's answers, and the file that the container left.
pub record LocalHost : Type 0 where
  pub image_there : Bool
  pub exit_code : ℕ
  pub apk_size : Option ℕ

pub record CloudHost : Type 0 where
  pub image_there : Bool
  pub pull_succeeds : Bool
  pub exit_code : ℕ
  pub url_in_file : Option String
  pub url_in_log : Option String

abbrev pub eas_profile : ApkBuildPlatform → AndroidBuildType → String
eas_profile platform build_type =
    if is_ios platform
    then "preview-ios"
    else if is_aab build_type
    then "preview-aab"
    else "preview-apk"

-- A build is of one project: its number and text, and when it ends.
pub record Target : Type 0 where
  pub project_id : ℕ
  pub has_files : Bool
  pub now : ℕ

module _ (id_text : ℕ → String) (resolve : String → String) (uploads_dir : String) where
  -- Where a build puts its artifact.
  abbrev pub artifact_at : ℕ → String → String
  artifact_at p ext = resolve (apk_path uploads_dir (id_text p) ext)

  -- `runLocalBuild`, up to the state that `markReady` stores.
  unfoldable pub run_local_build :
      Target → LocalHost → Disk → Result BuildFailure ApkBuildState × Disk
  run_local_build target host disk =
      if not target.has_files
      then (err no_files, disk)
      else if not host.image_there
      then (err image_not_found, disk)
      else if not (host.exit_code == 0)
      then (err (build_exit local host.exit_code), disk)
      else elim host.apk_size [
        | none ↦ (err apk_not_found, disk)
        | some size ↦ (
          ok (ready_state id_text target.project_id local size target.now android apk),
          write_file (artifact_at target.project_id "apk") size disk,
        )
      ]

  module _ (get : String → Response) (join_url : String → String → Option String) where
    -- The download, and `markReady`; `none` where the download never settles.
    unfoldable pub fetch_artifact :
        Target
        → ApkBuildPlatform
        → AndroidBuildType
        → String
        → Disk
        → Option (Result BuildFailure ApkBuildState × Disk)
    fetch_artifact target platform build_type url disk = elim (download_file get join_url url) [
      | none ↦ none
      | some never_settles ↦ none
      | some (gave_up e) ↦ some (err (download_failed e), disk)
      | some (arrived size) ↦ some (
        ok (ready_state id_text target.project_id cloud size target.now platform build_type),
        write_file (artifact_at target.project_id (extension_for platform build_type)) size disk,
      )
    ]

    -- `runCloudBuild`; `none` where it never ends.
    unfoldable pub run_cloud_build :
        Target
        → ApkBuildPlatform
        → AndroidBuildType
        → CloudHost
        → Disk
        → Option (Result BuildFailure ApkBuildState × Disk)
    run_cloud_build target platform build_type host disk =
        if not target.has_files
        then some (err no_files, disk)
        else if not host.image_there && not host.pull_succeeds
        then some (err could_not_pull, disk)
        else if not (host.exit_code == 0)
        then some (err (build_exit cloud host.exit_code), disk)
        else elim (or_else host.url_in_file host.url_in_log) [
          | none ↦ some (err artifact_url_missing, disk)
          | some url ↦ fetch_artifact target platform build_type url disk
        ]
