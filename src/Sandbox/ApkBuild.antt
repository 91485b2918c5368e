-- ===== src/Sandbox/ApkBuild.antt =====
-- The mobile builds of src/sandbox/apk-build/apk-build.service.ts: data, and the pure parts.
pub mod Run
pub mod Service
pub mod Download
pub mod Invariant
pub mod Starts
pub mod Race
mod Tests
use Prim.Native.Char.{Char, code}
use Prim.Native.String.{◌++◌}
use bolder_vibes_backend.Common.{
  ℕ, zero, suc, String, ◌≡◌, Bool, true, false, not, ◌&&◌, ◌||◌, Option, none, some, List, ◌==◌,
  ◌=s=◌, leb, if◌then◌else◌,
}

-- The types of src/sandbox/preview/preview.interface.ts.
pub data ApkBuildStatus : Type 0 where
  idle building ready error : ApkBuildStatus

pub data ApkBuildMode : Type 0 where
  local cloud : ApkBuildMode

pub data AndroidBuildType : Type 0 where
  apk aab : AndroidBuildType

pub data ApkBuildPlatform : Type 0 where
  android ios : ApkBuildPlatform

-- The `buildType` of a state: an Android type, or the archive of a simulator build.
pub data Artifact : Type 0 where
  android_package : AndroidBuildType → Artifact
  simulator archive : Artifact

-- Why a download gave up.
pub data DownloadError : Type 0 where
  too_many_redirects : DownloadError
  http_status : Option ℕ → DownloadError
  connection_failed : DownloadError
  invalid_url : DownloadError

-- Why a build failed; each stands for the message that the source throws.
pub data BuildFailure : Type 0 where
  no_files : BuildFailure
  image_not_found : BuildFailure
  could_not_pull : BuildFailure
  build_exit : ApkBuildMode → ℕ → BuildFailure
  apk_not_found : BuildFailure
  artifact_url_missing : BuildFailure
  download_failed : DownloadError → BuildFailure

pub record ApkBuildState : Type 0 where
  pub project_id : ℕ
  pub status : ApkBuildStatus
  pub mode : Option ApkBuildMode
  pub platform : Option ApkBuildPlatform
  pub build_type : Option Artifact
  pub download_url : Option String
  pub size_bytes : Option ℕ
  pub error : Option BuildFailure
  pub built_at : Option ℕ
  pub eas_build_url : Option String
  pub filename : Option String

abbrev pub idle_state : ℕ → ApkBuildState
idle_state p = record {
  project_id = p;
  status = idle;
  mode = none;
  platform = none;
  build_type = none;
  download_url = none;
  size_bytes = none;
  error = none;
  built_at = none;
  eas_build_url = none;
  filename = none;
}

abbrev pub is_cloud : ApkBuildMode → Bool
is_cloud cloud = true
is_cloud local = false

abbrev pub is_ios : ApkBuildPlatform → Bool
is_ios ios = true
is_ios android = false

abbrev pub is_aab : AndroidBuildType → Bool
is_aab aab = true
is_aab apk = false

abbrev pub is_building : ApkBuildStatus → Bool
is_building building = true
is_building _ = false

abbrev pub is_ready : ApkBuildStatus → Bool
is_ready ready = true
is_ready _ = false

-- `platform === 'ios' ? 'simulator' : buildType`.
abbrev pub artifact_of : ApkBuildPlatform → AndroidBuildType → Artifact
artifact_of ios t = simulator
artifact_of android t = android_package t

-- The extension of a built file.
unfoldable pub extension_for : ApkBuildPlatform → AndroidBuildType → String
extension_for platform build_type =
    if is_ios platform then "tar.gz" else if is_aab build_type then "aab" else "apk"

-- The extension that a stored state stands for.
unfoldable pub extension_for_state : ApkBuildState → String
extension_for_state state = elim state.platform [
  | some ios ↦ "tar.gz"
  | _ ↦ elim state.build_type [ some (android_package aab) ↦ "aab" | _ ↦ "apk" ]
]

unfoldable pub content_type_for : String → String
content_type_for ext =
    if ext =s= "apk"
    then "application/vnd.android.package-archive"
    else if ext =s= "aab"
    then "application/octet-stream"
    else if ext =s= "tar.gz"
    then "application/gzip"
    else "application/octet-stream"

-- `[^a-zA-Z0-9-]` is dropped.
abbrev is_safe : Char → Bool
is_safe c =
    (leb b'a' (code c) && leb (code c) b'z')
    || (leb b'A' (code c) && leb (code c) b'Z')
    || (leb b'0' (code c) && leb (code c) b'9')
    || code c == b'-'

keep_safe : String → String
keep_safe String.[] = ""
keep_safe (String.◌∷◌ c s) = let rest = keep_safe s in if is_safe c then String.◌∷◌ c rest else rest

first_chars : ℕ → String → String
first_chars zero s = ""
first_chars (suc n) String.[] = ""
first_chars (suc n) (String.◌∷◌ c s) = String.◌∷◌ c (first_chars n s)

-- `projectId.replace(/[^a-zA-Z0-9-]/g, '').slice(0, 8)`.
unfoldable pub safe_id : String → String
unfolding keep_safe first_chars
safe_id project_id = first_chars 8 (keep_safe project_id)

unfoldable pub filename_for : String → String → String
filename_for project_id ext = "app-" ++ (safe_id project_id ++ ("." ++ ext))

-- `projectId.replace(/-/g, '')`.
without_dashes : String → String
without_dashes String.[] = ""
without_dashes (String.◌∷◌ c s) =
    let rest = without_dashes s in if code c == b'-' then rest else String.◌∷◌ c rest

unfoldable pub apk_path : String → String → String → String
unfolding without_dashes
apk_path uploads_dir project_id ext =
    uploads_dir ++ ("/" ++ (without_dashes project_id ++ ("." ++ ext)))

unfoldable pub container_name : String → String
unfolding without_dashes
container_name project_id = "bv-apk-" ++ without_dashes project_id
