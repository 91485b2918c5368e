-- ===== src/Sandbox/ApkBuild/Download.antt =====
-- Downloads of src/sandbox/apk-build/apk-build.service.ts: the redirects of `downloadFile`, and
-- `getApkStream`, which serves what a build has stored.
pub mod Chains
pub mod Redirects
pub mod Stored
pub mod Serves
use Prim.Native.String.{◌++◌}
use bolder_vibes_backend.Common.{
  ℕ, String, Bool, true, false, not, Option, none, some, if◌then◌else◌, Result, ok, err,
  starts_with,
}
use bolder_vibes_backend.Sandbox.ApkBuild.{
  ApkBuildState, is_ready, extension_for_state, content_type_for, filename_for, apk_path,
}
use bolder_vibes_backend.Sandbox.ApkBuild.Service.{
  ApkRedis, BuildState, BuildError, get_status, not_ready, outside_uploads, artifact_gone,
}
use bolder_vibes_backend.Sandbox.ApkBuild.Run.{Disk, artifact_at}

-- What the response is built from: the file that is streamed, its size, and two headers.
pub record ApkStream : Type 0 where
  pub path : String
  pub size_bytes : ℕ
  pub filename : String
  pub content_type : String

module _ (id_text : ℕ → String) (resolve : String → String) (uploads_dir : String) where
  -- The stream of a project whose state is known, or why there is none.
  unfoldable pub stream_of : ApkBuildState → ℕ → Disk → Result BuildError ApkStream
  stream_of state p disk =
      let ext = extension_for_state state in
      let resolved = artifact_at id_text resolve uploads_dir p ext in
      if not (is_ready state.status)
      then err not_ready
      else if not (starts_with resolved (resolve uploads_dir ++ "/"))
      then err outside_uploads
      else elim (disk resolved) [
        | none ↦ err artifact_gone
        | some size ↦ ok (record {
          path = resolved;
          size_bytes = size;
          filename = filename_for (id_text p) ext;
          content_type = content_type_for ext;
        })
      ]

  -- `getApkStream`.
  unfoldable pub get_apk_stream :
      {Kv : Type 0}
      → ApkRedis Kv
      → (alive : Bool) (p : ℕ) → Disk
      → BuildState Kv
      → Result BuildError ApkStream × BuildState Kv
  get_apk_stream r alive p disk s =
      let (state, s') = get_status r alive p s in (stream_of state p disk, s')
