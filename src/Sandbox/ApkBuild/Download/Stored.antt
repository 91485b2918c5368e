-- ===== src/Sandbox/ApkBuild/Download/Stored.antt =====
-- What the builds of src/sandbox/apk-build/apk-build.service.ts leave when they succeed.

use bolder_vibes_backend.Common.{
  ℕ, String, ◌≡◌, refl, inl, inr, some, arith, ok, eq_refl, Option-cases, or_else, Option,
}
use bolder_vibes_backend.Sandbox.ApkBuild.{
  ApkBuildState, ApkBuildPlatform, ApkBuildMode, AndroidBuildType, local, cloud, android, apk,
  extension_for,
}
use bolder_vibes_backend.Sandbox.ApkBuild.Service.{ready_state}
use bolder_vibes_backend.Sandbox.ApkBuild.Run.{
  never_settles, gave_up, arrived, Disk, write_file, Target, LocalHost, CloudHost, Response,
  artifact_at, run_local_build, run_cloud_build, fetch_artifact, download_file, gave_up, arrived,
}

module _ (id_text : ℕ → String) (resolve : String → String) (uploads_dir : String) where
  -- A state as `markReady` stores it, and the artifact that lies under its extension.
  pub record Built (p : ℕ) (state : ApkBuildState) (disk : Disk) : Type 0 where
    pub mode : ApkBuildMode
    pub size : ℕ
    pub now : ℕ
    pub platform : ApkBuildPlatform
    pub build_type : AndroidBuildType
    pub stored : state ≡ ready_state id_text p mode size now platform build_type
    pub written :
        disk (artifact_at id_text resolve uploads_dir p (extension_for platform build_type))
        ≡ some size

  written_there :
      (path : String) (size : ℕ) (disk : Disk) → write_file path size disk path ≡ some size
  written_there path size disk = rw (eq_refl path) refl

  -- A state stored, and its artifact written, by a build that ended with them.
  Built-written :
      (p : ℕ) (mode : ApkBuildMode) (size now : ℕ) (platform : ApkBuildPlatform)
      (t : AndroidBuildType) (disk disk' : Disk) (state : ApkBuildState)
      → state ≡ ready_state id_text p mode size now platform t
      → disk'
        ≡ write_file
            (artifact_at id_text resolve uploads_dir p (extension_for platform t))
            size
            disk
      → Built p state disk'
  Built-written p mode size now platform t disk disk' state stored wrote = record {
    mode = mode;
    size = size;
    now = now;
    platform = platform;
    build_type = t;
    stored = stored;
    written = rw wrote (written_there _ size disk);
  }

  pub Built-local :
      (target : Target) (host : LocalHost) (disk disk' : Disk) (state : ApkBuildState)
      → run_local_build id_text resolve uploads_dir target host disk ≡ (ok state, disk')
      → Built target.project_id state disk'
  unfolding run_local_build extension_for
  Built-local target host disk disk' state e = elim (Option-cases host.apk_size) [
    | inl missing ↦ absurd (ground arith)
    | inr (size, there) ↦
        Built-written target.project_id local size target.now android apk disk disk' state
          (ground arith) (ground arith)
  ]

  Built-fetched :
      (get : String → Response) (join_url : String → String → Option String) (target : Target)
      (platform : ApkBuildPlatform) (t : AndroidBuildType) (url : String) (disk disk' : Disk)
      (state : ApkBuildState)
      → fetch_artifact id_text resolve uploads_dir get join_url target platform t url disk
        ≡ some (ok state, disk')
      → Built target.project_id state disk'
  unfolding fetch_artifact
  Built-fetched get join_url target platform t url disk disk' state e =
      elim (Option-cases (download_file get join_url url)) [
        | inl out ↦ absurd (ground arith)
        | inr (never_settles, hung) ↦ absurd (ground arith)
        | inr (gave_up x, failed) ↦ absurd (ground arith)
        | inr (arrived size, got) ↦
            Built-written target.project_id cloud size target.now platform t disk disk' state
              (ground arith) (ground arith)
      ]

  pub Built-cloud :
      (get : String → Response) (join_url : String → String → Option String) (target : Target)
      (platform : ApkBuildPlatform) (t : AndroidBuildType) (host : CloudHost) (disk disk' : Disk)
      (state : ApkBuildState)
      → run_cloud_build id_text resolve uploads_dir get join_url target platform t host disk
        ≡ some (ok state, disk')
      → Built target.project_id state disk'
  unfolding run_cloud_build
  Built-cloud get join_url target platform t host disk disk' state e =
      elim (Option-cases (or_else host.url_in_file host.url_in_log)) [
        | inl missing ↦ absurd (ground arith)
        | inr (url, found) ↦
            Built-fetched get join_url target platform t url disk disk' state (ground arith)
      ]
