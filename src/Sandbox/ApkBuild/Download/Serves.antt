-- ===== src/Sandbox/ApkBuild/Download/Serves.antt =====
-- What a build of src/sandbox/apk-build/apk-build.service.ts leaves is what `getApkStream` serves.
use Prim.Native.Char.{code}
use Prim.Native.String.{◌++◌}
use text.Mathlib.TextLemmas.{append_assoc}
use text.Mathlib.TextPositions.{starts_with-append}
use bolder_vibes_backend.Common.{
  ℕ, String, ◌≡◌, refl, ◌⊎◌, inl, inr, Bool, true, false, not, ◌&&◌, some, arith, ◌==◌, Result, ok,
  starts_with, ◌≢◌, ==_refl, ap, subst, leb, Option,
}
use bolder_vibes_backend.Sandbox.ApkBuild.{
  ApkBuildState, ApkBuildPlatform, ApkBuildMode, AndroidBuildType, android, ios, apk, aab,
  extension_for, extension_for_state, content_type_for, filename_for, apk_path, without_dashes,
  is_ready, is_building,
}
use bolder_vibes_backend.Sandbox.ApkBuild.Service.{
  ApkRedis, ApkRedisLaws, BuildState, BuildError, ready_state, finish_ok, get_status, mark_ready,
}
use bolder_vibes_backend.Sandbox.ApkBuild.Starts.{stored_shown}
use bolder_vibes_backend.Sandbox.ApkBuild.Run.{
  Disk, Target, LocalHost, CloudHost, Response, artifact_at, run_local_build, run_cloud_build,
}
use bolder_vibes_backend.Sandbox.ApkBuild.Download.Stored.{Built, Built-local, Built-cloud}
use bolder_vibes_backend.Sandbox.ApkBuild.Download.{ApkStream, stream_of, get_apk_stream}

-- A text with no path separator, as a project's id is.
abbrev pub has_no_slash : String → Bool
has_no_slash String.[] = true
has_no_slash (String.◌∷◌ c s) = let rest = has_no_slash s in not (code c == b'/') && rest

without_dashes-has_no_slash :
    (s : String) → has_no_slash s ≡ true → has_no_slash (without_dashes s) ≡ true
unfolding without_dashes
without_dashes-has_no_slash String.[] h = refl
without_dashes-has_no_slash (String.◌∷◌ c s) h =
    ground (arith, without_dashes-has_no_slash s (ground arith))

-- A text whose first character is a letter, as the extensions of the artifacts.
abbrev pub starts_with_letter : String → Bool
starts_with_letter String.[] = false
starts_with_letter (String.◌∷◌ c s) = leb b'a' (code c) && leb (code c) b'z'

-- `path.resolve` of a name with no separator in a directory that is neither the current one, as the
-- empty text, nor the root: it is resolved inside the directory. The extension starts with a letter,
-- so that the name is neither `.` nor `..`.
pub record ResolveLaws (resolve : String → String) : Type 0 where
  pub resolve-name :
      (dir stem ext : String)
      → dir ≢ ""
      → resolve dir ≢ "/"
      → has_no_slash stem ≡ true
      → has_no_slash ext ≡ true
      → starts_with_letter ext ≡ true
      → resolve (dir ++ ("/" ++ (stem ++ ("." ++ ext))))
        ≡ resolve dir ++ ("/" ++ (stem ++ ("." ++ ext)))

-- The extension read back from the stored state is the one that the build wrote under.
extension_agrees :
    (id_text : ℕ → String) (p : ℕ) (mode : ApkBuildMode) (size now : ℕ)
    (platform : ApkBuildPlatform) (t : AndroidBuildType)
    → extension_for_state (ready_state id_text p mode size now platform t)
      ≡ extension_for platform t
unfolding extension_for_state extension_for ready_state
extension_agrees id_text p mode size now ios t = refl
extension_agrees id_text p mode size now android apk = refl
extension_agrees id_text p mode size now android aab = refl

plain_extension :
    (platform : ApkBuildPlatform) (t : AndroidBuildType)
    → (has_no_slash (extension_for platform t) ≡ true)
      × (starts_with_letter (extension_for platform t) ≡ true)
unfolding extension_for
plain_extension ios t = (refl, refl)
plain_extension android apk = (refl, refl)
plain_extension android aab = (refl, refl)

module _ (id_text : ℕ → String) (resolve : String → String) (uploads_dir : String) where
  -- The uploads directory is a directory below the root.
  abbrev pub IsBelowRoot : Type 0
  IsBelowRoot = (uploads_dir ≢ "") × (resolve uploads_dir ≢ "/")

  -- The extension is a plain one, and the stem holds no separator.
  confined :
      (laws : ResolveLaws resolve) (below : IsBelowRoot) (p : ℕ) (platform : ApkBuildPlatform)
      (t : AndroidBuildType)
      → has_no_slash (id_text p) ≡ true
      → starts_with
          (artifact_at id_text resolve uploads_dir p (extension_for platform t))
          (resolve uploads_dir ++ "/")
        ≡ true
  unfolding apk_path
  confined laws (named, below) p platform t plain =
      let (e, n) = plain_extension platform t in
      let stem = without_dashes-has_no_slash (id_text p) plain in
      rw
        (
          laws.resolve-name uploads_dir (without_dashes (id_text p)) (extension_for platform t)
              named below stem e n,
          ← append_assoc (resolve uploads_dir) "/"
              (without_dashes (id_text p) ++ ("." ++ extension_for platform t)),
        )
        (starts_with-append (resolve uploads_dir ++ "/") _)

  abbrev opened : ℕ → String → ℕ → ApkStream
  opened p ext size = record {
    path = artifact_at id_text resolve uploads_dir p ext;
    size_bytes = size;
    filename = filename_for (id_text p) ext;
    content_type = content_type_for ext;
  }

  stream_opens :
      (state : ApkBuildState) (p : ℕ) (disk : Disk) (ext : String) (size : ℕ)
      → is_ready state.status ≡ true
      → extension_for_state state ≡ ext
      → starts_with (artifact_at id_text resolve uploads_dir p ext) (resolve uploads_dir ++ "/")
        ≡ true
      → disk (artifact_at id_text resolve uploads_dir p ext) ≡ some size
      → stream_of id_text resolve uploads_dir state p disk ≡ ok (opened p ext size)
  unfolding stream_of
  stream_opens state p disk ext size ready same inside there = rw same (ground arith)

  -- What is asked of the answer: the file of the build, and the name and size that the stored state
  -- announces.
  abbrev pub Serves : ApkBuildState → Result BuildError ApkStream → Type 0
  Serves state answer =
      (stream : ApkStream) × (answer ≡ ok stream)
      × (state.filename ≡ some stream.filename)
      × (state.size_bytes ≡ some stream.size_bytes)

  stream_of-Built :
      (laws : ResolveLaws resolve) (below : IsBelowRoot) (p : ℕ) (state : ApkBuildState)
      (disk : Disk)
      → has_no_slash (id_text p) ≡ true
      → Built id_text resolve uploads_dir p state disk
      → Serves state (stream_of id_text resolve uploads_dir state p disk)
  unfolding ready_state
  stream_of-Built laws below p state disk plain b =
      let ext = extension_for b.platform b.build_type in
      (
        opened p ext b.size,
        stream_opens state p disk ext b.size (rw b.stored refl)
            (rw b.stored (extension_agrees id_text p b.mode b.size b.now b.platform b.build_type))
            (confined laws below p b.platform b.build_type plain) b.written,
        rw b.stored refl,
        rw b.stored refl,
      )

  -- After `markReady`, the state that is polled is the stored one.
  get_status-finish_ok :
      {Kv : Type 0} (r : ApkRedis Kv) (laws : ApkRedisLaws r) (alive : Bool) (state : ApkBuildState)
      (s : BuildState Kv)
      → is_building state.status ≡ false
      → (get_status r alive state.project_id (finish_ok r state s)).0 ≡ state
  unfolding finish_ok mark_ready
  get_status-finish_ok r laws alive state s b =
      ap (λ x. x.0)
        (stored_shown r alive state.project_id (finish_ok r state s) state
          (rw (laws.get-set state.project_id state.project_id state s.kv, ==_refl state.project_id)
            refl)
          b)

  Serves-Built :
      {Kv : Type 0} (r : ApkRedis Kv) (laws : ApkRedisLaws r) (paths : ResolveLaws resolve)
      (below : IsBelowRoot) (alive : Bool) (p : ℕ) (state : ApkBuildState) (disk : Disk)
      (s : BuildState Kv)
      → has_no_slash (id_text p) ≡ true
      → Built id_text resolve uploads_dir p state disk
      → Serves state
          (get_apk_stream id_text resolve uploads_dir r alive p disk (finish_ok r state s)).0
  unfolding get_apk_stream ready_state
  Serves-Built r laws paths below alive p state disk s plain b =
      let shown : (get_status r alive p (finish_ok r state s)).0 ≡ state =
        subst (λ j. (get_status r alive j (finish_ok r state s)).0 ≡ state) (rw b.stored refl)
          (get_status-finish_ok r laws alive state s (rw b.stored refl)) in
      rw shown (stream_of-Built paths below p state disk plain b)

  -- A build that succeeds, local or on the cloud, stores a state whose download opens the artifact
  -- which that build wrote, under the file name and with the size that the state announces. The
  -- project's id holds no path separator, the uploads directory is a directory below the root, and
  -- `path.resolve` resolves a name inside such a directory.
  pub get_apk_stream-built :
      {Kv : Type 0} (r : ApkRedis Kv) (laws : ApkRedisLaws r) (paths : ResolveLaws resolve)
      (below : IsBelowRoot) (get : String → Response) (join_url : String → String → Option String)
      (target : Target) (platform : ApkBuildPlatform) (t : AndroidBuildType) (on_host : LocalHost)
      (on_cloud : CloudHost) (disk disk' : Disk) (state : ApkBuildState) (alive : Bool)
      (s : BuildState Kv)
      → has_no_slash (id_text target.project_id) ≡ true
      → (run_local_build id_text resolve uploads_dir target on_host disk ≡ (ok state, disk'))
        ⊎ (run_cloud_build id_text resolve uploads_dir get join_url target platform t on_cloud disk
            ≡ some (ok state, disk'))
      → Serves state
          (get_apk_stream id_text resolve uploads_dir r alive target.project_id disk'
            (finish_ok r state s)).0
  get_apk_stream-built r laws paths below get join_url target platform t on_host on_cloud disk disk'
        state alive s plain (inl l) =
      Serves-Built r laws paths below alive target.project_id state disk' s plain
        (Built-local id_text resolve uploads_dir target on_host disk disk' state l)
  get_apk_stream-built r laws paths below get join_url target platform t on_host on_cloud disk disk'
        state alive s plain (inr c) =
      Serves-Built r laws paths below alive target.project_id state disk' s plain (
        Built-cloud id_text resolve uploads_dir get join_url target platform t on_cloud disk disk'
          state c)
