-- ===== src/Sandbox/Docker/Runner.antt =====
-- The operations of src/sandbox/runners/docker-runner.service.ts, over the commands of Docker.
use Prim.Native.String.{◌++◌}
use bolder_vibes_backend.Common.{
  ℕ, String, Bool, true, false, Option, none, some, if◌then◌else◌, ok, err, Action, pure, ◌>>=◌,
  ◌>>◌, is_some, get_or_default, starts_with,
}
use bolder_vibes_backend.Sandbox.Docker.{
  Container, Docker, Name, RunArgs, RunnerError, SandboxConfig, Started, already_exists, created,
  database_args, database_of, docker_failed, host_port, image_missing, image_of, is_reusable,
  network_failed, no_port, postgres, preview_of, run_args, sandbox_of,
}

module _ {W : Type 0} (d : Docker W) where
  -- A command whose failure is swallowed.
  abbrev pub swallow : (W → Option W) → W → W
  swallow f w = get_or_default (f w) w

  -- A command whose failure is thrown.
  abbrev pub must : (W → Option W) → Action W RunnerError (Unit {0})
  must f w = elim (f w) [ none ↦ (err docker_failed, w) | some w' ↦ (ok tt, w') ]

  unfoldable pub force_remove_container : Name → W → W
  force_remove_container n w = swallow (d.rm n) (swallow (d.stop n) w)

  abbrev pub take_port : Action W RunnerError ℕ
  take_port w = elim (d.find_available_port w) [
    | none ↦ (err no_port, w)
    | some (p, w') ↦ (ok p, w')
  ]

  abbrev pub run_container : RunArgs → Action W RunnerError ℕ
  run_container args w = elim (d.run args w) [
    | none ↦ (err docker_failed, w)
    | some (id, w') ↦ (ok id, w')
  ]

  -- Images that are built here are not pulled.
  unfoldable pub ensure_image : String → Action W RunnerError (Unit {0})
  ensure_image image w =
      if d.has_image image w
      then (ok tt, w)
      else if starts_with image "bv-"
      then (err (image_missing image), w)
      else must (d.pull image) w

  abbrev ensure_volume : String → Action W RunnerError (Unit {0})
  ensure_volume v w = if d.has_volume v w then (ok tt, w) else must (d.create_volume v) w

  unfoldable pub ensure_npm_cache_volume : Action W RunnerError (Unit {0})
  ensure_npm_cache_volume =
      ensure_volume "bv-npm-cache"
      >> ensure_volume "bv-metro-cache-v1"
      >> ensure_volume "bv-expo-modules"

  abbrev pub connect : Option String → Name → Action W RunnerError (Unit {0})
  connect none n w = (ok tt, w)
  connect (some net) n w = must (d.connect_network net n) w

  -- `docker run`, and the network after it.
  unfoldable pub launch :
      (p work_dir command : String) → SandboxConfig → Option ℕ → ℕ → Action W RunnerError Started
  launch p work_dir command cfg container_port host_port = do
    id ← run_container (run_args p work_dir command cfg container_port host_port)
    connect cfg.docker_network (preview_of p)
    pure (record { container_id = id; port = host_port; reused = false })

  -- The image and the volumes are there.
  unfoldable pub ensure_image_and_volumes : SandboxConfig → Action W RunnerError (Unit {0})
  unfolding ensure_image ensure_npm_cache_volume
  ensure_image_and_volumes cfg = ensure_image (image_of cfg) >> ensure_npm_cache_volume

  -- The container is built anew.
  unfoldable pub create_container :
      (p work_dir command : String) → SandboxConfig → Option ℕ → Action W RunnerError Started
  create_container p work_dir command cfg container_port = do
    host_port ← take_port
    ensure_image_and_volumes cfg
    launch p work_dir command cfg container_port host_port

  -- The container that can be returned, with its port.
  abbrev pub reused_of : String → SandboxConfig → Option Container → Option Started
  reused_of p cfg none = none
  reused_of p cfg (some c) =
      if is_reusable p cfg c
      then some (record { container_id = c.id; port = get_or_default c.port 0; reused = true })
      else none

  unfoldable pub start_long_running :
      (p work_dir command : String) → SandboxConfig → Option ℕ → Action W RunnerError Started
  unfolding force_remove_container create_container
  start_long_running p work_dir command cfg container_port w =
      elim (reused_of p cfg (d.inspect (preview_of p) w)) [
        | some s ↦ (ok s, w)
        | none ↦
            create_container p work_dir command cfg container_port
              (force_remove_container (preview_of p) w)
      ]

  unfoldable pub create_network : String → Action W RunnerError (Unit {0})
  create_network net w = elim (d.network_create net w) [
    | created w' ↦ (ok tt, w')
    | already_exists ↦ (ok tt, w)
    | network_failed ↦ (err docker_failed, w)
  ]

  abbrev pub pull_missing : String → Action W RunnerError (Unit {0})
  pull_missing image w = if d.has_image image w then (ok tt, w) else must (d.pull image) w

  unfoldable pub start_database : (p network password : String) → Action W RunnerError ℕ
  unfolding force_remove_container
  start_database p network password w =
      (pull_missing postgres >>= λ _. run_container (database_args p network password))
        (force_remove_container (database_of p) w)

  -- `docker inspect` answers for a container that has exited too.
  abbrev pub container_exists : String → W → Bool
  container_exists p w = is_some (d.inspect (preview_of p) w)

  unfoldable pub cleanup : String → W → W
  unfolding force_remove_container
  cleanup p w =
      let sandbox = force_remove_container (sandbox_of p) w in
      let preview = force_remove_container (preview_of p) sandbox in
      let database = force_remove_container (database_of p) preview in
      swallow (d.rm_network ("bv-net-" ++ p)) database
