-- ===== src/Sandbox/Docker/Build.antt =====
-- The containers of one build: the middle of `buildAndStart` of
-- src/sandbox/preview/preview.service.ts.
use bolder_vibes_backend.Common.{
  String, true, Option, none, some, [], ◌∷◌, ◌++◌, if◌then◌else◌, Action, pure, ◌>>◌,
}
use bolder_vibes_backend.Sandbox.Preview.Framework.{ContainerPlan}
use bolder_vibes_backend.Sandbox.Docker.{
  SandboxConfig, default_sandbox_config, Docker, RunnerError, Started, Labels, is_given,
}
use bolder_vibes_backend.Sandbox.Docker.Runner.{create_network, start_database, start_long_running}

-- What a build knows of its project; `sha` is the hash of package.json, empty without one.
pub record BuildInput : Type 0 where
  pub project_id : String
  pub work_dir : String
  pub install_and_dev_command : String
  pub image : String
  pub network : String
  pub password : String
  pub database_url : String
  pub sha : String
  pub plan : ContainerPlan

abbrev pub labels_of : String → Option Labels
labels_of sha = if is_given (some sha) then some (("bv_pkg_sha", sha) ∷ []) else none

abbrev pub env_of : BuildInput → Labels
env_of b =
    (if b.plan.database then ("DATABASE_URL", b.database_url) ∷ [] else [])
    ++ (if b.plan.backend_port then ("BACKEND_PORT", "3001") ∷ [] else [])

unfoldable pub config_of : BuildInput → SandboxConfig
config_of b = record default_sandbox_config {
  network_enabled = true;
  timeout_ms = b.plan.container_timeout_ms;
  max_memory_mb = b.plan.memory_mb;
  env_vars = some (env_of b);
  docker_network = if b.plan.database then some b.network else none;
  image = some b.image;
  labels = labels_of b.sha;
}

module _ {W : Type 0} (d : Docker W) where
  unfoldable pub start_app : BuildInput → Action W RunnerError Started
  start_app b =
      start_long_running d b.project_id b.work_dir b.install_and_dev_command (config_of b)
        (some 3000)

  unfoldable pub database_of_build : BuildInput → Action W RunnerError (Unit {0})
  database_of_build b =
      if b.plan.database
      then create_network d b.network
        >> start_database d b.project_id b.network b.password
        >> pure tt
      else pure tt

  -- The wait for the database, which is in between, leaves the containers as they are.
  unfoldable pub start_containers : BuildInput → Action W RunnerError Started
  unfolding database_of_build
  start_containers b = do database_of_build b; start_app b
