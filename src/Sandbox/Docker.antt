-- ===== src/Sandbox/Docker.antt =====
-- The containers of src/sandbox/runners/docker-runner.service.ts, and the calls that `buildAndStart`
-- of src/sandbox/preview/preview.service.ts makes of them. The commands of Docker are parameters.
pub mod Runner
pub mod Build
pub mod Laws
pub mod Create
pub mod Reuse
pub mod Database
pub mod Cleanup
mod Tests
use Prim.Native.String.{◌++◌}
use bolder_vibes_backend.Common.{
  ℕ, String, Bool, true, false, not, ◌&&◌, ◌||◌, Option, none, some, List, [], ◌∷◌, ◌=s=◌, ◌==◌,
  if◌then◌else◌, Result, ok, err, Action, pure, throw_if, ◌>>=◌, ◌>>◌, is_some, get_or_default,
  or_else, starts_with,
}

-- A project's id is a UUID: without its hyphens, as in the names of containers and networks, it still
-- tells projects apart. Here it stands for that.
pub data Name : Type 0 where
  sandbox_of : String → Name
  preview_of : String → Name
  database_of : String → Name

abbrev pub same_name : Name → Name → Bool
same_name (sandbox_of p) (sandbox_of q) = p =s= q
same_name (preview_of p) (preview_of q) = p =s= q
same_name (database_of p) (database_of q) = p =s= q
same_name _ _ = false

abbrev pub Labels : Type 0
Labels = List (String × String)

-- Docker keeps the last label of a name.
abbrev pub label : String → Labels → Option String
label name [] = none
label name ((n, v) ∷ labels) = or_else (label name labels) (if n =s= name then some v else none)

pub record SandboxConfig : Type 0 where
  pub timeout_ms : ℕ
  pub max_memory_mb : ℕ
  pub max_cpu_percent : ℕ
  pub network_enabled : Bool
  pub env_vars : Option Labels
  pub docker_network : Option String
  pub image : Option String
  pub labels : Option Labels

abbrev pub default_sandbox_config : SandboxConfig
default_sandbox_config = record {
  timeout_ms = 30000;
  max_memory_mb = 512;
  max_cpu_percent = 50;
  network_enabled = false;
  env_vars = none;
  docker_network = none;
  image = none;
  labels = none;
}

-- The arguments of `docker run`.
pub record RunArgs : Type 0 where
  pub name : Name
  pub network : Option String
  pub memory_mb : ℕ
  pub cpu_percent : Option ℕ
  pub env : Labels
  pub labels : Labels
  pub volumes : List String
  pub published : Option (ℕ × ℕ)
  pub image : String
  pub command : Option String

-- A container, with what it was created from. Its id stands for a digest.
pub record Container : Type 0 where
  pub id : ℕ
  pub running : Bool
  pub port : Option ℕ
  pub labels : Labels
  pub args : RunArgs

pub data RunnerError : Type 0 where
  image_missing : String → RunnerError
  no_port : RunnerError
  docker_failed : RunnerError

-- What `docker network create` answers.
pub data NetworkAnswer (W : Type 0) : Type 0 where
  created : W → NetworkAnswer W
  already_exists : NetworkAnswer W
  network_failed : NetworkAnswer W

-- The commands. A `none` is a command that fails, which is taken to change nothing.
pub record Docker (W : Type 0) : Type 0 where
  pub inspect : Name → W → Option Container
  pub stop : Name → W → Option W
  pub rm : Name → W → Option W
  pub has_image : String → W → Bool
  pub pull : String → W → Option W
  pub has_volume : String → W → Bool
  pub create_volume : String → W → Option W
  pub run : RunArgs → W → Option (ℕ × W)
  pub connect_network : String → Name → W → Option W
  pub network_create : String → W → NetworkAnswer W
  pub rm_network : String → W → Option W
  -- A port that the system has just bound and freed again.
  pub find_available_port : W → Option (ℕ × W)

pub record Started : Type 0 where
  pub container_id : ℕ
  pub port : ℕ
  pub reused : Bool

abbrev pub is_text : String → Option String → Bool
is_text v none = false
is_text v (some t) = t =s= v

abbrev pub is_port : Option ℕ → Bool
is_port none = false
is_port (some p) = not (p == 0)

abbrev pub is_given : Option String → Bool
is_given none = false
is_given (some t) = not (t =s= "")

abbrev pub pkg_sha : SandboxConfig → Option String
pkg_sha cfg = label "bv_pkg_sha" (get_or_default cfg.labels [])

abbrev pub image_of : SandboxConfig → String
image_of cfg = get_or_default cfg.image "node:20-alpine"

-- The condition under which a container is returned as it is.
unfoldable pub is_reusable : String → SandboxConfig → Container → Bool
is_reusable p cfg c =
    c.running
    && (is_text p (label "bv_project_id" c.labels)
        && (is_text (image_of cfg) (label "bv_image" c.labels)
            && ((not (is_given (pkg_sha cfg))
                  || is_text (get_or_default (pkg_sha cfg) "") (label "bv_pkg_sha" c.labels))
                && is_port c.port)))

abbrev pub label_flags : String → SandboxConfig → Labels
label_flags p cfg = ("bv_project_id", p) ∷ ("bv_image", image_of cfg) ∷ get_or_default cfg.labels []

abbrev pub volume_flags : String → String → List String
volume_flags work_dir image =
    (work_dir ++ ":/app")
    ∷ "bv-npm-cache:/root/.npm"
    ∷ (if starts_with image "bv-expo-preview"
        then "bv-metro-cache-v1:/root/.metro-cache"
        else "bv-expo-modules:/app/node_modules")
    ∷ []

abbrev pub run_args : (p work_dir command : String) → SandboxConfig → Option ℕ → ℕ → RunArgs
run_args p work_dir command cfg container_port host_port = record {
  name = preview_of p;
  network = none;
  memory_mb = cfg.max_memory_mb;
  cpu_percent = some cfg.max_cpu_percent;
  env = get_or_default cfg.env_vars [];
  labels = label_flags p cfg;
  volumes = volume_flags work_dir (image_of cfg);
  published = some (host_port, get_or_default container_port 3000);
  image = image_of cfg;
  command = some command;
}

-- The port of the host that a container is published on.
abbrev pub host_port : RunArgs → Option ℕ
host_port args = elim args.published [ none ↦ none | some (host, _) ↦ some host ]

abbrev pub postgres : String
postgres = "postgres:16-alpine"

abbrev pub database_args : (p network password : String) → RunArgs
database_args p network password = record {
  name = database_of p;
  network = some network;
  memory_mb = 256;
  cpu_percent = none;
  env =
      ("POSTGRES_USER", "postgres")
      ∷ ("POSTGRES_PASSWORD", if password =s= "" then "postgres" else password)
      ∷ ("POSTGRES_DB", "app")
      ∷ [];
  labels = [];
  volumes = [];
  published = none;
  image = postgres;
  command = none;
}
