-- ===== src/Sandbox/Preview/Prepare/Tests.antt =====
-- Work directories prepared with src/sandbox/preview/preview.service.ts.
use Prim.Native.Char.{code}
use bolder_vibes_backend.Common.{
  ℕ, String, ◌≡◌, refl, true, not, ◌&&◌, ◌||◌, Option, none, some, List, [], ◌∷◌, ◌==◌,
  if◌then◌else◌, is_some, ok, Bool,
}
use bolder_vibes_backend.Sandbox.Preview.Framework.{
  ProjectFile, Package, PackageJson, PackageJsonLaws, expo, detect_framework, plan_container,
  has_file, has_server_dir, package_json, prisma_dir_of,
}
use bolder_vibes_backend.Sandbox.Preview.Prepare.{
  Dir, Generated, prepare, preview_entry, metro_config, has_user_preview_entry, is_default_main,
  write_files,
}
use bolder_vibes_backend.Sandbox.Preview.Prepare.Laws.{Holds}
use bolder_vibes_backend.Sandbox.Preview.Prepare.Entry.{prepare-entry}
use bolder_vibes_backend.Sandbox.Preview.Framework.Schema.{schema_without_database}

-- A format that keeps the entry only: `n` without one, else `s` and the entry.
abbrev entry_of : String → Option (Package ℕ)
entry_of String.[] = none
entry_of (String.◌∷◌ c s) =
    if code c == b's'
    then some (record { main = some s; dependencies = none; dev_dependencies = none; rest = 0 })
    else if code c == b'n'
    then some (record { main = none; dependencies = none; dev_dependencies = none; rest = 0 })
    else none

abbrev text_of : Option String → String
text_of none = "n"
text_of (some m) = String.◌∷◌ "s" m

abbrev entries : PackageJson ℕ
entries = record { parse = entry_of; stringify = λ p. text_of p.main }

entries-main :
    (m : Option String) → (p : Package ℕ) × (entry_of (text_of m) ≡ some p) × (p.main ≡ m)
entries-main none = (_, refl, refl)
entries-main (some m) = (_, refl, refl)

entries-PackageJsonLaws : PackageJsonLaws entries
entries-PackageJsonLaws = record { parse-stringify = λ p. entries-main p.main }

abbrev texts : Generated
texts = record {
  metro_config_content = "metro";
  preview_entry_content = "entry";
  touch_bridge_content = "bridge";
  proxy_script = "proxy";
}

abbrev own_metro : List ProjectFile
own_metro =
    record { path = "package.json"; content = "sexpo/AppEntry.js" }
    ∷ record { path = "metro.config.js"; content = "own" }
    ∷ []

abbrev empty_dir : Dir
empty_dir q = none

-- With a Metro configuration of its own, the project's package.json names a file that is missing.
prepare-entry_example :
    (dir : Dir) × (prepare entries texts expo own_metro empty_dir ≡ ok dir)
    × Holds entries (some preview_entry) package_json dir
    × (is_some (dir preview_entry) ≡ not (has_file metro_config own_metro))
prepare-entry_example =
    prepare-entry entries entries-PackageJsonLaws texts expo own_metro empty_dir
      (some "expo/AppEntry.js") (unfold has_user_preview_entry in refl) refl
      (unfold is_default_main in refl)
      (unfold write_files in ("sexpo/AppEntry.js", _, refl, refl, refl))

-- A root schema and no server: `prisma db push` runs, and there is no database.
abbrev only_schema : List ProjectFile
only_schema = record { path = "prisma/schema.prisma"; content = "model" } ∷ []

schema_without_database_example :
    let plan = plan_container (detect_framework entries (some "custom") only_schema) only_schema in
    (is_some plan.prisma_dir && not plan.database) ≡ (
      (has_file "server/prisma/schema.prisma" only_schema
        || (has_file "backend/prisma/schema.prisma" only_schema
            || has_file "prisma/schema.prisma" only_schema))
      && not (has_server_dir only_schema))
schema_without_database_example = schema_without_database entries (some "custom") only_schema

without_database : Bool
unfolding prisma_dir_of detect_framework plan_container has_server_dir
without_database =
    let plan = plan_container (detect_framework entries (some "custom") only_schema) only_schema in
    is_some plan.prisma_dir && not plan.database

without_database_test : without_database ≡ true
unfolding without_database
without_database_test = refl
