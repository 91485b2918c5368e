-- ===== src/Sandbox/Preview/Prepare.antt =====
-- What `buildAndStart` of src/sandbox/preview/preview.service.ts puts in the work directory before the
-- container starts; src/sandbox/preview/sdk-upgrade.ts.
mod Laws
mod Entry
mod Tests
use bolder_vibes_backend.Common.{
  ℕ, String, Bool, true, false, not, ◌&&◌, ◌||◌, Option, none, some, List, [], ◌∷◌, ◌++◌, ◌=s=◌,
  if◌then◌else◌, any, is_some, Result, ok, err, get_or_default, or_else, starts_with, ◌≡◌,
}
use bolder_vibes_backend.Sandbox.Preview.Framework.{
  ProjectFile, Deps, lookup, is_truthy, Package, PackageJson, Framework, has_file, is_proxied,
  package_json, expo, expo_backend, expo_fullstack,
}

-- The work directory, by the paths relative to it. Paths are compared as they are written.
abbrev pub Dir : Type 0
Dir = String → Option String

abbrev pub write_path : String → String → Dir → Dir
write_path path content dir q = if path =s= q then some content else dir q

abbrev pub put_dep : String → String → Deps → Deps
put_dep name value [] = (name, value) ∷ []
put_dep name value ((n, v) ∷ deps) =
    if n =s= name then (n, value) ∷ deps else (n, v) ∷ put_dep name value deps

-- The generated files, by their names here.
abbrev pub metro_config : String
metro_config = "metro.config.js"

abbrev pub preview_entry : String
preview_entry = "bv-preview-entry.js"

abbrev pub touch_bridge : String
touch_bridge = "bv-touch-bridge.js"

pub data PrepareError : Type 0 where
  missing_package_json : PrepareError

-- The texts of the generated files.
pub record Generated : Type 0 where
  pub metro_config_content : String
  pub preview_entry_content : String
  pub touch_bridge_content : String
  pub proxy_script : String

unfoldable pub write_files : List ProjectFile → Dir → Dir
write_files [] dir = dir
write_files (f ∷ files) dir = write_files files (write_path f.path f.content dir)

unfoldable pub has_user_preview_entry : List ProjectFile → Bool
has_user_preview_entry files = has_file preview_entry files || has_file touch_bridge files

-- Metro's configuration, and the entry with its bridge, unless the project has a configuration.
unfoldable pub inject_metro : Generated → List ProjectFile → Dir → Dir
inject_metro g files dir =
    if has_file metro_config files
    then dir
    else write_path metro_config g.metro_config_content (
        if has_user_preview_entry files
        then dir
        else write_path preview_entry g.preview_entry_content
            (write_path touch_bridge g.touch_bridge_content dir))

-- `!pkg.main` or one of Expo's own entries.
unfoldable pub is_default_main : Option String → Bool
is_default_main none = true
is_default_main (some m) =
    (m =s= "")
    || ((m =s= "expo/AppEntry.js")
        || ((m =s= "expo/AppEntry") || (m =s= "node_modules/expo/AppEntry.js")))

module _ {Rest : Type 0} (j : PackageJson Rest) where
  -- A change of a package.json that is there and can be parsed; `none` writes nothing.
  unfoldable pub change_package : String → (Package Rest → Option (Package Rest)) → Dir → Dir
  change_package path change dir = elim (dir path) [
    | none ↦ dir
    | some raw ↦ elim (j.parse raw) [
      | none ↦ dir
      | some pkg ↦ elim (change pkg) [
        | none ↦ dir
        | some pkg' ↦ write_path path (j.stringify pkg') dir
      ]
    ]
  ]

  -- `upgradeProjectToTargetSdk`.
  unfoldable pub upgrade_sdk : Package Rest → Option (Package Rest)
  upgrade_sdk pkg =
      let deps = get_or_default pkg.dependencies [] in
      if get_or_default (lookup "expo" deps) "" =s= "~54.0.0"
      then none
      else some (record pkg { dependencies = some (put_dep "expo" "~54.0.0" deps) })

  -- The runtime that Expo's web preview needs.
  unfoldable pub with_metro_runtime : Package Rest → Option (Package Rest)
  with_metro_runtime pkg =
      let deps = get_or_default pkg.dependencies [] in
      if is_truthy (lookup "@expo/metro-runtime" deps)
      then none
      else some (record pkg { dependencies = some (put_dep "@expo/metro-runtime" "~4.0.1" deps) })

  -- The entry of the bundle: `has_entry` says that the project brings one of the generated names.
  unfoldable pub with_entry : (has_entry : Bool) → Package Rest → Option (Package Rest)
  with_entry has_entry pkg =
      if not has_entry && is_default_main pkg.main
      then some (record pkg { main = some preview_entry })
      else none

  -- Both changes, written once.
  unfoldable pub patch_package : (has_entry : Bool) → Package Rest → Option (Package Rest)
  patch_package has_entry pkg =
      let first = with_metro_runtime pkg in
      let second = with_entry has_entry (get_or_default first pkg) in
      if is_some second then second else first

  unfoldable pub with_prisma : Package Rest → Option (Package Rest)
  with_prisma pkg =
      let deps = get_or_default pkg.dependencies [] in
      let dev_deps = get_or_default pkg.dev_dependencies [] in
      let lacks_client = not (is_truthy (lookup "@prisma/client" deps)) in
      let lacks_prisma =
        not (is_truthy (lookup "prisma" deps)) && not (is_truthy (lookup "prisma" dev_deps)) in
      if lacks_client || lacks_prisma
      then some (record pkg {
        dependencies =
            some (if lacks_client then put_dep "@prisma/client" "^5.22.0" deps else deps);
        dev_dependencies =
            if lacks_prisma
            then some (put_dep "prisma" "^5.22.0" dev_deps)
            else pkg.dev_dependencies;
      })
      else none

  -- One round of `ensurePrismaDeps`.
  unfoldable pub ensure_prisma_deps_of : (schema pkg : String) → Dir → Dir
  ensure_prisma_deps_of schema pkg dir =
      if is_some (dir schema) then change_package pkg with_prisma dir else dir

  unfoldable pub ensure_prisma_deps : Dir → Dir
  ensure_prisma_deps dir =
      ensure_prisma_deps_of "backend/prisma/schema.prisma" "backend/package.json" (
        ensure_prisma_deps_of "prisma/schema.prisma" "package.json"
          (ensure_prisma_deps_of "server/prisma/schema.prisma" "server/package.json" dir))

  -- The work directory from its state after the cleaning: the files, the SDK, the injected files, the
  -- patches of package.json, the proxy, and Prisma's dependencies.
  unfoldable pub prepare : Generated → Framework → List ProjectFile → Dir → Result PrepareError Dir
  unfolding write_files upgrade_sdk inject_metro change_package patch_package ensure_prisma_deps
  prepare g framework files left_over =
      let injected =
        inject_metro g files
          (change_package package_json upgrade_sdk (write_files files left_over)) in
      if is_some (injected package_json)
      then (let patched =
            change_package package_json (patch_package (has_user_preview_entry files)) injected in
          ok (
            ensure_prisma_deps (
              if is_proxied framework
              then write_path "bv-proxy.js" g.proxy_script patched
              else patched)))
      else err missing_package_json
