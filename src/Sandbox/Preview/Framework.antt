-- ===== src/Sandbox/Preview/Framework.antt =====
-- `detectFramework` of src/sandbox/preview/preview.service.ts, and what `buildAndStart` asks of the
-- container.
pub mod Schema
use bolder_vibes_backend.Common.{
  ℕ, String, Bool, true, false, not, ◌&&◌, ◌||◌, Option, none, some, List, [], ◌∷◌, ◌=s=◌,
  if◌then◌else◌, any, is_some, get_or_default, or_else, starts_with, ◌≡◌,
}

pub record ProjectFile : Type 0 where
  pub path : String
  pub content : String

abbrev pub Deps : Type 0
Deps = List (String × String)

-- `deps[name]`, and whether it counts as true.
abbrev pub lookup : String → Deps → Option String
lookup name [] = none
lookup name ((n, v) ∷ deps) = if n =s= name then some v else lookup name deps

abbrev pub is_truthy : Option String → Bool
is_truthy none = false
is_truthy (some v) = not (v =s= "")

-- A parsed package.json; what else stands in it is kept as it is.
pub record Package (Rest : Type 0) : Type 0 where
  pub main : Option String
  pub dependencies : Option Deps
  pub dev_dependencies : Option Deps
  pub rest : Rest

-- `JSON.parse` and `JSON.stringify` on package.json. A text that holds no object, such as `null`, is
-- taken as one that cannot be parsed.
pub record PackageJson (Rest : Type 0) : Type 0 where
  pub parse : String → Option (Package Rest)
  pub stringify : Package Rest → String

pub record PackageJsonLaws {Rest : Type 0} (j : PackageJson Rest) : Type 0 where
  -- What is written can be parsed, and names the same entry.
  pub parse-stringify :
      (p : Package Rest)
      → (p' : Package Rest) × (j.parse (j.stringify p) ≡ some p') × (p'.main ≡ p.main)

abbrev pub package_json : String
package_json = "package.json"

pub data Framework : Type 0 where
  expo : Framework
  expo_backend : Framework
  expo_fullstack : Framework

abbrev pub has_file : String → List ProjectFile → Bool
has_file path files = any (λ f. f.path =s= path) files

-- `files.find(f => f.path === path)`.
abbrev pub find_file : String → List ProjectFile → Option ProjectFile
find_file path [] = none
find_file path (f ∷ files) = if f.path =s= path then some f else find_file path files

abbrev pub content_of : Option ProjectFile → Option String
content_of none = none
content_of (some f) = some f.content

unfoldable pub has_server_dir : List ProjectFile → Bool
has_server_dir files = any (λ f. starts_with f.path "server/") files

abbrev industry_ids : List String
industry_ids =
    "ecommerce" ∷ "social" ∷ "health" ∷ "education" ∷ "food" ∷ "productivity" ∷ "finance" ∷ "custom"
    ∷ []

abbrev pub is_industry : Option String → Bool
is_industry none = false
is_industry (some id) = not (id =s= "") && any (λ i. i =s= id) industry_ids

abbrev pub is_proxied : Framework → Bool
is_proxied expo = false
is_proxied _ = true

module _ {Rest : Type 0} (j : PackageJson Rest) where
  -- `allDeps[name]`: the development dependencies win.
  abbrev pub all_deps : String → Package Rest → Option String
  all_deps name pkg =
      or_else (lookup name (get_or_default pkg.dev_dependencies []))
        (lookup name (get_or_default pkg.dependencies []))

  abbrev pub depends_on_expo : Package Rest → Bool
  depends_on_expo pkg = is_truthy (all_deps "expo" pkg) || is_truthy (all_deps "react-native" pkg)

  abbrev pub parsed : Option ProjectFile → Option (Package Rest)
  parsed none = none
  parsed (some f) = j.parse f.content

  -- The last step of `detectFramework`, on package.json.
  abbrev pub from_dependencies : Option (Package Rest) → Framework
  from_dependencies none = expo
  from_dependencies (some pkg) = if depends_on_expo pkg then expo else expo

  -- `detectFramework`: the files decide, for a template as without one.
  unfoldable pub detect_framework : Option String → List ProjectFile → Framework
  detect_framework template_id files =
      let has_prisma_schema =
        has_file "server/prisma/schema.prisma" files || has_file "prisma/schema.prisma" files in
      let server = has_server_dir files in
      if is_industry template_id
      then (if server && has_prisma_schema
          then expo_fullstack
          else if server
          then expo_backend
          else expo)
      else if server && has_prisma_schema
      then expo_fullstack
      else if server
      then expo_backend
      else from_dependencies (parsed (find_file package_json files))

-- What is asked of the container.
pub record ContainerPlan : Type 0 where
  pub database : Bool
  pub backend_port : Bool
  pub prisma_dir : Option String
  pub pkg_json : Option String
  pub memory_mb : ℕ
  pub container_timeout_ms : ℕ
  pub ready_timeout_ms : ℕ

-- Where the schema is that the install command sets up with Prisma.
unfoldable pub prisma_dir_of : List ProjectFile → Option String
prisma_dir_of files =
    if has_file "server/prisma/schema.prisma" files
    then some "server"
    else if has_file "backend/prisma/schema.prisma" files
    then some "backend"
    else if has_file "prisma/schema.prisma" files
    then some "."
    else none

-- `isFullstack` and `needsDatabase` are the same test.
unfoldable pub plan_container : Framework → List ProjectFile → ContainerPlan
plan_container framework files =
    let is_fullstack = is_proxied framework in
    record {
      database = is_fullstack;
      backend_port = is_fullstack;
      prisma_dir = prisma_dir_of files;
      pkg_json = content_of (find_file package_json files);
      memory_mb = if is_fullstack then 2560 else 2048;
      container_timeout_ms = if is_fullstack then 600000 else 300000;
      ready_timeout_ms = if is_fullstack then 240000 else 180000;
    }
