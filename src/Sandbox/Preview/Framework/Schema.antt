-- ===== src/Sandbox/Preview/Framework/Schema.antt =====
-- Prisma's schema and the database in `detectFramework` and `buildAndStart` of
-- src/sandbox/preview/preview.service.ts.
use bolder_vibes_backend.Common.{
  String, ◌≡◌, refl, not, ◌&&◌, ◌||◌, Option, none, some, List, is_some, Bool-cases, inl, inr,
  arith,
}
use bolder_vibes_backend.Sandbox.Preview.Framework.{
  ProjectFile, PackageJson, has_file, expo, is_proxied, has_server_dir, detect_framework,
  prisma_dir_of, plan_container, is_industry, from_dependencies, parsed, find_file, package_json,
  Package, depends_on_expo,
}

-- The dependencies never decide.
from_dependencies-expo :
    {Rest : Type 0} (j : PackageJson Rest) (pkg : Option (Package Rest))
    → from_dependencies j pkg ≡ expo
from_dependencies-expo j none = refl
from_dependencies-expo j (some pkg) = elim (Bool-cases (depends_on_expo j pkg)) [
  | inl e ↦ rw e refl
  | inr e ↦ rw e refl
]

detect_framework-server :
    {Rest : Type 0} (j : PackageJson Rest) (template_id : Option String) (files : List ProjectFile)
    → is_proxied (detect_framework j template_id files) ≡ has_server_dir files
unfolding detect_framework
detect_framework-server j template_id files =
    let last = from_dependencies-expo j (parsed j (find_file package_json files)) in
    let schema =
      Bool-cases
        (has_file "server/prisma/schema.prisma" files || has_file "prisma/schema.prisma" files) in
    elim (Bool-cases (is_industry template_id)) [
      | inl i ↦ elim (Bool-cases (has_server_dir files)) [
        | inl s ↦ elim schema [ inl p ↦ rw (i, s, p) refl | inr p ↦ rw (i, s, p) refl ]
        | inr s ↦ rw (i, s) refl
      ]
      | inr i ↦ elim (Bool-cases (has_server_dir files)) [
        | inl s ↦ elim schema [ inl p ↦ rw (i, s, p) refl | inr p ↦ rw (i, s, p) refl ]
        | inr s ↦ rw (i, s, last) refl
      ]
    ]

-- Prisma's schema is looked for in three places.
prisma_dir_of-found :
    (files : List ProjectFile)
    → is_some (prisma_dir_of files) ≡ (
        has_file "server/prisma/schema.prisma" files
        || (has_file "backend/prisma/schema.prisma" files || has_file "prisma/schema.prisma" files))
unfolding prisma_dir_of
prisma_dir_of-found files = ground arith

-- The install command sets up Prisma without a database exactly if the project has a schema in one of
-- the three places and no file under server/, whatever its template.
pub schema_without_database :
    {Rest : Type 0} (j : PackageJson Rest) (template_id : Option String) (files : List ProjectFile)
    → let plan = plan_container (detect_framework j template_id files) files in
      (is_some plan.prisma_dir && not plan.database) ≡ (
        (has_file "server/prisma/schema.prisma" files
          || (has_file "backend/prisma/schema.prisma" files
              || has_file "prisma/schema.prisma" files))
        && not (has_server_dir files))
unfolding plan_container
schema_without_database j template_id files =
    rw (detect_framework-server j template_id files, prisma_dir_of-found files) refl
