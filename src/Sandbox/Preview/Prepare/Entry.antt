-- ===== src/Sandbox/Preview/Prepare/Entry.antt =====
-- The entry of the bundle, and Prisma's database, in `buildAndStart` of
-- src/sandbox/preview/preview.service.ts.
use bolder_vibes_backend.Common.{
  String, ◌≡◌, refl, ◌∙◌, Bool, true, false, not, Option, none, some, List, ◌=s=◌, if◌then◌else◌,
  is_some, Bool-cases, inl, inr, ok, or-eq-false,
}
use bolder_vibes_backend.Sandbox.Preview.Framework.{
  ProjectFile, Package, PackageJson, PackageJsonLaws, has_file, Framework, is_proxied, package_json,
}
use bolder_vibes_backend.Sandbox.Preview.Prepare.{
  Dir, write_path, write_files, change_package, upgrade_sdk, patch_package, with_prisma,
  ensure_prisma_deps_of, ensure_prisma_deps, is_default_main, preview_entry, Generated,
  inject_metro, has_user_preview_entry, prepare, metro_config, touch_bridge,
}
use bolder_vibes_backend.Sandbox.Preview.Prepare.Laws.{
  Holds, Takes, write_files-other, change_package-other, change_package-Holds, upgrade_sdk-Takes,
  with_prisma-Takes, patch_package-Takes,
}

-- The injected files leave package.json, and the entry is there when Metro's configuration is the
-- service's own.
inject_metro-package :
    (g : Generated) (files : List ProjectFile) (dir : Dir)
    → inject_metro g files dir package_json ≡ dir package_json
unfolding inject_metro
inject_metro-package g files dir = elim (Bool-cases (has_file metro_config files)) [
  | inl m ↦ rw m refl
  | inr m ↦ elim (Bool-cases (has_user_preview_entry files)) [
    | inl u ↦ rw (m, u) refl
    | inr u ↦ rw (m, u) refl
  ]
]

inject_metro-entry :
    (g : Generated) (files : List ProjectFile) (dir : Dir)
    → has_user_preview_entry files ≡ false
    → dir preview_entry ≡ none
    → is_some (inject_metro g files dir preview_entry) ≡ not (has_file metro_config files)
unfolding inject_metro
inject_metro-entry g files dir u e = elim (Bool-cases (has_file metro_config files)) [
  | inl m ↦ rw (m, e) refl
  | inr m ↦ rw (m, u) refl
]

if-is_some :
    {A B : Type 0} (o : Option B) (b : B) (x y : A) → o ≡ some b → (if is_some o then x else y) ≡ x
if-is_some o b x y there = rw there refl

module _ {Rest : Type 0} (j : PackageJson Rest) where
  -- What package.json names as the entry, and whether the generated entry is there.
  Ready : Option String → Bool → Dir → Type 0
  Ready main entry dir = Holds j main package_json dir × (is_some (dir preview_entry) ≡ entry)

  same-Ready :
      (m : Option String) (b : Bool) (dir dir' : Dir)
      → dir' package_json ≡ dir package_json
      → dir' preview_entry ≡ dir preview_entry
      → Ready m b dir
      → Ready m b dir'
  unfolding Ready
  same-Ready m b dir dir' p e ((raw, pkg, there, parsed, main), entry) =
      ((raw, pkg, p ∙ there, parsed, main), rw e entry)

  change-Ready :
      (laws : PackageJsonLaws j) (m m' : Option String) (b : Bool)
      (change : Package Rest → Option (Package Rest)) (dir : Dir)
      → Takes j m m' change
      → Ready m b dir
      → Ready m' b (change_package j package_json change dir)
  unfolding Ready
  change-Ready laws m m' b change dir takes (holds, entry) = (
    change_package-Holds j laws m m' package_json change dir takes holds,
    rw (change_package-other j package_json preview_entry change dir refl) entry,
  )

  other-Ready :
      (m : Option String) (b : Bool) (path : String) (change : Package Rest → Option (Package Rest))
      (dir : Dir)
      → path =s= package_json ≡ false
      → path =s= preview_entry ≡ false
      → Ready m b dir
      → Ready m b (change_package j path change dir)
  other-Ready m b path change dir np ne =
      same-Ready m b dir (change_package j path change dir)
        (change_package-other j path package_json change dir np)
        (change_package-other j path preview_entry change dir ne)

  if-Ready :
      (m : Option String) (b test : Bool) (dir dir' : Dir)
      → Ready m b dir
      → (Ready m b dir → Ready m b dir')
      → Ready m b (if test then dir' else dir)
  if-Ready m b true dir dir' r step = step r
  if-Ready m b false dir dir' r step = r

  ensure_prisma_deps-Ready :
      (laws : PackageJsonLaws j) (m : Option String) (b : Bool) (dir : Dir)
      → Ready m b dir
      → Ready m b (ensure_prisma_deps j dir)
  unfolding ensure_prisma_deps ensure_prisma_deps_of
  ensure_prisma_deps-Ready laws m b dir r =
      let server =
        if-Ready m b _ dir _ r
          (other-Ready m b "server/package.json" (with_prisma j) dir refl refl) in
      let root =
        if-Ready m b _ _ _ server
          (change-Ready laws m m b (with_prisma j) _ (with_prisma-Takes j m)) in
      if-Ready m b _ _ _ root (other-Ready m b "backend/package.json" (with_prisma j) _ refl refl)

  inject_metro-Ready :
      (g : Generated) (m : Option String) (files : List ProjectFile) (dir : Dir)
      → has_user_preview_entry files ≡ false
      → dir preview_entry ≡ none
      → Holds j m package_json dir
      → Ready m (not (has_file metro_config files)) (inject_metro g files dir)
  unfolding Ready
  inject_metro-Ready g m files dir u e (raw, pkg, there, parsed, main) = (
    (raw, pkg, inject_metro-package g files dir ∙ there, parsed, main),
    inject_metro-entry g files dir u e,
  )

  proxy-Ready :
      (m : Option String) (b : Bool) (script : String) (framework : Framework) (dir : Dir)
      → Ready m b dir
      → Ready m b (if is_proxied framework then write_path "bv-proxy.js" script dir else dir)
  proxy-Ready m b script framework dir r =
      let written = write_path "bv-proxy.js" script dir in
      if-Ready m b (is_proxied framework) dir written r (same-Ready m b dir written refl refl)

  no_entry_file :
      (files : List ProjectFile)
      → has_user_preview_entry files ≡ false
      → has_file preview_entry files ≡ false
  unfolding has_user_preview_entry
  no_entry_file files u =
      let (entry, _) = or-eq-false (has_file preview_entry files) (has_file touch_bridge files) u in
      entry

  -- When the project brings none of the generated entry's files, none is left over, and its
  -- package.json can be parsed and names no entry or one of Expo's own, the preparation succeeds:
  -- package.json then names the generated entry, and that file exists exactly if the project has no
  -- Metro configuration of its own.
  pub prepare-entry :
      (laws : PackageJsonLaws j) (g : Generated) (framework : Framework) (files : List ProjectFile)
      (left_over : Dir) (m : Option String)
      → has_user_preview_entry files ≡ false
      → left_over preview_entry ≡ none
      → is_default_main m ≡ true
      → Holds j m package_json (write_files files left_over)
      → (dir : Dir) × (prepare j g framework files left_over ≡ ok dir)
        × Holds j (some preview_entry) package_json dir
        × (is_some (dir preview_entry) ≡ not (has_file metro_config files))
  unfolding prepare Ready
  prepare-entry laws g framework files left_over m u fresh default holds =
      let no_entry =
        change_package-other j package_json preview_entry (upgrade_sdk j)
          (write_files files left_over) refl
        ∙ write_files-other preview_entry files left_over (no_entry_file files u)
        ∙ fresh in
      let upgraded =
        change_package-Holds j laws m m package_json (upgrade_sdk j) (write_files files left_over)
          (upgrade_sdk-Takes j m) holds in
      let dir =
        inject_metro g files
          (change_package j package_json (upgrade_sdk j) (write_files files left_over)) in
      let injected = inject_metro-Ready g m files _ u no_entry upgraded in
      let patched =
        change-Ready laws m (some preview_entry) _ (patch_package j (has_user_preview_entry files))
          dir (patch_package-Takes j m _ u default) injected in
      let done =
        ensure_prisma_deps-Ready laws _ _ _ (proxy-Ready _ _ g.proxy_script framework _ patched) in
      let ((raw, pkg, there, _, _), _) = injected in
      let (main, entry) = done in (_, if-is_some _ raw _ _ there, main, entry)
