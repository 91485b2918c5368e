-- ===== src/Sandbox/Preview/Prepare/Laws.antt =====
-- What the patches of package.json in src/sandbox/preview/preview.service.ts keep.
use bolder_vibes_backend.Common.{
  String, ◌≡◌, refl, ◌∙◌, Bool, true, false, Option, none, some, List, [], ◌∷◌, arith, ◌=s=◌,
  if◌then◌else◌, inl, inr, eq_refl, or-eq-false, ◌⊎◌, get_or_default,
}
use bolder_vibes_backend.Sandbox.Preview.Framework.{
  ProjectFile, Package, PackageJson, PackageJsonLaws, has_file,
}
use bolder_vibes_backend.Sandbox.Preview.Prepare.{
  Dir, write_path, write_files, change_package, upgrade_sdk, with_metro_runtime, with_entry,
  patch_package, with_prisma, is_default_main, preview_entry,
}

-- A path that no file has is as it was.
pub write_files-other :
    (q : String) (files : List ProjectFile) (dir : Dir)
    → has_file q files ≡ false
    → write_files files dir q ≡ dir q
unfolding write_files
write_files-other q [] dir h = refl
write_files-other q (f ∷ files) dir h =
    let (here, there) = or-eq-false (f.path =s= q) (has_file q files) h in
    write_files-other q files (write_path f.path f.content dir) there ∙ rw here refl

module _ {Rest : Type 0} (j : PackageJson Rest) where
  -- A package.json is at the path, and names this entry.
  abbrev pub Holds : Option String → String → Dir → Type 0
  Holds main path dir =
      (raw : String) × (pkg : Package Rest) × (dir path ≡ some raw)
      × (j.parse raw ≡ some pkg)
      × (pkg.main ≡ main)

  -- What a change gives, from packages with one entry to packages with another.
  abbrev Gives : Option String → Option String → Option (Package Rest) → Type 0
  Gives m m' changed =
      ((pkg' : Package Rest) × (changed ≡ some pkg') × (pkg'.main ≡ m'))
      ⊎ ((changed ≡ none) × (m ≡ m'))

  -- A change that takes packages with one entry to packages with another.
  abbrev pub Takes : Option String → Option String → (Package Rest → Option (Package Rest)) → Type 0
  Takes m m' change = (pkg : Package Rest) → pkg.main ≡ m → Gives m m' (change pkg)

  if_none-Gives :
      (m : Option String) (p : Package Rest) (b : Bool)
      → p.main ≡ m
      → Gives m m (if b then none else some p)
  if_none-Gives m p true e = inr (refl, refl)
  if_none-Gives m p false e = inl (p, refl, e)

  if_some-Gives :
      (m : Option String) (p : Package Rest) (b : Bool)
      → p.main ≡ m
      → Gives m m (if b then some p else none)
  if_some-Gives m p true e = inl (p, refl, e)
  if_some-Gives m p false e = inr (refl, refl)

  pub change_package-other :
      (path q : String) (change : Package Rest → Option (Package Rest)) (dir : Dir)
      → path =s= q ≡ false
      → change_package j path change dir q ≡ dir q
  unfolding change_package
  change_package-other path q change dir ne = ground arith

  pub change_package-Holds :
      (laws : PackageJsonLaws j) (m m' : Option String) (path : String)
      (change : Package Rest → Option (Package Rest)) (dir : Dir)
      → Takes m m' change
      → Holds m path dir
      → Holds m' path (change_package j path change dir)
  unfolding change_package
  change_package-Holds laws m m' path change dir takes (raw, pkg, there, parsed, e) =
      elim (takes pkg e) [
        | inl (pkg', changed, e') ↦
            let (kept, again, main) = laws.parse-stringify pkg' in
            rw (there, parsed, changed, change_package)
              (j.stringify pkg', kept, rw (eq_refl path) refl, again, main ∙ e')
        | inr (kept, same) ↦
            rw (there, parsed, kept, change_package) (raw, pkg, there, parsed, e ∙ same)
      ]

  pub upgrade_sdk-Takes : (m : Option String) → Takes m m (upgrade_sdk j)
  unfolding upgrade_sdk
  upgrade_sdk-Takes m pkg e = if_none-Gives m _ _ e

  pub with_prisma-Takes : (m : Option String) → Takes m m (with_prisma j)
  unfolding with_prisma
  with_prisma-Takes m pkg e = if_some-Gives m _ _ e

  if_none-main :
      (p q : Package Rest) (b : Bool)
      → p.main ≡ q.main
      → (get_or_default (if b then none else some p) q).main ≡ q.main
  if_none-main p q true e = refl
  if_none-main p q false e = e

  with_metro_runtime-main :
      (pkg : Package Rest) → (get_or_default (with_metro_runtime j pkg) pkg).main ≡ pkg.main
  unfolding with_metro_runtime
  with_metro_runtime-main pkg = if_none-main _ pkg _ refl

  -- The patch names the generated entry, where the entry was one of Expo's.
  pub patch_package-Takes :
      (m : Option String) (has_entry : Bool)
      → has_entry ≡ false
      → is_default_main m ≡ true
      → Takes m (some preview_entry) (patch_package j has_entry)
  unfolding patch_package with_entry
  patch_package-Takes m has_entry u default pkg e = inl (
    record (get_or_default (with_metro_runtime j pkg) pkg) { main = some preview_entry },
    rw (u, with_metro_runtime-main pkg, e, default) refl,
    refl,
  )
