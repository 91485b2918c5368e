-- ===== src/Sandbox/Docker/Reuse.antt =====
-- When `startLongRunning` of src/sandbox/runners/docker-runner.service.ts returns the container that is
-- there.

use bolder_vibes_backend.Common.{
  String, ◌≡◌, refl, sym, ◌∙◌, Bool, true, false, not, ◌&&◌, ◌||◌, Option, none, some, [], ◌=s=◌,
  ◌==◌, if◌then◌else◌, Bool-cases, inl, inr, ok, arith, eq_iff, eq_refl, subst, ap, get_or_default,
  or_else,
}
use bolder_vibes_backend.Sandbox.Docker.{
  preview_of, Container, Docker, Started, is_reusable, is_given, is_text, label,
}
use bolder_vibes_backend.Sandbox.Docker.Build.{BuildInput, config_of, start_app, labels_of}
use bolder_vibes_backend.Sandbox.Docker.Create.{
  Built, built, start_long_running-Built, start_long_running-reuses, start_long_running-rebuilds,
}
use bolder_vibes_backend.Sandbox.Docker.Laws.{DockerLaws, ok-injective}

-- The label of package.json, and no other, is set, if there is one.
labels_of-bv_pkg_sha :
    (t : String)
    → label "bv_pkg_sha" (get_or_default (labels_of t) []) ≡ (if t =s= "" then none else some t)
labels_of-bv_pkg_sha t = elim (Bool-cases (t =s= "")) [ inl e ↦ rw e refl | inr e ↦ rw e refl ]

labels_of-other :
    (name t : String)
    → "bv_pkg_sha" =s= name ≡ false
    → label name (get_or_default (labels_of t) []) ≡ none
labels_of-other name t ne = elim (Bool-cases (t =s= "")) [
  | inl e ↦ rw e refl
  | inr e ↦ rw (e, ne) refl
]

or_else-none : (o : Option String) → or_else o none ≡ o
or_else-none none = refl
or_else-none (some t) = refl

and_true : (b : Bool) → (b && true) ≡ b
and_true true = refl
and_true false = refl

sha-fits :
    (t t' : String)
    → let had = if t =s= "" then none else some t in
      let has = if t' =s= "" then none else some t' in
      (not (is_given has) || is_text (get_or_default has "") had)
      ≡ (not (is_given (some t')) || (t =s= t'))
sha-fits t t' = elim (Bool-cases (t' =s= "")) [
  | inl e' ↦ rw e' refl
  | inr e' ↦ elim (Bool-cases (t =s= "")) [
    | inl e ↦
        rw (e, e')
          (elim (Bool-cases (t =s= t')) [
            | inl same ↦
                let clash = subst (λ z. z =s= "" ≡ true) ((eq_iff t t').0 same) e in
                ground (arith, clash, e')
            | inr other ↦ rw (other, e') refl
          ])
    | inr e ↦ rw (e, e', e') refl
  ]
]

-- Whether a build may go on in the container of an earlier one: the image is the same, and if
-- package.json is there, it is as it was.
abbrev pub fits : BuildInput → BuildInput → Bool
fits b b' = (b.image =s= b'.image) && (not (is_given (some b'.sha)) || (b.sha =s= b'.sha))

abbrev pub container_of : BuildInput → Started → Container
container_of b s =
    built b.project_id b.work_dir b.install_and_dev_command (config_of b) (some 3000) s

module _ {W : Type 0} (d : Docker W) (laws : DockerLaws d) where
  is_reusable-fits :
      (b b' : BuildInput) (s : Started)
      → s.port == 0 ≡ false
      → b'.project_id ≡ b.project_id
      → is_reusable b'.project_id (config_of b') (container_of b s) ≡ fits b b'
  unfolding is_reusable config_of
  is_reusable-fits b b' s positive same =
      rw
        (
          labels_of-other "bv_project_id" b.sha refl,
          labels_of-other "bv_image" b.sha refl,
          labels_of-bv_pkg_sha b.sha,
          labels_of-bv_pkg_sha b'.sha,
          same,
          eq_refl b.project_id,
          positive,
          or_else-none (if b.sha =s= "" then none else some b.sha),
          or_else-none (if b.sha =s= "" then none else some b.sha),
          sha-fits b.sha b'.sha,
          and_true (not (is_given (some b'.sha)) || (b.sha =s= b'.sha)),
        )
        refl

  -- Let a build have started a container, and let it still be there as it was started when the next
  -- build of the project comes and succeeds. If the image is the same, and package.json is as it was or
  -- is missing, the next build has gone on in that container, and nothing was started: it still has the
  -- command, the variables and the limits of the first build. Else the build has a container of its
  -- own, with what it asked for.
  pub second_build_lem :
      (b b' : BuildInput) (s s' : Started) (w w₁ w₂ w₃ : W)
      → b'.project_id ≡ b.project_id
      → start_app d b w ≡ (ok s, w₁)
      → s.reused ≡ false
      → d.inspect (preview_of b.project_id) w₂ ≡ d.inspect (preview_of b.project_id) w₁
      → start_app d b' w₂ ≡ (ok s', w₃)
      → (s'.reused ≡ fits b b')
        × (d.inspect (preview_of b.project_id) w₃
            ≡ some (if fits b b' then container_of b s else container_of b' s'))
        × ((if fits b b' then record s { reused = true } else s') ≡ s')
        × ((if fits b b' then w₂ else w₃) ≡ w₃)
  unfolding start_app Built
  second_build_lem b b' s s' w w₁ w₂ w₃ same first fresh kept second =
      let (_, positive, there) = start_long_running-Built d laws _ _ _ _ _ s w w₁ first fresh in
      let found = ap (λ p. d.inspect (preview_of p) w₂) same ∙ kept ∙ there in
      let test = is_reusable-fits b b' s positive same in
      elim (Bool-cases (fits b b')) [
        | inl fit ↦
            let reuse = start_long_running-reuses d laws _ _ _ _ _ _ w₂ found (test ∙ fit) in
            let (started, after) = ok-injective _ s' w₂ w₃ (sym reuse ∙ second) in
            rw fit (
              ap (λ x. x.reused) (sym started),
              ap (d.inspect (preview_of b.project_id)) (sym after) ∙ kept ∙ there,
              started,
              after,
            )
        | inr other ↦
            let (new, _, now) =
              start_long_running-rebuilds d laws _ _ _ _ _ s' _ w₂ w₃ found (test ∙ other) second in
            rw other (new, ap (λ p. d.inspect (preview_of p) w₃) (sym same) ∙ now, refl, refl)
      ]
