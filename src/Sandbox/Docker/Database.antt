-- ===== src/Sandbox/Docker/Database.antt =====
-- The database of a build, `startDatabase` of src/sandbox/runners/docker-runner.service.ts, when the
-- build goes on in the container of an earlier one.
use bolder_vibes_backend.Common.{
  ℕ, String, ◌≡◌, refl, sym, ◌∙◌, true, false, none, some, ◌==◌, Bool-cases, inl, inr, ok, err,
  pure, ◌>>◌, arith, ==_iff, subst, ap, Result,
}
use bolder_vibes_backend.Sandbox.Docker.{
  preview_of, database_of, Container, Docker, NetworkAnswer, created, already_exists,
  network_failed, Started, RunnerError, is_reusable, postgres, database_args, docker_failed,
}
use bolder_vibes_backend.Sandbox.Docker.Runner.{
  run_container, pull_missing, create_network, start_database, force_remove_container,
}
use bolder_vibes_backend.Sandbox.Docker.Build.{
  BuildInput, config_of, start_app, database_of_build, start_containers,
}
use bolder_vibes_backend.Sandbox.Docker.Laws.{
  DockerLaws, bind-ok, ok-injective, Kept, Kept-refl, Kept-trans, Kept-weaken, must-Kept,
  force_remove_container-Kept,
}
use bolder_vibes_backend.Sandbox.Docker.Create.{run_container-there, start_long_running-reuses}

module _ {W : Type 0} (d : Docker W) (laws : DockerLaws d) where
  network_answer-Kept :
      (a : NetworkAnswer W) (net : String) (w w' : W) (u : Unit {0})
      → d.network_create net w ≡ a
      → Path
          (Result RunnerError (Unit {0}) × W)
          (elim a [
            | created w₁ ↦ (ok tt, w₁)
            | already_exists ↦ (ok tt, w)
            | network_failed ↦ (err docker_failed, w)
          ])
          (ok u, w')
      → Kept d laws none w w'
  network_answer-Kept (created w₁) net w w' u answered e =
      let (_, same) = ok-injective tt u w₁ w' e in
      subst (Kept d laws none w) same (laws.create_network-keeps net w w₁ answered)
  network_answer-Kept already_exists net w w' u answered e =
      let (_, same) = ok-injective tt u w w' e in
      subst (Kept d laws none w) same (Kept-refl d laws none w)
  network_answer-Kept network_failed net w w' u answered e = ground arith

  create_network-Kept :
      (net : String) (w w' : W) (u : Unit {0})
      → create_network d net w ≡ (ok u, w')
      → Kept d laws none w w'
  unfolding create_network
  create_network-Kept net w w' u e = network_answer-Kept (d.network_create net w) net w w' u refl e

  pull_missing-Kept :
      (image : String) (w w' : W) (u : Unit {0})
      → pull_missing d image w ≡ (ok u, w')
      → Kept d laws none w w'
  pull_missing-Kept image w w' u e = elim (Bool-cases (d.has_image image w)) [
    | inl here ↦
        let (_, same) = ok-injective tt u w w' (rw (here, pull_missing) at e) in
        subst (Kept d laws none w) same (Kept-refl d laws none w)
    | inr missing ↦
        must-Kept d laws none (d.pull image) w w' u (laws.pull-keeps image w)
          (rw (missing, pull_missing) at e)
  ]

  -- A database is a new container, and the others are as they were.
  start_database-New :
      (p net password : String) (id : ℕ) (w w' : W)
      → start_database d p net password w ≡ (ok id, w')
      → Kept d laws (some (database_of p)) w w'
        × (laws.issued id w ≡ false)
        × ((db : Container) × (d.inspect (database_of p) w' ≡ some db) × (db.id ≡ id))
  unfolding start_database
  start_database-New p net password id w w' e =
      let name = database_of p in
      let args = database_args p net password in
      let w₁ = force_remove_container d name w in
      let (u, w₂, pulled, e₂) =
        bind-ok (pull_missing d postgres) (λ _. run_container d args) w₁ w' id e in
      let ran = run_container-there d laws args id w₂ w' e₂ in
      let removed = force_remove_container-Kept d laws name w in
      let pull = Kept-weaken d laws (some name) w₁ w₂ (pull_missing-Kept postgres w₁ w₂ u pulled) in
      let before = Kept-trans d laws (some name) w w₁ w₂ removed pull in
      let fresh = laws.run-fresh args id w₂ w' ran in
      (
        Kept-trans d laws (some name) w w₂ w' before (laws.run-keeps args id w₂ w' ran),
        elim (Bool-cases (laws.issued id w)) [
          | inl old ↦ let still = (before.1) id old in ground (arith, still, fresh)
          | inr new ↦ new
        ],
        (_, laws.run-container args id w₂ w' ran, refl),
      )

  -- With a database asked for, the container that stands in its place afterwards is a new one.
  database_of_build-New :
      (b : BuildInput) (w w' : W) (u : Unit {0}) (old : Container)
      → b.plan.database ≡ true
      → d.inspect (database_of b.project_id) w ≡ some old
      → database_of_build d b w ≡ (ok u, w')
      → (d.inspect (preview_of b.project_id) w' ≡ d.inspect (preview_of b.project_id) w)
        × ((db : Container) × (d.inspect (database_of b.project_id) w' ≡ some db)
            × (db.id == old.id ≡ false))
  unfolding database_of_build
  database_of_build-New b w w' u old asked there e =
      let p = b.project_id in
      let make = create_network d b.network in
      let start = start_database d p b.network b.password in
      let (v, w₂, started, e₂) = bind-ok (make >> start) (λ _. pure tt) w w' u (rw asked at e) in
      let (n, w₁, made, e₁) = bind-ok make (λ _. start) w w₂ v started in
      let (_, same) = ok-injective tt u w₂ w' e₂ in
      let (network, _) = create_network-Kept b.network w w₁ n made in
      let ((kept, _), fresh, (db, found, is)) =
        start_database-New p b.network b.password v w₁ w₂ e₁ in
      let at_first = network (database_of p) refl ∙ there in
      let issued = laws.inspect-issued (database_of p) old w₁ at_first in
      subst
        (λ z.
          (d.inspect (preview_of p) z ≡ d.inspect (preview_of p) w)
          × ((db : Container) × (d.inspect (database_of p) z ≡ some db)
              × (db.id == old.id ≡ false)))
        same
        (
          kept (preview_of p) refl ∙ network (preview_of p) refl,
          (
            db,
            found,
            elim (Bool-cases (db.id == old.id)) [
              | inl equal ↦
                  let clash = ap (λ i. laws.issued i w₁) (sym is ∙ (==_iff db.id old.id).0 equal) in
                  ground (arith, clash, issued, fresh)
              | inr other ↦ other
            ],
          ),
        )

  -- If a build with a database finds a container that it can go on in, and a database that is still
  -- there, and succeeds, then the container stays, with the work that its command has done, while the
  -- database is a new container: the setup of the schema, which is part of the command, is not run
  -- again.
  pub reused_build-new_database :
      (b : BuildInput) (app old : Container) (s : Started) (w w' : W)
      → b.plan.database ≡ true
      → d.inspect (preview_of b.project_id) w ≡ some app
      → is_reusable b.project_id (config_of b) app ≡ true
      → d.inspect (database_of b.project_id) w ≡ some old
      → start_containers d b w ≡ (ok s, w')
      → (s.reused ≡ true)
        × (d.inspect (preview_of b.project_id) w' ≡ some app)
        × ((db : Container) × (d.inspect (database_of b.project_id) w' ≡ some db)
            × (db.id == old.id ≡ false))
  unfolding start_containers start_app
  reused_build-new_database b app old s w w' asked there fits database e =
      let p = b.project_id in
      let (u, w₁, built, e₁) = bind-ok (database_of_build d b) (λ _. start_app d b) w w' s e in
      let (kept, new) = database_of_build-New b w w₁ u old asked database built in
      let reuse =
        start_long_running-reuses d laws p b.work_dir b.install_and_dev_command (config_of b)
          (some 3000) app w₁ (kept ∙ there) fits in
      let (started, same) = ok-injective _ s w₁ w' (sym reuse ∙ e₁) in
      subst
        (λ z.
          (s.reused ≡ true)
          × (d.inspect (preview_of p) z ≡ some app)
          × ((db : Container) × (d.inspect (database_of p) z ≡ some db)
              × (db.id == old.id ≡ false)))
        same (ap (λ x. x.reused) (sym started), kept ∙ there, new)
