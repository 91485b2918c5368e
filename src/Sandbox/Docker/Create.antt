-- ===== src/Sandbox/Docker/Create.antt =====
-- The containers that `startLongRunning` of src/sandbox/runners/docker-runner.service.ts builds, and those
-- that it returns as they are.
use mathlib.Core.Option.{some-injective}
use bolder_vibes_backend.Common.{
  ℕ, String, ◌≡◌, refl, sym, ◌∙◌, true, false, Option, none, some, ◌==◌, Option-cases, Bool-cases,
  inl, inr, ok, pure, ◌>>=◌, arith, subst, ap, get_or_default,
}
use bolder_vibes_backend.Sandbox.Docker.{
  preview_of, SandboxConfig, RunArgs, Container, Docker, Started, is_reusable, label_flags,
  run_args,
}
use bolder_vibes_backend.Sandbox.Docker.Runner.{
  launch, ensure_image_and_volumes, create_container, start_long_running, take_port, run_container,
  reused_of, connect,
}
use bolder_vibes_backend.Sandbox.Docker.Laws.{DockerLaws, bind-ok, ok-injective, connect-Kept}

-- The container of a start that did not reuse one.
abbrev pub built : (p dir cmd : String) → SandboxConfig → Option ℕ → Started → Container
built p dir cmd cfg container_port s =
    let args = run_args p dir cmd cfg container_port s.port in
    record {
      id = s.container_id;
      running = true;
      port = some s.port;
      labels = label_flags p cfg;
      args = args;
    }

module _ {W : Type 0} (d : Docker W) (laws : DockerLaws d) where
  -- What is built is there, published on a port.
  unfoldable pub Built : (p dir cmd : String) → SandboxConfig → Option ℕ → Started → W → Type 0
  Built p dir cmd cfg container_port s w =
      (s.reused ≡ false)
      × (s.port == 0 ≡ false)
      × (d.inspect (preview_of p) w ≡ some (built p dir cmd cfg container_port s))

  take_port-positive : (w w' : W) (port : ℕ) → take_port d w ≡ (ok port, w') → port == 0 ≡ false
  take_port-positive w w' port e = elim (Option-cases (d.find_available_port w)) [
    | inl failed ↦ ground arith
    | inr ((q, w₁), found) ↦
        let (same, _) = ok-injective q port w₁ w' (rw (found, take_port) at e) in
        subst (λ z. z == 0 ≡ false) same (laws.find_available_port-positive q w w₁ found)
  ]

  pub run_container-there :
      (args : RunArgs) (id : ℕ) (w w' : W)
      → run_container d args w ≡ (ok id, w')
      → d.run args w ≡ some (id, w')
  run_container-there args id w w' e = elim (Option-cases (d.run args w)) [
    | inl failed ↦ ground arith
    | inr ((i, w₁), ran) ↦
        let (same, after) = ok-injective i id w₁ w' (rw (ran, run_container) at e) in
        ran ∙ ap (λ z. some (z, w₁)) same ∙ ap (λ z. some (id, z)) after
  ]

  launch-Built :
      (p dir cmd : String) (cfg : SandboxConfig) (cp : Option ℕ) (port : ℕ) (s : Started) (w w' : W)
      → port == 0 ≡ false
      → launch d p dir cmd cfg cp port w ≡ (ok s, w')
      → Built p dir cmd cfg cp s w'
  unfolding launch Built
  launch-Built p dir cmd cfg cp port s w w' positive e =
      let args = run_args p dir cmd cfg cp port in
      let started : ℕ → Started = λ id. record { container_id = id; port = port; reused = false } in
      let (id, w₁, ran, e₁) =
        bind-ok (run_container d args)
          (λ id. connect d cfg.docker_network (preview_of p) >>= λ _. pure (started id)) w w' s e in
      let (u, w₂, connected, e₂) =
        bind-ok (connect d cfg.docker_network (preview_of p)) (λ _. pure (started id)) w₁ w' s e₁ in
      let (same, after) = ok-injective (started id) s w₂ w' e₂ in
      let (kept, _) = connect-Kept d laws _ _ w₁ w₂ u connected in
      let there =
        kept (preview_of p) refl
        ∙ laws.run-container args id w w₁ (run_container-there args id w w₁ ran) in
      subst
        (λ t.
          (t.reused ≡ false)
          × (t.port == 0 ≡ false)
          × (d.inspect (preview_of p) w' ≡ some (built p dir cmd cfg cp t)))
        same (refl, positive, ap (d.inspect (preview_of p)) (sym after) ∙ there)

  create_container-Built :
      (p dir cmd : String) (cfg : SandboxConfig) (cp : Option ℕ) (s : Started) (w w' : W)
      → create_container d p dir cmd cfg cp w ≡ (ok s, w')
      → Built p dir cmd cfg cp s w'
  unfolding create_container
  create_container-Built p dir cmd cfg cp s w w' e =
      let (port, w₁, took, e₁) =
        bind-ok (take_port d)
          (λ port. ensure_image_and_volumes d cfg >>= λ _. launch d p dir cmd cfg cp port) w w' s
          e in
      let (_, w₂, _, e₂) =
        bind-ok (ensure_image_and_volumes d cfg) (λ _. launch d p dir cmd cfg cp port) w₁ w' s e₁ in
      launch-Built p dir cmd cfg cp port s w₂ w' (take_port-positive w w₁ port took) e₂

  reused_of-reused :
      (p : String) (cfg : SandboxConfig) (o : Option Container) (s : Started)
      → reused_of d p cfg o ≡ some s
      → s.reused ≡ true
  reused_of-reused p cfg none s e = ground arith
  reused_of-reused p cfg (some c) s e = elim (Bool-cases (is_reusable p cfg c)) [
    | inl fits ↦ ap (λ t. t.reused) (sym (some-injective _ _ (rw fits at e)))
    | inr other ↦ ground (arith, other)
  ]

  -- A start that does not reuse a container builds one.
  pub start_long_running-Built :
      (p dir cmd : String) (cfg : SandboxConfig) (cp : Option ℕ) (s : Started) (w w' : W)
      → start_long_running d p dir cmd cfg cp w ≡ (ok s, w')
      → s.reused ≡ false
      → Built p dir cmd cfg cp s w'
  unfolding start_long_running
  start_long_running-Built p dir cmd cfg cp s w w' e fresh =
      elim (Option-cases (reused_of d p cfg (d.inspect (preview_of p) w))) [
        | inl none_there ↦
            create_container-Built p dir cmd cfg cp s _ w'
              (rw (none_there, start_long_running) at e)
        | inr (t, found) ↦
            let (same, _) = ok-injective t s w w' (rw (found, start_long_running) at e) in
            let was = ap (λ x. x.reused) same in
            let reused = reused_of-reused p cfg _ t found in ground (arith, was, reused, fresh)
      ]

  -- For a container that does not fit, a start builds one.
  pub start_long_running-rebuilds :
      (p dir cmd : String) (cfg : SandboxConfig) (cp : Option ℕ) (s : Started) (c : Container)
      (w w' : W)
      → d.inspect (preview_of p) w ≡ some c
      → is_reusable p cfg c ≡ false
      → start_long_running d p dir cmd cfg cp w ≡ (ok s, w')
      → Built p dir cmd cfg cp s w'
  unfolding start_long_running
  start_long_running-rebuilds p dir cmd cfg cp s c w w' there other e =
      create_container-Built p dir cmd cfg cp s _ w'
        (rw (there, other, start_long_running, reused_of) at e)

  -- A container that fits is returned, and nothing is done.
  pub start_long_running-reuses :
      (p dir cmd : String) (cfg : SandboxConfig) (cp : Option ℕ) (c : Container) (w : W)
      → d.inspect (preview_of p) w ≡ some c
      → is_reusable p cfg c ≡ true
      → start_long_running d p dir cmd cfg cp w
        ≡ (ok (record { container_id = c.id; port = get_or_default c.port 0; reused = true }), w)
  unfolding start_long_running
  start_long_running-reuses p dir cmd cfg cp c w there fits =
      rw (there, fits, start_long_running, reused_of) refl
