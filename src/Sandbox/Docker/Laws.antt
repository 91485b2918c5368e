-- ===== src/Sandbox/Docker/Laws.antt =====
-- What Docker's commands do to the containers, as src/sandbox/runners/docker-runner.service.ts relies on
-- it, and what its helpers keep.
use bolder_vibes_backend.Common.{
  subst, ap, arith, ℕ, String, ◌≡◌, refl, ◌∙◌, Bool, true, false, Option, none, some, ◌==◌,
  Option-cases, Result-cases, inl, inr, ok, err, Action, ◌>>=◌, Result, ap,
}
use bolder_vibes_backend.Sandbox.Docker.{
  Name, same_name, RunArgs, Container, Docker, created, host_port,
}
use bolder_vibes_backend.Sandbox.Docker.Runner.{connect, force_remove_container, must, swallow}

abbrev is_at : Option Name → Name → Bool
is_at none n = false
is_at (some m) n = same_name m n

module _ {W : Type 0} (d : Docker W) (issued : ℕ → W → Bool) where
  -- Every container, except one of this name, is as it was, and no id is forgotten.
  abbrev pub Keeps : Option Name → W → W → Type 0
  Keeps o w w' =
      ((n : Name) → is_at o n ≡ false → d.inspect n w' ≡ d.inspect n w)
      × ((id : ℕ) → issued id w ≡ true → issued id w' ≡ true)

-- Names are unique, an id is given once, and `docker run` starts what it was asked for. The images set
-- no labels. `issued` holds the ids that were ever given.
pub record DockerLaws {W : Type 0} (d : Docker W) : Type 0 where
  pub issued : ℕ → W → Bool
  pub stop-keeps : (n : Name) (w w' : W) → d.stop n w ≡ some w' → Keeps d issued (some n) w w'
  pub rm-keeps : (n : Name) (w w' : W) → d.rm n w ≡ some w' → Keeps d issued (some n) w w'
  pub rm-gone : (n : Name) (w w' : W) → d.rm n w ≡ some w' → d.inspect n w' ≡ none
  pub pull-keeps : (i : String) (w w' : W) → d.pull i w ≡ some w' → Keeps d issued none w w'
  pub create_network-keeps :
      (net : String) (w w' : W) → d.network_create net w ≡ created w' → Keeps d issued none w w'
  pub connect_network-keeps :
      (net : String) (n : Name) (w w' : W)
      → d.connect_network net n w ≡ some w'
      → Keeps d issued none w w'
  pub rm_network-keeps :
      (net : String) (w w' : W) → d.rm_network net w ≡ some w' → Keeps d issued none w w'
  pub find_available_port-positive :
      (p : ℕ) (w w' : W) → d.find_available_port w ≡ some (p, w') → p == 0 ≡ false
  pub run-keeps :
      (args : RunArgs) (id : ℕ) (w w' : W)
      → d.run args w ≡ some (id, w')
      → Keeps d issued (some args.name) w w'
  pub run-container :
      (args : RunArgs) (id : ℕ) (w w' : W)
      → d.run args w ≡ some (id, w')
      → d.inspect args.name w'
        ≡ some (record {
          id = id;
          running = true;
          port = host_port args;
          labels = args.labels;
          args = args;
        })
  pub run-fresh :
      (args : RunArgs) (id : ℕ) (w w' : W) → d.run args w ≡ some (id, w') → issued id w ≡ false
  pub inspect-issued :
      (n : Name) (c : Container) (w : W) → d.inspect n w ≡ some c → issued c.id w ≡ true

abbrev ok_or : {E A : Type 0} → A → Result E A → A
ok_or a (ok b) = b
ok_or a (err e) = a

-- Two results that agree have the same value and state.
pub ok-injective :
    {S E A : Type 0} (a b : A) (s s' : S)
    → Path (Result E A × S) (ok a, s) (ok b, s')
    → (a ≡ b) × (s ≡ s')
ok-injective a b s s' e = (ap (λ z. ok_or a (z.0)) e, ap (λ z. z.1) e)

module _ {S E A B : Type 0} (m : Action S E A) (f : A → Action S E B) where
  -- A chain that succeeds has a first step that does.
  pub bind-ok :
      (s s'' : S) (b : B)
      → (m >>= f) s ≡ (ok b, s'')
      → (a : A) × (s' : S) × (m s ≡ (ok a, s')) × (f a s' ≡ (ok b, s''))
  bind-ok s s'' b e = elim (Result-cases ((m s).0)) [
    | inl (x, failed) ↦ ground arith
    | inr (a, came) ↦ (a, (m s).1, ap (λ r. (r, (m s).1)) came, rw (came, ◌>>=◌) at e)
  ]

module _ {W : Type 0} (d : Docker W) (laws : DockerLaws d) where
  abbrev pub Kept : Option Name → W → W → Type 0
  Kept = Keeps d laws.issued

  pub Kept-refl : (o : Option Name) (w : W) → Kept o w w
  Kept-refl o w = (λ n _. refl, λ id h. h)

  pub Kept-trans : (o : Option Name) (w w' w'' : W) → Kept o w w' → Kept o w' w'' → Kept o w w''
  Kept-trans o w w' w'' (c, i) (c', i') = (λ n h. c' n h ∙ c n h, λ id h. i' id (i id h))

  -- What keeps every container keeps those of other names.
  pub Kept-weaken : (o : Option Name) (w w' : W) → Kept none w w' → Kept o w w'
  Kept-weaken o w w' (c, i) = (λ n _. c n refl, i)

  pub swallow-Kept :
      (o : Option Name) (f : W → Option W) (w : W)
      → ((w' : W) → f w ≡ some w' → Kept o w w')
      → Kept o w (swallow d f w)
  swallow-Kept o f w keeps = elim (Option-cases (f w)) [
    | inl failed ↦ rw failed (Kept-refl o w)
    | inr (w', done) ↦ rw done (keeps w' done)
  ]

  pub must-Kept :
      (o : Option Name) (f : W → Option W) (w w' : W) (u : Unit {0})
      → ((w' : W) → f w ≡ some w' → Kept o w w')
      → must d f w ≡ (ok u, w')
      → Kept o w w'
  must-Kept o f w w' u keeps e = elim (Option-cases (f w)) [
    | inl failed ↦ ground arith
    | inr (w₁, done) ↦
        let (_, same) = ok-injective tt u w₁ w' (rw (done, must) at e) in
        subst (λ z. Kept o w z) same (keeps w₁ done)
  ]

  pub force_remove_container-Kept :
      (n : Name) (w : W) → Kept (some n) w (force_remove_container d n w)
  unfolding force_remove_container
  force_remove_container-Kept n w =
      Kept-trans (some n) w _ _ (swallow-Kept (some n) (d.stop n) w (laws.stop-keeps n w))
        (swallow-Kept (some n) (d.rm n) _ (laws.rm-keeps n _))

  pub connect-Kept :
      (net : Option String) (n : Name) (w w' : W) (u : Unit {0})
      → connect d net n w ≡ (ok u, w')
      → Kept none w w'
  connect-Kept none n w w' u e =
      let (_, same) = ok-injective tt u w w' e in subst (Kept none w) same (Kept-refl none w)
  connect-Kept (some net) n w w' u e =
      must-Kept none (d.connect_network net n) w w' u (laws.connect_network-keeps net n w) e
