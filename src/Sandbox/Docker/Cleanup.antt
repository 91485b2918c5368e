-- ===== src/Sandbox/Docker/Cleanup.antt =====
-- `cleanup` of src/sandbox/runners/docker-runner.service.ts.
use bolder_vibes_backend.Common.{
  String, ◌≡◌, refl, ◌∙◌, false, ◌||◌, none, Option-cases, inl, inr, or-eq-false,
}
use bolder_vibes_backend.Sandbox.Docker.{
  Name, same_name, sandbox_of, preview_of, database_of, Docker,
}
use bolder_vibes_backend.Sandbox.Docker.Runner.{force_remove_container, cleanup, swallow}
use bolder_vibes_backend.Sandbox.Docker.Laws.{
  DockerLaws, Kept, swallow-Kept, force_remove_container-Kept,
}

module _ {W : Type 0} (d : Docker W) (laws : DockerLaws d) where
  -- Docker removes what is there.
  abbrev Answers : Type 0
  Answers = (n : Name) (w : W) → d.rm n w ≡ none → d.inspect n w ≡ none

  force_remove_container-gone :
      (n : Name) (w : W) → Answers → d.inspect n (force_remove_container d n w) ≡ none
  unfolding force_remove_container
  force_remove_container-gone n w answers =
      let stopped = swallow d (d.stop n) w in
      elim (Option-cases (d.rm n stopped)) [
        | inl failed ↦ rw failed (answers n stopped failed)
        | inr (w', done) ↦ rw done (laws.rm-gone n stopped w' done)
      ]

  network-Kept : (net : String) (w : W) → Kept d laws none w (swallow d (d.rm_network net) w)
  network-Kept net w = swallow-Kept d laws none (d.rm_network net) w (laws.rm_network-keeps net w)

  -- If Docker removes what is there, a cleanup leaves none of the project's three containers, and every
  -- container that is none of these is as it was.
  cleanup_lem :
      (p : String) (w : W)
      → Answers
      → (d.inspect (sandbox_of p) (cleanup d p w) ≡ none)
        × (d.inspect (preview_of p) (cleanup d p w) ≡ none)
        × (d.inspect (database_of p) (cleanup d p w) ≡ none)
        × ((n : Name)
            → (same_name (sandbox_of p) n
                || (same_name (preview_of p) n || same_name (database_of p) n))
              ≡ false
            → d.inspect n (cleanup d p w) ≡ d.inspect n w)
  unfolding cleanup
  cleanup_lem p w answers =
      let w₁ = force_remove_container d (sandbox_of p) w in
      let w₂ = force_remove_container d (preview_of p) w₁ in
      let w₃ = force_remove_container d (database_of p) w₂ in
      let (k₁, _) = force_remove_container-Kept d laws (sandbox_of p) w in
      let (k₂, _) = force_remove_container-Kept d laws (preview_of p) w₁ in
      let (k₃, _) = force_remove_container-Kept d laws (database_of p) w₂ in
      let (k₄, _) = network-Kept _ w₃ in
      (
        k₄ (sandbox_of p) refl
            ∙ k₃ (sandbox_of p) refl
            ∙ k₂ (sandbox_of p) refl
            ∙ force_remove_container-gone (sandbox_of p) w answers,
        k₄ (preview_of p) refl
            ∙ k₃ (preview_of p) refl
            ∙ force_remove_container-gone (preview_of p) w₁ answers,
        k₄ (database_of p) refl ∙ force_remove_container-gone (database_of p) w₂ answers,
        λ n other.
            let (s, rest) = or-eq-false (same_name (sandbox_of p) n) _ other in
            let (v, b) = or-eq-false (same_name (preview_of p) n) _ rest in
            k₄ n refl ∙ k₃ n b ∙ k₂ n v ∙ k₁ n s,
      )
