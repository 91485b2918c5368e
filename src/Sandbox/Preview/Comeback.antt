-- ===== src/Sandbox/Preview/Comeback.antt =====
-- A stop during a build of src/sandbox/preview/preview.service.ts.
use bolder_vibes_backend.Common.{
  ℕ, String, ◌≡◌, refl, true, false, Option, some, List, [], ◌∷◌, arith, has, add, remove, ok,
  has-add, ==_refl, ap, ◌∙◌,
}
use bolder_vibes_backend.Sandbox.Preview.Service.{
  PreviewRedis, PreviewRedisLaws, PreviewService, global_active, ready, state_of, to_build,
  begin_start, enter_build, stop_preview, mark_ready, touch_preview, reap_idle_previews, srem_user,
}
use bolder_vibes_backend.Sandbox.Preview.Worlds.{
  World, Move, start, resume, stop, build, container_up, server_up, preparing, waiting, move, play,
  build_step, phase_step, Build, BuildOutcome, watched,
}
use bolder_vibes_backend.Sandbox.Preview.Reaper.{reap_idle_previews_lem}

-- A preview is started, stopped while its build prepares, and the build goes on.
abbrev pub stopped_early : (p : ℕ) (user stopper : Option ℕ) (nonce now : ℕ) → String → List Move
stopped_early p user stopper nonce now url =
    start p user
    ∷ resume p
    ∷ stop p stopper
    ∷ build nonce container_up
    ∷ build nonce (server_up now url)
    ∷ []

module _ {Kv : Type 0} (r : PreviewRedis Kv) (random : ℕ → ℕ) where
  abbrev come_back : (p : ℕ) → Option ℕ → (now : ℕ) → String → PreviewService Kv → PreviewService Kv
  come_back p stopper now url s =
      let stopped = stop_preview r p stopper (enter_build r random p s) in
      mark_ready r now p url (record stopped { containers = add p stopped.containers })

module _ {Kv : Type 0} (r : PreviewRedis Kv) (random : ℕ → ℕ) (max_global timeout : ℕ) where
  abbrev after_start : World Kv → ℕ → PreviewService Kv → World Kv
  after_start w p s = record w { service = s; pending = p ∷ w.pending }

  move-start :
      (w : World Kv) (p : ℕ) (user : Option ℕ)
      → (begin_start r max_global p user w.service).0 ≡ ok to_build
      → move r random max_global timeout w (start p user)
        ≡ after_start w p (begin_start r max_global p user w.service).1
  unfolding move
  move-start w p user h = rw h refl

  -- The build that was begun last is in front.
  abbrev in_front : Build → World Kv → World Kv
  in_front b w = record w { builds = b ∷ w.builds }

  move-resume :
      (w : World Kv) (p : ℕ) (s : PreviewService Kv)
      → move r random max_global timeout (after_start w p s) (resume p)
        ≡ in_front
            (record { project_id = p; nonce = random s.draws; phase = preparing })
            (record w { service = enter_build r random p s; pending = remove p (p ∷ w.pending) })
  unfolding move
  move-resume w p s = rw (==_refl p) refl

  move-stop :
      (w : World Kv) (b : Build) (p : ℕ) (user : Option ℕ)
      → move r random max_global timeout (in_front b w) (stop p user)
        ≡ in_front b (record w { service = stop_preview r p user w.service })
  unfolding move
  move-stop w b p user = refl

  move-build :
      (w : World Kv) (b : Build) (o : BuildOutcome)
      → move r random max_global timeout (in_front b w) (build b.nonce o) ≡ (
          let (b', s') = build_step r o b w.service in
          in_front b'
            (record w { service = s'; watchers = watched r b.phase o b.project_id w.watchers }))
  unfolding move
  move-build w b o = rw (==_refl b.nonce) (rw (==_refl b.nonce) refl)

  -- What the five moves leave of the service.
  stopped_early-service :
      (w : World Kv) (p : ℕ) (user stopper : Option ℕ) (now : ℕ) (url : String)
      → let s = (begin_start r max_global p user w.service).1 in
        (begin_start r max_global p user w.service).0 ≡ ok to_build
        → (play r random max_global timeout w
            (stopped_early p user stopper (random s.draws) now url)).service
          ≡ come_back r random p stopper now url s
  unfolding play build_step phase_step
  stopped_early-service w p user stopper now url h =
      let s = (begin_start r max_global p user w.service).1 in
      let go : World Kv → Move → World Kv = move r random max_global timeout in
      let n = random s.draws in
      let up = build n container_up in
      let served = build n (server_up now url) in
      let halt = stop p stopper in
      let b : Build = record { project_id = p; nonce = n; phase = preparing } in
      let waits : Build = record b { phase = waiting } in
      let entered = enter_build r random p s in
      let stopped = stop_preview r p stopper entered in
      let w' : World Kv = record w { service = entered; pending = remove p (p ∷ w.pending) } in
      let halted : World Kv = record w' { service = stopped } in
      let risen : World Kv = record w' {
        service = record stopped { containers = add p stopped.containers };
      } in
      ap (λ x. (go (go (go (go x (resume p)) halt) up) served).service) (move-start w p user h)
      ∙ ap (λ x. (go (go (go x halt) up) served).service) (move-resume w p s)
      ∙ ap (λ x. (go (go x up) served).service) (move-stop w' b p stopper)
      ∙ ap (λ x. (go x served).service) (move-build halted b container_up)
      ∙ ap (λ x. x.service) (move-build risen waits (server_up now url))

module _ {Kv : Type 0} (r : PreviewRedis Kv) (laws : PreviewRedisLaws r) where
  come_back_lem :
      (random : ℕ → ℕ) (p : ℕ) (stopper : Option ℕ) (now : ℕ) (url : String) (s : PreviewService Kv)
      → let s' = come_back r random p stopper now url s in
        (r.get_state p s'.kv ≡ some (record (state_of p ready) { url = some url }))
        × (has p s'.containers ≡ true)
        × (has p (r.smembers global_active s'.kv) ≡ false)
  unfolding mark_ready touch_preview stop_preview
  come_back_lem random p stopper now url s =
      let s0 = enter_build r random p s in
      let kv = r.srem global_active p (srem_user r stopper p s0.kv) in
      let kv' = r.del_state p kv in
      let shown = record (state_of p ready) { url = some url } in
      let kv'' = r.set_state p shown kv' in
      (
        rw (laws.state-access p now p kv'', laws.state-set p p shown kv', ==_refl p) refl,
        rw (has-add p p (remove p s0.containers), ==_refl p) refl,
        rw
            (
              laws.members-access global_active p now kv'',
              laws.members-set global_active p shown kv',
              laws.members-del global_active p kv,
              laws.members-srem global_active global_active p p (srem_user r stopper p s0.kv),
              ==_refl p,
            )
            refl,
      )

  -- If a preview may start, and is stopped before its container is there, the build still starts the
  -- container and shows the preview as ready, but the preview is not registered: it counts for no
  -- limit of the server, and no later round of the reaper stops it, however long it is not accessed.
  pub stopped_build_comes_back :
      (random : ℕ → ℕ) (max_global timeout : ℕ) (w : World Kv) (p : ℕ) (user stopper : Option ℕ)
      (now later : ℕ) (url : String)
      → (begin_start r max_global p user w.service).0 ≡ ok to_build
      → let nonce = random (begin_start r max_global p user w.service).1.draws in
        let w' = play r random max_global timeout w (stopped_early p user stopper nonce now url) in
        let shown = record (state_of p ready) { url = some url } in
        let s = reap_idle_previews r timeout later w'.service in
        (r.get_state p w'.service.kv ≡ some shown)
        × (has p w'.service.containers ≡ true)
        × (has p (r.smembers global_active w'.service.kv) ≡ false)
        × (r.get_state p s.kv ≡ some shown)
        × (has p s.containers ≡ true)
  stopped_build_comes_back random max_global timeout w p user stopper now later url h =
      let s = (begin_start r max_global p user w.service).1 in
      let (shown, up, unknown) = come_back_lem random p stopper now url s in
      let kept =
        reap_idle_previews_lem r laws timeout later p (come_back r random p stopper now url s) in
      rw (stopped_early-service r random max_global timeout w p user stopper now url h)
        (shown, up, unknown, ground arith, ground arith)
