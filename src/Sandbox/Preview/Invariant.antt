-- ===== src/Sandbox/Preview/Invariant.antt =====
-- What holds of the builds of src/sandbox/preview/preview.service.ts over every interleaving.
use bolder_vibes_backend.Common.{
  ℕ, ◌≤◌, String, ◌≡◌, refl, sym, ap, ◌∙◌, true, false, ◌&&◌, ◌||◌, Option, none, some, List, [],
  ◌∷◌, arith, ◌==◌, has, any, filter, length, Distinct, Bool-cases, Option-cases, inl, inr, ◌⊎◌,
  ==_iff, ==_refl, has-add, has-remove, ltb, ◌-◌, get_or_default,
}
use bolder_vibes_backend.Sandbox.Preview.Service.{
  PreviewRedis, PreviewService, begin_start, enter_build, stop_preview, mark_ready, mark_error,
  catch_failure, end_build, reap, reap_one, reap_idle_previews, touch_preview, is_nonce, put_nonce,
  drop_ghost, preview_stopped, is_ready, get_preview_status,
}
use bolder_vibes_backend.Sandbox.Preview.Worlds.{
  World, Move, Build, Phase, BuildOutcome, find_build, replace_build, build_step, phase_step,
  fail_build, watch_step, move, play, fresh, is_over, preparing, start, resume, stop, build, watch,
  lose_container, touch, sweep, container_up, server_up, failed, goes_on, waiting, reporting,
  ending, over,
}
use bolder_vibes_backend.Sandbox.Preview.Builds.{
  nonces, is_current, without, found-nonce, any-find, any-replace, nonces-replace, has-without,
  none_current, other_current, one_current, put_current,
}

module _ {Kv : Type 0} (random : ℕ → ℕ) where
  -- The set holds the projects that have a current build; the nonces of the builds differ, and those
  -- still to be drawn are new.
  pub record Inv (s : PreviewService Kv) (bs : List Build) : Type 0 where
    pub tracked : (p : ℕ) → has p s.building_projects ≡ any (is_current s.build_nonces p) bs
    pub distinct : Distinct (nonces bs)
    pub unused : (i : ℕ) → s.draws ≤ i → has (random i) (nonces bs) ≡ false

-- Two states of the service with the same set, nonces and draws.
abbrev Same : {Kv : Type 0} → PreviewService Kv → PreviewService Kv → Type 0
Same s s' =
    (s'.building_projects ≡ s.building_projects)
    × (s'.build_nonces ≡ s.build_nonces)
    × (s'.draws ≡ s.draws)

-- A round of the reaper stops a preview and tells so, or does nothing.
reap_one_cases :
    {Kv : Type 0} (r : PreviewRedis Kv) (timeout now p : ℕ) (s : PreviewService Kv)
    → (reap_one r timeout now p s ≡ s)
      ⊎ (let s' = stop_preview r p none s in
          reap_one r timeout now p s ≡ record s' { events = preview_stopped p ∷ s'.events })
unfolding reap_one
reap_one_cases r timeout now p s =
    elim (Bool-cases (
      is_ready (get_preview_status r p s.kv).status
      && ltb timeout (now - get_or_default (r.get_access p s.kv) 0))) [
        | inl idle ↦ inr (rw idle refl)
        | inr busy ↦ inl (rw busy refl)
      ]

module _ {Kv : Type 0} (r : PreviewRedis Kv) (random : ℕ → ℕ) where
  Same-Inv :
      (s s' : PreviewService Kv) (bs : List Build) → Same s s' → Inv random s bs → Inv random s' bs
  Same-Inv s s' bs (b, n, d) h = record {
    tracked = λ p. rw (b, n) (h.tracked p);
    distinct = h.distinct;
    unused = λ i le. h.unused i (omega arith);
  }

  begin_start-Same :
      (max_global p : ℕ) (user : Option ℕ) (s : PreviewService Kv)
      → Same s (begin_start r max_global p user s).1
  unfolding begin_start drop_ghost
  begin_start-Same max_global p user s = ground arith

  enter_build-Inv :
      ((i j : ℕ) → random i ≡ random j → i ≡ j)
      → (p : ℕ) (s : PreviewService Kv) (bs : List Build) → Inv random s bs
      → Inv random
          (enter_build r random p s)
          (record { project_id = p; nonce = random s.draws; phase = preparing } ∷ bs)
  unfolding enter_build
  enter_build-Inv injective p s bs h = record {
    tracked = λ q. elim (Bool-cases (p == q)) [
      | inl e ↦ ground (arith, has-add q p s.building_projects, ==_refl (random s.draws))
      | inr ne ↦ ground (
        arith,
        has-add q p s.building_projects,
        h.tracked q,
        put_current s.build_nonces (some (random s.draws)) p q bs ne,
      )
    ];
    distinct = (h.unused s.draws (omega arith), h.distinct);
    unused =
        λ i le. ground (arith, h.unused i, injective s.draws i, ==_iff (random s.draws) (random i));
  }

  stop_preview-Inv :
      (p : ℕ) (user : Option ℕ) (s : PreviewService Kv) (bs : List Build)
      → Inv random s bs
      → Inv random (stop_preview r p user s) bs
  unfolding stop_preview
  stop_preview-Inv p user s bs h = record {
    tracked = λ q. elim (Bool-cases (p == q)) [
      | inl e ↦
          rw
            (
              has-remove q p s.building_projects,
              e,
              none_current (put_nonce p none s.build_nonces) q bs (rw e refl),
            )
            refl
      | inr ne ↦
          rw (has-remove q p s.building_projects, ne)
            (h.tracked q ∙ sym (put_current s.build_nonces none p q bs ne))
    ];
    distinct = h.distinct;
    unused = h.unused;
  }

  -- The set and the builds after a build is replaced by one that counts as it did.
  replace-Inv :
      (n : ℕ) (b b' : Build) (s : PreviewService Kv) (bs : List Build)
      → find_build n bs ≡ some b
      → b'.nonce ≡ b.nonce
      → b'.project_id ≡ b.project_id
      → is_over b'.phase ≡ is_over b.phase
      → Inv random s bs
      → Inv random s (replace_build n b' bs)
  replace-Inv n b b' s bs f en ep eo h =
      let en' = en ∙ found-nonce n b bs f in
      let kept = nonces-replace n b' bs en' in
      record {
        tracked = λ p.
            let f' = is_current s.build_nonces p in
            h.tracked p
            ∙ any-find f' n b bs f
            ∙ ap (λ c. c || any f' (without n bs)) (rw (en, ep, eo) refl)
            ∙ sym (any-replace f' n b b' bs f);
        distinct = rw kept h.distinct;
        unused = λ i le. rw kept (h.unused i le);
      }

  -- The `finally` of a build that was running.
  end_build-Inv :
      (n : ℕ) (b b' : Build) (s : PreviewService Kv) (bs : List Build)
      → find_build n bs ≡ some b
      → b'.nonce ≡ b.nonce
      → is_over b.phase ≡ false
      → is_over b'.phase ≡ true
      → Inv random s bs
      → Inv random (end_build r b.project_id b.nonce s) (replace_build n b' bs)
  unfolding end_build
  end_build-Inv n b b' s bs f en running ended h =
      let found = found-nonce n b bs f in
      let kept = nonces-replace n b' bs (en ∙ found) in
      record {
        tracked = λ p.
            let f' = is_current s.build_nonces p in
            ground (
              arith,
              h.tracked p,
              any-find f' n b bs f,
              any-replace f' n b b' bs f,
              has-remove p b.project_id s.building_projects,
              ==_iff b.project_id p,
              other_current s.build_nonces p n (without n bs),
              has-without n b bs f h.distinct,
            );
        distinct = rw kept h.distinct;
        unused = λ i le. rw kept (ground (arith, h.unused i));
      }

  fail_build-Inv :
      (message : String) (n : ℕ) (b : Build) (s : PreviewService Kv) (bs : List Build)
      → find_build n bs ≡ some b
      → is_over b.phase ≡ false
      → Inv random s bs
      → let (b', s') = fail_build r message b s in Inv random s' (replace_build n b' bs)
  unfolding fail_build catch_failure
  fail_build-Inv message n b s bs f running h =
      elim (Bool-cases (is_nonce (s.build_nonces b.project_id) b.nonce)) [
        | inl current ↦
            rw (current, fail_build, catch_failure)
              (Same-Inv s _ _ (refl, refl, refl)
                (replace-Inv n b _ s bs f refl refl (sym running) h))
        | inr stale ↦
            rw (stale, fail_build, catch_failure)
              (replace-Inv n b _ s bs f refl refl (sym running) h)
      ]

  phase_step-Inv :
      (ph : Phase) (o : BuildOutcome) (n : ℕ) (b : Build) (s : PreviewService Kv) (bs : List Build)
      → find_build n bs ≡ some b
      → b.phase ≡ ph
      → Inv random s bs
      → let (b', s') = phase_step r ph o b s in Inv random s' (replace_build n b' bs)
  unfolding phase_step mark_ready touch_preview mark_error
  phase_step-Inv preparing container_up n b s bs f e h =
      Same-Inv s _ _ (refl, refl, refl) (replace-Inv n b _ s bs f refl refl (rw e refl) h)
  phase_step-Inv preparing (failed message) n b s bs f e h =
      fail_build-Inv message n b s bs f (rw e refl) h
  phase_step-Inv preparing (server_up now url) n b s bs f e h =
      replace-Inv n b b s bs f refl refl refl h
  phase_step-Inv preparing goes_on n b s bs f e h = replace-Inv n b b s bs f refl refl refl h
  phase_step-Inv waiting (server_up now url) n b s bs f e h =
      Same-Inv s _ _ (refl, refl, refl) (replace-Inv n b _ s bs f refl refl (rw e refl) h)
  phase_step-Inv waiting (failed message) n b s bs f e h =
      fail_build-Inv message n b s bs f (rw e refl) h
  phase_step-Inv waiting container_up n b s bs f e h = replace-Inv n b b s bs f refl refl refl h
  phase_step-Inv waiting goes_on n b s bs f e h = replace-Inv n b b s bs f refl refl refl h
  phase_step-Inv (reporting message) o n b s bs f e h =
      Same-Inv s _ _ (refl, refl, refl) (replace-Inv n b _ s bs f refl refl (rw e refl) h)
  phase_step-Inv ending o n b s bs f e h = end_build-Inv n b _ s bs f refl (rw e refl) refl h
  phase_step-Inv over o n b s bs f e h = replace-Inv n b b s bs f refl refl refl h

  reap-Inv :
      (timeout now : ℕ) (ps : List ℕ) (s : PreviewService Kv) (bs : List Build)
      → Inv random s bs
      → Inv random (reap r timeout now ps s) bs
  unfolding reap
  reap-Inv timeout now [] s bs h = h
  reap-Inv timeout now (p ∷ ps) s bs h = reap-Inv timeout now ps _ bs reaped
    where
      reaped : Inv random (reap_one r timeout now p s) bs
      reaped = elim (reap_one_cases r timeout now p s) [
        | inl e ↦ rw e h
        | inr e ↦ rw e (Same-Inv _ _ bs (refl, refl, refl) (stop_preview-Inv p none s bs h))
      ]

  watch_step-Same :
      (p : ℕ) (e : Option String) (ws : List ℕ) (s : PreviewService Kv)
      → Same s (watch_step r p e ws s).1
  unfolding watch_step mark_error
  watch_step-Same p none ws s = ground arith
  watch_step-Same p (some e) ws s = (refl, refl, refl)

  abbrev World-Inv : World Kv → Type 0
  World-Inv w = Inv random w.service w.builds

  module _ (max_global timeout : ℕ) (injective : (i j : ℕ) → random i ≡ random j → i ≡ j) where
    move-Inv :
        (w : World Kv) (m : Move) → World-Inv w → World-Inv (move r random max_global timeout w m)
    unfolding move build_step
    move-Inv w (start p user) h =
        Same-Inv w.service _ w.builds (begin_start-Same max_global p user w.service) h
    move-Inv w (resume p) h = elim (Bool-cases (has p w.pending)) [
      | inl there ↦ rw there (enter_build-Inv injective p w.service w.builds h)
      | inr gone ↦ rw gone h
    ]
    move-Inv w (stop p user) h = stop_preview-Inv p user w.service w.builds h
    move-Inv w (build n o) h = elim (Option-cases (find_build n w.builds)) [
      | inl gone ↦ rw gone h
      | inr (b, found) ↦ rw found (phase_step-Inv b.phase o n b w.service w.builds found refl h)
    ]
    move-Inv w (watch p e) h = elim (Bool-cases (has p w.watchers)) [
      | inl there ↦
          rw there (Same-Inv w.service _ w.builds (watch_step-Same p e w.watchers w.service) h)
      | inr gone ↦ rw gone h
    ]
    move-Inv w (lose_container p) h = Same-Inv w.service _ w.builds (refl, refl, refl) h
    move-Inv w (touch now p) h =
        unfold touch_preview in Same-Inv w.service _ w.builds (refl, refl, refl) h
    move-Inv w (sweep now) h =
        unfold reap_idle_previews in reap-Inv timeout now _ w.service w.builds h

    play_from-Inv :
        (w : World Kv) (ms : List Move)
        → World-Inv w
        → World-Inv (play r random max_global timeout w ms)
    unfolding play
    play_from-Inv w [] h = h
    play_from-Inv w (m ∷ ms) h =
        play_from-Inv (move r random max_global timeout w m) ms (move-Inv w m h)

    -- Whatever calls, builds, watchers, container exits and reaper rounds interleave after the service
    -- has started, and if no two draws of random bytes agree: the in-memory set holds a project
    -- exactly if one of its builds has not ended and holds the nonce of the project, and each
    -- project has at most one such build.
    pub play-tracked :
        (kv : Kv) (ms : List Move) (p : ℕ)
        → let w = play r random max_global timeout (fresh kv) ms in
          let current = is_current w.service.build_nonces p in
          (has p w.service.building_projects ≡ any current w.builds)
          × (length (filter current w.builds) ≤ 1)
    play-tracked kv ms p =
        let w = play r random max_global timeout (fresh kv) ms in
        let h =
          play_from-Inv (fresh kv) ms
            (record { tracked = λ q. refl; distinct = tt; unused = λ i le. refl }) in
        (h.tracked p, one_current w.service.build_nonces p w.builds h.distinct)
