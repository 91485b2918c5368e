-- ===== src/Sandbox/Preview/Reaper.antt =====
-- The idle reaper of src/sandbox/preview/preview.service.ts.
use bolder_vibes_backend.Common.{
  ℕ, ◌-◌, ◌≡◌, refl, Bool, true, false, ◌&&◌, ◌||◌, none, List, [], ◌∷◌, arith, ◌==◌, if◌then◌else◌,
  has, any, Bool-cases, inl, inr, ltb, get_or_default, has-remove, ==_iff, subst,
}
use bolder_vibes_backend.Sandbox.Preview.Service.{
  PreviewRedis, PreviewRedisLaws, PreviewService, PreviewEvent, preview_stopped, preview_ready,
  preview_error, preview_building, build_failed_log, global_active, is_ready, stop_preview, reap,
  reap_one, reap_idle_previews, get_preview_status, state_of, idle,
}

abbrev pub tells_stop : ℕ → PreviewEvent → Bool
tells_stop p (preview_stopped q) = q == p
tells_stop p (preview_ready q url) = false
tells_stop p (preview_error q message) = false
tells_stop p (preview_building q) = false
tells_stop p (build_failed_log q message) = false

module _ {Kv : Type 0} (r : PreviewRedis Kv) (timeout now : ℕ) where
  -- Ready, and not accessed within the timeout.
  abbrev pub is_idle : ℕ → Kv → Bool
  is_idle p kv =
      is_ready (get_or_default (r.get_state p kv) (state_of p idle)).status
      && ltb timeout (now - get_or_default (r.get_access p kv) 0)

  -- What a round says of a project that is stopped in it, or is not.
  abbrev pub Reaped : ℕ → Bool → PreviewService Kv → PreviewService Kv → Type 0
  Reaped p stopped s s' =
      (r.get_state p s'.kv ≡ (if stopped then none else r.get_state p s.kv))
      × (has p s'.containers ≡ (if stopped then false else has p s.containers))
      × (has p (r.smembers global_active s'.kv)
          ≡ (if stopped then false else has p (r.smembers global_active s.kv)))
      × (any (tells_stop p) s'.events ≡ (stopped || any (tells_stop p) s.events))

module _ {Kv : Type 0} (r : PreviewRedis Kv) (laws : PreviewRedisLaws r) (timeout now : ℕ) where
  access-reap_one :
      (q p : ℕ) (s : PreviewService Kv)
      → r.get_access p (reap_one r timeout now q s).kv ≡ r.get_access p s.kv
  unfolding reap_one stop_preview
  access-reap_one q p s = ground (
    arith,
    laws.access-del q p (r.srem global_active q s.kv),
    laws.access-srem global_active q p s.kv,
  )

  reap_one_lem :
      (q p : ℕ) (s : PreviewService Kv)
      → Reaped r timeout now p
          ((q == p) && is_idle r timeout now q s.kv)
          s
          (reap_one r timeout now q s)
  unfolding reap_one stop_preview get_preview_status
  reap_one_lem q p s = elim (Bool-cases (is_idle r timeout now q s.kv)) [
    | inr busy ↦ ground arith
    | inl late ↦ (
      ground (
        arith,
        laws.state-del q p (r.srem global_active q s.kv),
        laws.state-srem global_active q p s.kv,
      ),
      ground (arith, has-remove p q s.containers),
      ground (
        arith,
        laws.members-del global_active q (r.srem global_active q s.kv),
        laws.members-srem global_active global_active q p s.kv,
      ),
      ground arith,
    )
  ]

  Reaped-trans :
      (p : ℕ) (a b : Bool) (s s' s'' : PreviewService Kv)
      → Reaped r timeout now p a s s'
      → Reaped r timeout now p b s' s''
      → Reaped r timeout now p (a || b) s s''
  Reaped-trans p true b s s' s'' (x, y, z, w) (x', y', z', w') =
      (ground arith, ground arith, ground arith, ground arith)
  Reaped-trans p false b s s' s'' (x, y, z, w) (x', y', z', w') =
      (ground arith, ground arith, ground arith, ground arith)

  -- A round leaves no project idle that it stops, and the others as they were.
  idle-reap_one :
      (q p : ℕ) (s : PreviewService Kv)
      → is_idle r timeout now p (reap_one r timeout now q s).kv
        ≡ (if (q == p) && is_idle r timeout now q s.kv then false else is_idle r timeout now p s.kv)
  idle-reap_one q p s = elim (Bool-cases ((q == p) && is_idle r timeout now q s.kv)) [
    | inl stopped ↦ ground (arith, reap_one_lem q p s)
    | inr kept ↦ ground (arith, reap_one_lem q p s, access-reap_one q p s)
  ]

  idle_of :
      (q p : ℕ) (kv : Kv)
      → (q == p) ≡ true
      → is_idle r timeout now q kv ≡ is_idle r timeout now p kv
  idle_of q p kv e = rw ((==_iff q p).0 e) refl

  reap_lem :
      (ps : List ℕ) (p : ℕ) (s : PreviewService Kv)
      → Reaped r timeout now p
          (has p ps && is_idle r timeout now p s.kv)
          s
          (reap r timeout now ps s)
  unfolding reap
  reap_lem [] p s = (refl, refl, refl, refl)
  reap_lem (q ∷ ps) p s =
      let s' = reap_one r timeout now q s in
      subst (λ c. Reaped r timeout now p c s (reap r timeout now ps s'))
        (both (q == p) (is_idle r timeout now q s.kv) (has p ps) (is_idle r timeout now p s.kv)
          (is_idle r timeout now p s'.kv) (idle_of q p s.kv) (idle-reap_one q p s))
        (Reaped-trans p _ _ s s' (reap r timeout now ps s') (reap_one_lem q p s) (reap_lem ps p s'))
    where
      both :
          (same iq there ip ip' : Bool)
          → (same ≡ true → iq ≡ ip)
          → ip' ≡ (if same && iq then false else ip)
          → (same && iq || there && ip') ≡ ((same || there) && ip)
      both true iq there ip ip' h e = ground (arith, h refl)
      both false iq there ip ip' h e = ground arith

  -- A round of the reaper stops exactly the previews that are registered, ready and not accessed
  -- within the timeout (a preview with no access recorded counts as accessed at 0): their state, their
  -- container and their registration are gone, and their rooms are told; the state, the container and the
  -- registration of every other project are as before, and no stop is told for it.
  pub reap_idle_previews_lem :
      (p : ℕ) (s : PreviewService Kv)
      → Reaped r timeout now p
          (has p (r.smembers global_active s.kv) && is_idle r timeout now p s.kv)
          s
          (reap_idle_previews r timeout now s)
  unfolding reap_idle_previews
  reap_idle_previews_lem p s = reap_lem (r.smembers global_active s.kv) p s
