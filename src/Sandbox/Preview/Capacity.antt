-- ===== src/Sandbox/Preview/Capacity.antt =====
-- The limits on running previews in src/sandbox/preview/preview.service.ts.
use bolder_vibes_backend.Common.{
  ℕ, suc, ◌≤◌, ◌≡◌, refl, sym, ◌∙◌, Bool, true, false, Option, none, some, List, [], ◌∷◌, arith,
  ◌==◌, has, filter, length, erase, get_or_default, has-erase, erase-Distinct,
}
use bolder_vibes_backend.Sandbox.Preview.Service.{
  PreviewRedis, PreviewRedisLaws, PreviewState, SetKey, user_previews, same_key, is_active,
  get_preview_status, count_active, state_of, idle,
}
use bolder_vibes_backend.Sandbox.Preview.Counts.{length-filter-le, length-filter-le-erase, Within}

module _ {Kv : Type 0} (r : PreviewRedis Kv) where
  abbrev pub active_in : Kv → ℕ → Bool
  active_in kv p = is_active (get_or_default (r.get_state p kv) (state_of p idle)).status

  -- The members of a set whose preview is building or ready.
  abbrev pub active_count : SetKey → Kv → ℕ
  active_count key kv = length (filter (active_in kv) (r.smembers key kv))

  abbrev pub user_active : Option ℕ → Kv → ℕ
  user_active none kv = 0
  user_active (some u) kv = active_count (user_previews u) kv

  -- But for one project, no set gains a member and no state changes.
  abbrev pub Near : ℕ → Kv → Kv → Type 0
  Near p kv kv' =
      (j : ℕ)
      → (p == j) ≡ false
      → ((key : SetKey) → has j (r.smembers key kv') ≡ true → has j (r.smembers key kv) ≡ true)
        × (r.get_state j kv' ≡ r.get_state j kv)

module _ {Kv : Type 0} (r : PreviewRedis Kv) (laws : PreviewRedisLaws r) where
  pub count_active-state :
      (key : SetKey) (ps : List ℕ) (j : ℕ) (kv : Kv)
      → r.get_state j (count_active r key ps kv).1 ≡ r.get_state j kv
  unfolding count_active
  count_active-state key [] j kv = refl
  count_active-state key (p ∷ ps) j kv = ground (
    arith,
    count_active-state key ps j kv,
    count_active-state key ps j (r.srem key p kv),
    laws.state-srem key p j kv,
  )

  active_in-srem :
      (key : SetKey) (p : ℕ) (ps : List ℕ) (kv : Kv)
      → filter (active_in r (r.srem key p kv)) ps ≡ filter (active_in r kv) ps
  active_in-srem key p [] kv = refl
  active_in-srem key p (q ∷ ps) kv =
      ground (arith, active_in-srem key p ps kv, laws.state-srem key p q kv)

  pub count_active-count :
      (key : SetKey) (ps : List ℕ) (kv : Kv)
      → (count_active r key ps kv).0 ≡ length (filter (active_in r kv) ps)
  unfolding count_active get_preview_status
  count_active-count key [] kv = refl
  count_active-count key (p ∷ ps) kv = ground (
    arith,
    count_active-count key ps kv,
    count_active-count key ps (r.srem key p kv),
    active_in-srem key p ps kv,
  )

  pub count_active-members :
      (key other : SetKey) (ps : List ℕ) (j : ℕ) (kv : Kv)
      → has j (r.smembers other (count_active r key ps kv).1) ≡ true
      → has j (r.smembers other kv) ≡ true
  unfolding count_active
  count_active-members key other [] j kv h = h
  count_active-members key other (p ∷ ps) j kv h = ground (
    arith,
    count_active-members key other ps j kv,
    count_active-members key other ps j (r.srem key p kv),
    laws.members-srem key other p j kv,
  )

  count_active-others :
      (key other : SetKey) (ps : List ℕ) (j : ℕ) (kv : Kv)
      → same_key key other ≡ false
      → has j (r.smembers other (count_active r key ps kv).1) ≡ has j (r.smembers other kv)
  unfolding count_active
  count_active-others key other [] j kv ne = refl
  count_active-others key other (p ∷ ps) j kv ne = ground (
    arith,
    count_active-others key other ps j kv,
    count_active-others key other ps j (r.srem key p kv),
    laws.members-srem key other p j kv,
  )

  pub Within-active :
      (key : SetKey) (kv kv' : Kv)
      → ((j : ℕ) → has j (r.smembers key kv') ≡ true → has j (r.smembers key kv) ≡ true)
      → ((j : ℕ) → r.get_state j kv' ≡ r.get_state j kv)
      → active_count r key kv' ≤ active_count r key kv
  Within-active key kv kv' fewer same =
      length-filter-le (active_in r kv') (active_in r kv) _ _ (laws.members-Distinct key kv')
        (laws.members-Distinct key kv) (λ j h t. (fewer j h, ground (arith, same j)))

  -- The count for a user is not changed by the count for the server.
  pub active_count-others :
      (key other : SetKey) (ps : List ℕ) (kv : Kv)
      → same_key key other ≡ false
      → active_count r other (count_active r key ps kv).1 ≡ active_count r other kv
  active_count-others key other ps kv ne =
      let kv' = (count_active r key ps kv).1 in
      let less =
        Within-active other kv kv' (λ j h. sym (count_active-others key other ps j kv ne) ∙ h)
          (λ j. count_active-state key ps j kv) in
      let more =
        Within-active other kv' kv (λ j h. count_active-others key other ps j kv ne ∙ h)
          (λ j. sym (count_active-state key ps j kv)) in
      omega arith

  -- With one project apart, a count grows by at most one.
  pub active_count-Near :
      (p : ℕ) (key : SetKey) (kv kv' : Kv)
      → Near r p kv kv'
      → active_count r key kv' ≤ suc (active_count r key kv)
  active_count-Near p key kv kv' near = omega (
    arith,
    length-filter-le-erase (active_in r kv') p (r.smembers key kv'),
    length-filter-le (active_in r kv') (active_in r kv) (erase p (r.smembers key kv')) _
        (erase-Distinct p _ (laws.members-Distinct key kv')) (laws.members-Distinct key kv) others,
  )
    where
      others :
          Within
            (active_in r kv')
            (active_in r kv)
            (erase p (r.smembers key kv'))
            (r.smembers key kv)
      others j h t =
          let gone = has-erase j p (r.smembers key kv') (laws.members-Distinct key kv') in
          let (fewer, same) = near j (ground arith) in (fewer key (ground arith), ground arith)

  pub Near-trans : (p : ℕ) (a b c : Kv) → Near r p a b → Near r p b c → Near r p a c
  Near-trans p a b c f g j ne =
      let (fewer, same) = f j ne in
      let (fewer', same') = g j ne in (λ key h. fewer key (fewer' key h), same' ∙ same)

  pub Near-count :
      (p : ℕ) (key : SetKey) (ps : List ℕ) (kv : Kv) → Near r p kv (count_active r key ps kv).1
  Near-count p key ps kv j ne =
      (λ other h. count_active-members key other ps j kv h, count_active-state key ps j kv)

  pub Near-sadd : (p : ℕ) (key : SetKey) (kv : Kv) → Near r p kv (r.sadd key p kv)
  Near-sadd p key kv j ne =
      (λ other h. ground (arith, laws.members-sadd key other p j kv), laws.state-sadd key p j kv)

  pub Near-set : (p : ℕ) (v : PreviewState) (kv : Kv) → Near r p kv (r.set_state p v kv)
  Near-set p v kv j ne =
      (λ key h. rw (← laws.members-set key p v kv) h, ground (arith, laws.state-set p j v kv))

  pub Near-del : (p : ℕ) (kv : Kv) → Near r p kv (r.del_state p kv)
  Near-del p kv j ne =
      (λ key h. rw (← laws.members-del key p kv) h, ground (arith, laws.state-del p j kv))
