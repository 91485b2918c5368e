-- ===== src/Sandbox/Preview/Starts.antt =====
-- When `startPreview` of src/sandbox/preview/preview.service.ts accepts a start.
use bolder_vibes_backend.Common.{
  ℕ, suc, ◌≤◌, ◌<◌, max, ◌≡◌, refl, ◌∙◌, Bool, true, false, Option, none, some, arith,
  if◌then◌else◌, has, Bool-cases, inl, inr, leb, ◌↔◌, ok, err, Result-cases,
}
use bolder_vibes_backend.Sandbox.Preview.Service.{
  PreviewRedis, PreviewRedisLaws, PreviewService, global_active, user_previews, get_active_count,
  check_user, admit, begin_start, drop_ghost, enter_build, start_preview, at_capacity,
  too_many_for_user, max_previews_per_user, state_of, building, SetKey,
}
use bolder_vibes_backend.Sandbox.Preview.Resumed.{
  is_ok, of_user, drop_ghost-Near, resume_start-is_ok, resumed-active, resumed-user, resume_start,
}
use bolder_vibes_backend.Sandbox.Preview.Capacity.{
  active_count, user_active, Near, count_active-count, active_count-others, Near-trans,
  count_active-members, Within-active, Near-sadd, count_active-state, Near-set, active_count-Near,
}

module _ {Kv : Type 0} (r : PreviewRedis Kv) (laws : PreviewRedisLaws r) where
  check_user_result :
      (user : Option ℕ) (p : ℕ) (kv : Kv)
      → (check_user r user p kv).0 ≡ (
          if leb max_previews_per_user (user_active r user kv)
          then err too_many_for_user
          else ok tt)
  unfolding check_user get_active_count
  check_user_result none p kv = refl
  check_user_result (some u) p kv =
      ground
        (arith, count_active-count r laws (user_previews u) (r.smembers (user_previews u) kv) kv)

  user_active-others :
      (user : Option ℕ) (kv : Kv)
      → user_active r user (get_active_count r global_active kv).1 ≡ user_active r user kv
  unfolding get_active_count
  user_active-others none kv = refl
  user_active-others (some u) kv =
      active_count-others r laws global_active (user_previews u) (r.smembers global_active kv) kv
        refl

  -- The answer of the two limits.
  admit_result :
      (max_global p : ℕ) (user : Option ℕ) (kv : Kv)
      → (admit r max_global p user kv).0 ≡ (
          if leb max_global (active_count r global_active kv)
          then err (at_capacity (active_count r global_active kv))
          else if leb max_previews_per_user (user_active r user kv)
          then err too_many_for_user
          else ok tt)
  unfolding admit get_active_count
  admit_result max_global p user kv = ground (
    arith,
    count_active-count r laws global_active (r.smembers global_active kv) kv,
    check_user_result user p (get_active_count r global_active kv).1,
    user_active-others user kv,
  )

  -- No set gains a member and no state changes.
  abbrev Shrinks : Kv → Kv → Type 0
  Shrinks kv kv' =
      (j : ℕ)
      → ((key : SetKey) → has j (r.smembers key kv') ≡ true → has j (r.smembers key kv) ≡ true)
        × (r.get_state j kv' ≡ r.get_state j kv)

  Shrinks-count : (key : SetKey) (kv : Kv) → Shrinks kv (get_active_count r key kv).1
  unfolding get_active_count
  Shrinks-count key kv j =
      let ps = r.smembers key kv in
      (
        λ other h. count_active-members r laws key other ps j kv h,
        count_active-state r laws key ps j kv,
      )

  Shrinks-trans : (a b c : Kv) → Shrinks a b → Shrinks b c → Shrinks a c
  Shrinks-trans a b c f g j =
      let (fewer, same) = f j in
      let (fewer', same') = g j in (λ key h. fewer key (fewer' key h), same' ∙ same)

  Shrinks-active :
      (key : SetKey) (kv kv' : Kv) → Shrinks kv kv' → active_count r key kv' ≤ active_count r key kv
  Shrinks-active key kv kv' f =
      Within-active r laws key kv kv' (λ j h. (f j).0 key h) (λ j. (f j).1)

  check_user-Near : (user : Option ℕ) (p : ℕ) (kv : Kv) → Near r p kv (check_user r user p kv).1
  unfolding check_user
  check_user-Near none p kv = λ j ne. (λ key h. h, refl)
  check_user-Near (some u) p kv =
      let counted = get_active_count r (user_previews u) kv in
      let near : Near r p kv counted.1 = λ j ne. Shrinks-count (user_previews u) kv j in
      elim (Bool-cases (leb max_previews_per_user counted.0)) [
        | inl full ↦ rw full near
        | inr free ↦
            rw free
              (Near-trans r laws p _ _ _ near (Near-sadd r laws p (user_previews u) counted.1))
      ]

  check_user-Shrinks :
      (user : Option ℕ) (p : ℕ) (kv : Kv)
      → is_ok (check_user r user p kv).0 ≡ false
      → Shrinks kv (check_user r user p kv).1
  unfolding check_user
  check_user-Shrinks none p kv refused = cc
  check_user-Shrinks (some u) p kv refused =
      let counted = get_active_count r (user_previews u) kv in
      elim (Bool-cases (leb max_previews_per_user counted.0)) [
        | inl full ↦ rw full (Shrinks-count (user_previews u) kv)
        | inr free ↦ absurd (ground arith)
      ]

  -- Whatever the limits answer, only the project itself may gain a place.
  admit-Near :
      (max_global p : ℕ) (user : Option ℕ) (kv : Kv) → Near r p kv (admit r max_global p user kv).1
  unfolding admit
  admit-Near max_global p user kv =
      let counted = get_active_count r global_active kv in
      let near : Near r p kv counted.1 = λ j ne. Shrinks-count global_active kv j in
      let checked = Near-trans r laws p _ _ _ near (check_user-Near user p counted.1) in
      let added =
        Near-trans r laws p _ _ _ checked
          (Near-sadd r laws p global_active (check_user r user p counted.1).1) in
      elim (Bool-cases (leb max_global counted.0)) [
        | inl full ↦ rw full near
        | inr free ↦ elim (Result-cases (check_user r user p counted.1).0) [
          | inl (e, refused) ↦ rw (free, refused) checked
          | inr (u, passed) ↦ rw (free, passed) added
        ]
      ]

  -- A refusal gives no place away.
  admit-Shrinks :
      (max_global p : ℕ) (user : Option ℕ) (kv : Kv)
      → is_ok (admit r max_global p user kv).0 ≡ false
      → Shrinks kv (admit r max_global p user kv).1
  unfolding admit
  admit-Shrinks max_global p user kv h =
      let counted = get_active_count r global_active kv in
      let less = Shrinks-count global_active kv in
      elim (Bool-cases (leb max_global counted.0)) [
        | inl full ↦ rw full less
        | inr free ↦ elim (Result-cases (check_user r user p counted.1).0) [
          | inr (u, passed) ↦ absurd (ground arith)
          | inl (e, refused) ↦
              rw (free, refused)
                (Shrinks-trans _ _ _ less (check_user-Shrinks user p counted.1 (rw refused refl)))
        ]
      ]

  every_user :
      (user : Option ℕ) (accepted : Bool) (kv kv' : Kv)
      → ((key : SetKey)
          → active_count r key kv'
            ≤ (if accepted then suc (active_count r key kv) else active_count r key kv))
      → user_active r user kv'
        ≤ (if accepted then suc (user_active r user kv) else user_active r user kv)
  every_user none accepted kv kv' f = ground arith
  every_user (some u) accepted kv kv' f = f (user_previews u)

  module _ (random : ℕ → ℕ) (max_global p : ℕ) (user : Option ℕ) (s : PreviewService Kv) where
    start_preview-is_ok :
        is_ok (start_preview r random max_global p user s).0
        ≡ is_ok (admit r max_global p user s.kv).0
    unfolding start_preview begin_start
    start_preview-is_ok = ground arith

    refused-kv :
        is_ok (admit r max_global p user s.kv).0 ≡ false
        → (start_preview r random max_global p user s).1.kv ≡ (admit r max_global p user s.kv).1
    unfolding start_preview begin_start
    refused-kv h = ground arith

    running-kv :
        has p s.building_projects ≡ true
        → (start_preview r random max_global p user s).1.kv ≡ (admit r max_global p user s.kv).1
    unfolding start_preview begin_start
    running-kv h = ground arith

    new-kv :
        is_ok (admit r max_global p user s.kv).0 ≡ true
        → has p s.building_projects ≡ false
        → (start_preview r random max_global p user s).1.kv
          ≡ r.set_state p
              (state_of p building)
              (drop_ghost r p (record s { kv = (admit r max_global p user s.kv).1 })).kv
    unfolding start_preview begin_start enter_build
    new-kv h new = ground arith

    -- What a start leaves in Redis.
    started-Near : Near r p s.kv (start_preview r random max_global p user s).1.kv
    started-Near =
        let admitted = admit r max_global p user s.kv in
        let near = admit-Near max_global p user s.kv in
        elim (Bool-cases (is_ok admitted.0)) [
          | inr refused ↦ rw (refused-kv refused) near
          | inl passed ↦ elim (Bool-cases (has p s.building_projects)) [
            | inl running ↦ rw (running-kv running) near
            | inr new ↦
                let s' = record s { kv = admitted.1 } in
                rw (new-kv passed new) (
                  Near-trans r laws p _ _ _
                    (Near-trans r laws p _ _ _ near (drop_ghost-Near r laws p s'))
                    (Near-set r laws p (state_of p building) (drop_ghost r p s').kv))
          ]
        ]

    -- A refused start gives no place away, and an accepted one a single place.
    started-active :
        (key : SetKey)
        → active_count r key (start_preview r random max_global p user s).1.kv ≤ (
            if is_ok (admit r max_global p user s.kv).0
            then suc (active_count r key s.kv)
            else active_count r key s.kv)
    started-active key = elim (Bool-cases (is_ok (admit r max_global p user s.kv).0)) [
      | inl passed ↦ rw passed (active_count-Near r laws p key s.kv _ started-Near)
      | inr refused ↦
          rw (refused, refused-kv refused)
            (Shrinks-active key s.kv _ (admit-Shrinks max_global p user s.kv refused))
    ]

    -- A start with nothing else between its steps is accepted exactly if fewer of the previews that are
    -- registered for the server than its limit are building or ready, and fewer than three of those that
    -- are registered for the user, if one is given; and it takes neither count above its limit: what is
    -- active afterwards of the registered previews is within the limit, or not more than before. A start
    -- that reads the counts `n` and `m`, and goes on in whatever state other calls have left by then, is
    -- accepted on these counts alone, and adds at most one preview to each.
    pub start_preview_iff :
        (n m : ℕ) (later : PreviewService Kv)
        → let (result, s') = start_preview r random max_global p user s in
          let (resumed, later') = resume_start r random max_global n m p user later in
          ((is_ok result ≡ true) ↔ (
            (active_count r global_active s.kv < max_global)
            × (user_active r user s.kv < max_previews_per_user)))
          × (active_count r global_active s'.kv
              ≤ max max_global (active_count r global_active s.kv))
          × (user_active r user s'.kv ≤ max max_previews_per_user (user_active r user s.kv))
          × ((is_ok resumed ≡ true) ↔ ((n < max_global) × (of_user user m < max_previews_per_user)))
          × (active_count r global_active later'.kv ≤ suc (active_count r global_active later.kv))
          × (user_active r user later'.kv ≤ suc (user_active r user later.kv))
    start_preview_iff n m later = (
      ground (arith, start_preview-is_ok, admit_result max_global p user s.kv),
      ground (arith, started-active global_active, admit_result max_global p user s.kv),
      ground (
        arith,
        every_user user (is_ok (admit r max_global p user s.kv).0) s.kv
            (start_preview r random max_global p user s).1.kv started-active,
        admit_result max_global p user s.kv,
      ),
      resume_start-is_ok r random max_global n m p user later,
      resumed-active r laws random max_global n m p user later global_active,
      resumed-user r laws random max_global n m p user later,
    )
