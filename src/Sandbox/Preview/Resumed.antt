-- ===== src/Sandbox/Preview/Resumed.antt =====
-- A start of src/sandbox/preview/preview.service.ts that has read its counts, and goes on in the state
-- that it meets.
use bolder_vibes_backend.Common.{
  ℕ, suc, ◌≤◌, ◌<◌, ◌≡◌, refl, Bool, true, false, Option, none, some, arith, has, Bool-cases, inl,
  inr, ◌↔◌, Result, ok, err, ◌&&◌, not, leb, if◌then◌else◌,
}
use bolder_vibes_backend.Sandbox.Preview.Service.{
  PreviewRedis, PreviewRedisLaws, PreviewService, global_active, user_previews, drop_ghost,
  enter_build, begin_build, meet_build, max_previews_per_user, state_of, building, SetKey,
  is_building, get_preview_status, StartError, PreviewState, at_capacity, enter_global, enter_user,
}
use bolder_vibes_backend.Sandbox.Preview.Capacity.{
  active_count, user_active, Near, Near-trans, Near-sadd, Near-set, Near-del, active_count-Near,
}

abbrev pub is_ok : {E A : Type 0} → Result E A → Bool
is_ok (ok a) = true
is_ok (err e) = false

-- The count of a user, of whom there may be none.
abbrev pub of_user : Option ℕ → ℕ → ℕ
of_user none m = 0
of_user (some u) m = m

module _ {Kv : Type 0} (r : PreviewRedis Kv) where
  -- What the limits of a start come to that has read its counts earlier: `n` of the server and `m` of
  -- the user.
  unfoldable pub admit_counted :
      ℕ → (n m : ℕ) → ℕ → Option ℕ → Kv → Result StartError (Unit {0}) × Kv
  admit_counted max_global n m p none kv =
      if leb max_global n then (err (at_capacity n), kv) else enter_global r p (ok tt) kv
  admit_counted max_global n m p (some u) kv =
      if leb max_global n
      then (err (at_capacity n), kv)
      else let (result, kv') = enter_user r u p m kv in enter_global r p result kv'

  -- `startPreview` from there on: what other calls do between the reads of the counts and the entries
  -- in the sets is in the state that it meets.
  unfoldable pub resume_start :
      (random : ℕ → ℕ)
      → ℕ
      → (n m : ℕ) → ℕ
      → Option ℕ
      → PreviewService Kv
      → Result StartError PreviewState × PreviewService Kv
  resume_start random max_global n m p user s =
      let (admitted, kv') = admit_counted max_global n m p user s.kv in
      let (result, s') = meet_build r p admitted (record s { kv = kv' }) in
      begin_build r random p result s'

  pub resume_start-is_ok :
      (random : ℕ → ℕ) (max_global n m p : ℕ) (user : Option ℕ) (s : PreviewService Kv)
      → (is_ok (resume_start random max_global n m p user s).0 ≡ true)
        ↔ ((n < max_global) × (of_user user m < max_previews_per_user))
  unfolding resume_start admit_counted
  resume_start-is_ok random max_global n m p none s = ground arith
  resume_start-is_ok random max_global n m p (some u) s = ground arith

module _ {Kv : Type 0} (r : PreviewRedis Kv) (laws : PreviewRedisLaws r) where
  pub drop_ghost-Near : (p : ℕ) (s : PreviewService Kv) → Near r p s.kv (drop_ghost r p s).kv
  unfolding drop_ghost
  drop_ghost-Near p s =
      elim (Bool-cases
        (is_building (get_preview_status r p s.kv).status && not (has p s.containers))) [
          | inl ghost ↦ rw ghost (Near-del r laws p s.kv)
          | inr real ↦ rw real (λ j ne. (λ key h. h, refl))
        ]

  admit_counted-Near :
      (max_global n m p : ℕ) (user : Option ℕ) (kv : Kv)
      → Near r p kv (admit_counted r max_global n m p user kv).1
  unfolding admit_counted
  admit_counted-Near max_global n m p none kv = elim (Bool-cases (leb max_global n)) [
    | inl full ↦ rw full (λ j ne. (λ key h. h, refl))
    | inr free ↦ rw free (Near-sadd r laws p global_active kv)
  ]
  admit_counted-Near max_global n m p (some u) kv = elim (Bool-cases (leb max_global n)) [
    | inl full ↦ rw full (λ j ne. (λ key h. h, refl))
    | inr free ↦ elim (Bool-cases (leb max_previews_per_user m)) [
      | inl many ↦ rw (free, many) (λ j ne. (λ key h. h, refl))
      | inr few ↦
          rw (free, few)
            (Near-trans r laws p _ _ _ (Near-sadd r laws p (user_previews u) kv)
              (Near-sadd r laws p global_active _))
    ]
  ]

  -- Behind the limits: nothing, a build that is there, or a new one.
  begin_build-Near :
      (random : ℕ → ℕ) (p : ℕ) (admitted : Result StartError (Unit {0})) (s : PreviewService Kv)
      → let (result, s') = meet_build r p admitted s in
        Near r p s.kv (begin_build r random p result s').1.kv
  unfolding enter_build
  begin_build-Near random p (err e) s = λ j ne. (λ key h. h, refl)
  begin_build-Near random p (ok u) s = elim (Bool-cases (has p s.building_projects)) [
    | inl running ↦ rw running (λ j ne. (λ key h. h, refl))
    | inr new ↦ rw new (
        Near-trans r laws p _ _ _ (drop_ghost-Near p s)
          (Near-set r laws p (state_of p building) (drop_ghost r p s).kv))
  ]

  module _ (random : ℕ → ℕ) (max_global n m p : ℕ) (user : Option ℕ) (s : PreviewService Kv) where
    resumed-Near : Near r p s.kv (resume_start r random max_global n m p user s).1.kv
    unfolding resume_start
    resumed-Near =
        let admitted = admit_counted r max_global n m p user s.kv in
        Near-trans r laws p _ _ _ (admit_counted-Near max_global n m p user s.kv)
          (begin_build-Near random p admitted.0 (record s { kv = admitted.1 }))

    pub resumed-active :
        (key : SetKey)
        → active_count r key (resume_start r random max_global n m p user s).1.kv
          ≤ suc (active_count r key s.kv)
    resumed-active key = active_count-Near r laws p key s.kv _ resumed-Near

  pub resumed-user :
      (random : ℕ → ℕ) (max_global n m p : ℕ) (user : Option ℕ) (s : PreviewService Kv)
      → user_active r user (resume_start r random max_global n m p user s).1.kv
        ≤ suc (user_active r user s.kv)
  resumed-user random max_global n m p none s = omega arith
  resumed-user random max_global n m p (some u) s =
      resumed-active random max_global n m p (some u) s (user_previews u)
