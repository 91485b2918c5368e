-- ===== src/Sandbox/Preview/Service.antt =====
-- The operations of src/sandbox/preview/preview.service.ts on its state. What Redis holds and which
-- containers run is part of the state; a call that waits is cut at the wait where a build may end.
use bolder_vibes_backend.Common.{
  ℕ, suc, ◌+◌, ◌-◌, String, ◌≡◌, Bool, true, false, not, ◌&&◌, ◌||◌, Option, none, some, List, [],
  ◌∷◌, ◌==◌, if◌then◌else◌, has, add, remove, Result, ok, err, ltb, leb, Distinct, get_or_default,
}

pub data PreviewStatus : Type 0 where
  idle : PreviewStatus
  building : PreviewStatus
  ready : PreviewStatus
  error : PreviewStatus

pub record PreviewState : Type 0 where
  pub project_id : ℕ
  pub status : PreviewStatus
  pub url : Option String
  pub error_message : Option String

abbrev pub state_of : ℕ → PreviewStatus → PreviewState
state_of p status = record { project_id = p; status = status; url = none; error_message = none }

abbrev pub is_ready : PreviewStatus → Bool
is_ready ready = true
is_ready _ = false

abbrev pub is_building : PreviewStatus → Bool
is_building building = true
is_building _ = false

-- `status === BUILDING || status === READY`.
abbrev pub is_active : PreviewStatus → Bool
is_active status = is_building status || is_ready status

-- The Redis sets: `global-active-previews` and `user-previews:<user>`.
pub data SetKey : Type 0 where
  global_active : SetKey
  user_previews : ℕ → SetKey

abbrev pub same_key : SetKey → SetKey → Bool
same_key global_active global_active = true
same_key (user_previews u) (user_previews v) = u == v
same_key _ _ = false

-- Redis; `preview:<project>` is read as the state that its JSON stands for, and
-- `preview-last-access:<project>` as a number.
pub record PreviewRedis (Kv : Type 0) : Type 0 where
  pub get_state : ℕ → Kv → Option PreviewState
  pub set_state : ℕ → PreviewState → Kv → Kv
  pub del_state : ℕ → Kv → Kv
  pub smembers : SetKey → Kv → List ℕ
  pub sadd : SetKey → ℕ → Kv → Kv
  pub srem : SetKey → ℕ → Kv → Kv
  pub get_access : ℕ → Kv → Option ℕ
  pub set_access : ℕ → ℕ → Kv → Kv

pub record PreviewRedisLaws {Kv : Type 0} (r : PreviewRedis Kv) : Type 0 where
  pub state-set :
      (k j : ℕ) (v : PreviewState) (kv : Kv)
      → r.get_state j (r.set_state k v kv) ≡ (if k == j then some v else r.get_state j kv)
  pub state-del :
      (k j : ℕ) (kv : Kv)
      → r.get_state j (r.del_state k kv) ≡ (if k == j then none else r.get_state j kv)
  pub state-sadd :
      (key : SetKey) (p j : ℕ) (kv : Kv) → r.get_state j (r.sadd key p kv) ≡ r.get_state j kv
  pub state-srem :
      (key : SetKey) (p j : ℕ) (kv : Kv) → r.get_state j (r.srem key p kv) ≡ r.get_state j kv
  pub state-access :
      (p now j : ℕ) (kv : Kv) → r.get_state j (r.set_access p now kv) ≡ r.get_state j kv
  pub members-set :
      (key : SetKey) (p : ℕ) (v : PreviewState) (kv : Kv)
      → r.smembers key (r.set_state p v kv) ≡ r.smembers key kv
  pub members-del :
      (key : SetKey) (p : ℕ) (kv : Kv) → r.smembers key (r.del_state p kv) ≡ r.smembers key kv
  pub members-access :
      (key : SetKey) (p now : ℕ) (kv : Kv)
      → r.smembers key (r.set_access p now kv) ≡ r.smembers key kv
  pub members-sadd :
      (key other : SetKey) (p j : ℕ) (kv : Kv)
      → has j (r.smembers other (r.sadd key p kv))
        ≡ (if same_key key other && (p == j) then true else has j (r.smembers other kv))
  pub members-srem :
      (key other : SetKey) (p j : ℕ) (kv : Kv)
      → has j (r.smembers other (r.srem key p kv))
        ≡ (if same_key key other && (p == j) then false else has j (r.smembers other kv))
  pub members-Distinct : (key : SetKey) (kv : Kv) → Distinct (r.smembers key kv)
  -- Other writes leave the times of access.
  pub access-srem :
      (key : SetKey) (p j : ℕ) (kv : Kv) → r.get_access j (r.srem key p kv) ≡ r.get_access j kv
  pub access-del : (p j : ℕ) (kv : Kv) → r.get_access j (r.del_state p kv) ≡ r.get_access j kv

-- What is sent to a project's room.
pub data PreviewEvent : Type 0 where
  preview_building : ℕ → PreviewEvent
  preview_ready : ℕ → String → PreviewEvent
  preview_error : ℕ → String → PreviewEvent
  preview_stopped : ℕ → PreviewEvent  -- with the reason `idle_timeout`
  build_failed_log : ℕ → String → PreviewEvent  -- the line in `sandbox:log`

-- The fields of the service and what it reaches. A nonce is what `randomBytes` gave at a draw.
pub record PreviewService (Kv : Type 0) : Type 0 where
  pub kv : Kv
  pub building_projects : List ℕ
  pub build_nonces : ℕ → Option ℕ
  pub draws : ℕ
  pub containers : List ℕ
  pub events : List PreviewEvent

pub data StartError : Type 0 where
  at_capacity : ℕ → StartError  -- BadRequestException, with the count that it names
  too_many_for_user : StartError  -- BadRequestException

-- A start is refused, or it meets a build of the project, or it goes on to its own.
pub data Started : Type 0 where
  in_progress : PreviewState → Started
  to_build : Started

abbrev pub put_nonce : ℕ → Option ℕ → (ℕ → Option ℕ) → ℕ → Option ℕ
put_nonce k v m j = if k == j then v else m j

abbrev pub is_nonce : Option ℕ → ℕ → Bool
is_nonce none n = false
is_nonce (some m) n = m == n

abbrev pub max_previews_per_user : ℕ
max_previews_per_user = 3

module _ {Kv : Type 0} (r : PreviewRedis Kv) where
  unfoldable pub get_preview_status : ℕ → Kv → PreviewState
  get_preview_status p kv = get_or_default (r.get_state p kv) (state_of p idle)

  -- The loop of `getActivePreviewCount` and `getGlobalActiveCount` over the members that were read:
  -- active previews are counted, the others leave the set.
  unfoldable pub count_active : SetKey → List ℕ → Kv → ℕ × Kv
  unfolding get_preview_status
  count_active key [] kv = (0, kv)
  count_active key (p ∷ ps) kv = elim (is_active (get_preview_status p kv).status) [
    | true ↦ let (n, kv') = count_active key ps kv in (suc n, kv')
    | false ↦ count_active key ps (r.srem key p kv)
  ]

  unfoldable pub get_active_count : SetKey → Kv → ℕ × Kv
  unfolding count_active
  get_active_count key kv = count_active key (r.smembers key kv) kv

  -- The limit of a user, of whom that many previews were counted, and the entry in the user's set.
  abbrev pub enter_user : ℕ → ℕ → ℕ → Kv → Result StartError (Unit {0}) × Kv
  enter_user u p n kv =
      if leb max_previews_per_user n
      then (err too_many_for_user, kv)
      else (ok tt, r.sadd (user_previews u) p kv)

  -- The count for a user, if one is given, the limit and the entry.
  unfoldable pub check_user : Option ℕ → ℕ → Kv → Result StartError (Unit {0}) × Kv
  check_user none p kv = (ok tt, kv)
  check_user (some u) p kv =
      let (n, kv') = get_active_count (user_previews u) kv in enter_user u p n kv'

  -- The entry in the server's set, of a start that the user's limit lets through.
  abbrev pub enter_global :
      ℕ → Result StartError (Unit {0}) → Kv → Result StartError (Unit {0}) × Kv
  enter_global p result kv = elim result [
    | ok u ↦ (ok tt, r.sadd global_active p kv)
    | err e ↦ (err e, kv)
  ]

  -- Both limits, and the entries in both sets.
  unfoldable pub admit : ℕ → ℕ → Option ℕ → Kv → Result StartError (Unit {0}) × Kv
  admit max_global p user kv =
      let (n, kv') = get_active_count global_active kv in
      if leb max_global n
      then (err (at_capacity n), kv')
      else let (result, kv'') = check_user user p kv' in enter_global p result kv''

  -- A state that says building although nothing is there is dropped.
  unfoldable pub drop_ghost : ℕ → PreviewService Kv → PreviewService Kv
  drop_ghost p s =
      if is_building (get_preview_status p s.kv).status && not (has p s.containers)
      then record s { containers = remove p s.containers; kv = r.del_state p s.kv }
      else s

  -- A start that both limits let through meets a build of the project, or drops what is a ghost.
  abbrev pub meet_build :
      ℕ
      → Result StartError (Unit {0})
      → PreviewService Kv
      → Result StartError Started × PreviewService Kv
  meet_build p result s = elim result [
    | err e ↦ (err e, s)
    | ok u ↦
        if has p s.building_projects
        then (ok (in_progress (state_of p building)), s)
        else (ok to_build, drop_ghost p s)
  ]

  -- `startPreview` up to the write of the building state.
  unfoldable pub begin_start :
      ℕ → ℕ → Option ℕ → PreviewService Kv → Result StartError Started × PreviewService Kv
  begin_start max_global p user s =
      let (result, kv') = admit max_global p user s.kv in
      meet_build p result (record s { kv = kv' })

  -- The write, the event, the set and the nonce; the build begins.
  unfoldable pub enter_build : (random : ℕ → ℕ) → ℕ → PreviewService Kv → PreviewService Kv
  enter_build random p s = record s {
    kv = r.set_state p (state_of p building) s.kv;
    events = preview_building p ∷ s.events;
    building_projects = add p s.building_projects;
    build_nonces = put_nonce p (some (random s.draws)) s.build_nonces;
    draws = s.draws + 1;
  }

  abbrev pub begin_build :
      (random : ℕ → ℕ)
      → ℕ
      → Result StartError Started
      → PreviewService Kv
      → Result StartError PreviewState × PreviewService Kv
  begin_build random p result s = elim result [
    | err e ↦ (err e, s)
    | ok (in_progress state) ↦ (ok state, s)
    | ok to_build ↦ (ok (state_of p building), enter_build random p s)
  ]

  -- `startPreview` with nothing else between its steps.
  unfoldable pub start_preview :
      (random : ℕ → ℕ)
      → ℕ
      → ℕ
      → Option ℕ
      → PreviewService Kv
      → Result StartError PreviewState × PreviewService Kv
  start_preview random max_global p user s =
      let (result, s') = begin_start max_global p user s in begin_build random p result s'

  abbrev pub srem_user : Option ℕ → ℕ → Kv → Kv
  srem_user none p kv = kv
  srem_user (some u) p kv = r.srem (user_previews u) p kv

  -- `stopPreview`: the set and the nonce, the Redis sets, the state, the container.
  unfoldable pub stop_preview : ℕ → Option ℕ → PreviewService Kv → PreviewService Kv
  stop_preview p user s = record s {
    building_projects = remove p s.building_projects;
    build_nonces = put_nonce p none s.build_nonces;
    kv = r.del_state p (r.srem global_active p (srem_user user p s.kv));
    containers = remove p s.containers;
  }

  unfoldable pub touch_preview : (now p : ℕ) → PreviewService Kv → PreviewService Kv
  touch_preview now p s = record s { kv = r.set_access p now s.kv }

  unfoldable pub mark_ready : (now p : ℕ) → String → PreviewService Kv → PreviewService Kv
  unfolding touch_preview
  mark_ready now p url s =
      let s' =
        touch_preview now p
          (record s { kv = r.set_state p (record (state_of p ready) { url = some url }) s.kv }) in
      record s' { events = preview_ready p url ∷ s'.events }

  unfoldable pub mark_error : ℕ → String → PreviewService Kv → PreviewService Kv
  mark_error p message s = record s {
    kv = r.set_state p (record (state_of p error) { error_message = some message }) s.kv;
    events = preview_error p message ∷ s.events;
  }

  -- The first half of the `catch` of a build: a stale one does nothing, and gives `false`.
  unfoldable pub catch_failure :
      (p nonce : ℕ) → String → PreviewService Kv → Bool × PreviewService Kv
  catch_failure p nonce message s =
      if is_nonce (s.build_nonces p) nonce
      then (
        true,
        record s {
          events = build_failed_log p message ∷ s.events;
          containers = remove p s.containers;
        },
      )
      else (false, s)

  -- The `finally` of a build.
  unfoldable pub end_build : (p nonce : ℕ) → PreviewService Kv → PreviewService Kv
  end_build p nonce s =
      if is_nonce (s.build_nonces p) nonce
      then record s { building_projects = remove p s.building_projects }
      else s

  -- One round of `reapIdlePreviews`. Only a ready preview is stopped; one that was never accessed
  -- counts as accessed at 0.
  unfoldable pub reap_one : (timeout now p : ℕ) → PreviewService Kv → PreviewService Kv
  unfolding stop_preview
  reap_one timeout now p s =
      if is_ready (get_preview_status p s.kv).status
        && ltb timeout (now - get_or_default (r.get_access p s.kv) 0)
      then (let s' = stop_preview p none s in record s' { events = preview_stopped p ∷ s'.events })
      else s

  -- The loop of `reapIdlePreviews` over the members that were read.
  unfoldable pub reap : (timeout now : ℕ) → List ℕ → PreviewService Kv → PreviewService Kv
  reap timeout now [] s = s
  reap timeout now (p ∷ ps) s = reap timeout now ps (reap_one timeout now p s)

  unfoldable pub reap_idle_previews : (timeout now : ℕ) → PreviewService Kv → PreviewService Kv
  reap_idle_previews timeout now s = reap timeout now (r.smembers global_active s.kv) s

  -- The loop of `resetStaleBuildingPreviews`, on start-up.
  unfoldable pub reset_stale : List ℕ → PreviewService Kv → PreviewService Kv
  reset_stale [] s = s
  reset_stale (p ∷ ps) s =
      let s' =
        if is_building (get_preview_status p s.kv).status
        then record s {
          kv = r.srem global_active p (r.del_state p s.kv);
          containers = remove p s.containers;
        }
        else s in
      reset_stale ps s'
