-- ===== src/Sandbox/Preview/Native.antt =====
-- The tunnels of src/sandbox/preview/native-preview.service.ts: `start`, `runStart`, `stop`, and what
-- the log stream, the tunnel's address and the fail-safe timer do later, in any order.
pub mod Stale
mod Tests
use bolder_vibes_backend.Common.{
  ℕ, String, Bool, true, false, not, ◌&&◌, ◌||◌, Option, none, some, List, [], ◌∷◌, ◌==◌,
  if◌then◌else◌, ok, err, Result, is_some, has, add, remove, get_or_default, ◌≡◌,
}
use bolder_vibes_backend.Sandbox.Preview.Service.{PreviewStatus, idle, building, ready, error}

-- `startedAt` is left out.
pub record NativePreviewState : Type 0 where
  pub status : PreviewStatus
  pub expo_url : Option String
  pub error_text : Option String

-- Redis at the service's keys, without their expiry, and Docker at its containers, which are known by
-- their ids.
pub record NativeDeps (W : Type 0) : Type 0 where
  pub get : ℕ → W → Option NativePreviewState
  pub set : ℕ → NativePreviewState → W → W
  pub del : ℕ → W → W
  pub container : ℕ → W → Option ℕ
  pub remove_container : ℕ → W → W
  pub run : ℕ → W → Option (ℕ × W)

-- `expo_url` is the variable of each `runStart`, by the container that it started.
pub record NativePreview (W : Type 0) : Type 0 where
  pub starting : List ℕ
  pub log_streams : ℕ → Option ℕ
  pub expo_url : ℕ → Option String
  pub world : W

abbrev pub at : {A : Type 0} → ℕ → A → (ℕ → A) → ℕ → A
at k a f j = if k == j then a else f j

abbrev pub is_ready : PreviewStatus → Bool
is_ready ready = true
is_ready _ = false

abbrev pub is_begun : PreviewStatus → Bool
is_begun building = true
is_begun ready = true
is_begun _ = false

abbrev pub tunnel_building : NativePreviewState
tunnel_building = record { status = building; expo_url = none; error_text = none }

pub data StartRefusal : Type 0 where
  already_starting : StartRefusal

abbrev pub tunnel_exited : String
tunnel_exited = "Tunnel container exited before becoming ready. Check the Logs tab for details."

abbrev pub tunnel_late : String
tunnel_late =
    "Tunnel did not become ready in time. The Expo tunnel service may be unreachable from this host."

module _ {W : Type 0} (d : NativeDeps W) where
  abbrev pub get_status : ℕ → W → NativePreviewState
  get_status p w =
      get_or_default (d.get p w) (record { status = idle; expo_url = none; error_text = none })

  -- `start`, up to the return; whether a `runStart` was begun is the second part.
  unfoldable pub start :
      ℕ → NativePreview W → Result StartRefusal NativePreviewState × Bool × NativePreview W
  start p s =
      if has p s.starting
      then (err already_starting, false, s)
      else let current = get_status p s.world in
        if is_begun current.status then (ok current, false, s) else (
          ok tunnel_building,
          true,
          record s { world = d.set p tunnel_building s.world; starting = add p s.starting },
        )

  abbrev pub mark_ready : ℕ → String → W → W
  mark_ready p url = d.set p (record { status = ready; expo_url = some url; error_text = none })

  abbrev pub mark_error : ℕ → String → W → W
  mark_error p text = d.set p (record { status = error; expo_url = none; error_text = some text })

  -- The `catch` and the `finally` of a `runStart` that throws.
  unfoldable pub fail : ℕ → String → NativePreview W → NativePreview W
  fail p text s = record s {
    world = d.remove_container p (mark_error p text s.world);
    starting = remove p s.starting;
  }

  -- `runStart` from the removal of a stale container to its end, and the `finally`.
  unfoldable pub run_start : ℕ → NativePreview W → NativePreview W
  unfolding fail
  run_start p s =
      let cleared = d.remove_container p s.world in
      elim (d.run p cleared) [
        | none ↦ fail p "Native preview failed" (record s { world = cleared })
        | some (id, w') ↦ record s {
          world = w';
          starting = remove p s.starting;
          log_streams = at p (some id) s.log_streams;
          expo_url = at id none s.expo_url;
        }
      ]

  -- The manifest of a container names a public host.
  unfoldable pub resolve_tunnel_url : (p id : ℕ) → String → NativePreview W → NativePreview W
  resolve_tunnel_url p id url s =
      if is_some (s.expo_url id)
      then s
      else record s { expo_url = at id (some url) s.expo_url; world = mark_ready p url s.world }

  -- What the end of the log stream and the timer share.
  abbrev pub give_up : (p id : ℕ) → String → NativePreview W → NativePreview W
  give_up p id text s =
      if is_some (s.expo_url id)
      then s
      else if is_ready (get_status p s.world).status
      then s
      else record s { world = d.remove_container p (mark_error p text s.world) }

  unfoldable pub log_stream_closed : (p id : ℕ) → NativePreview W → NativePreview W
  log_stream_closed p id s =
      give_up p id tunnel_exited (record s { log_streams = at p none s.log_streams })

  unfoldable pub on_timeout : (p id : ℕ) → NativePreview W → NativePreview W
  on_timeout p id s = give_up p id tunnel_late s

  -- The killed log stream closes later.
  unfoldable pub stop : ℕ → NativePreview W → NativePreview W
  stop p s = record s {
    starting = remove p s.starting;
    log_streams = at p none s.log_streams;
    world = d.remove_container p (d.del p s.world);
  }

  -- `start` as it is called, with its `runStart` run to the end.
  abbrev pub start_and_launch : ℕ → NativePreview W → NativePreview W
  start_and_launch p s = let (_, begun, s') = start p s in if begun then run_start p s' else s'
