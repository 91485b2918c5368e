-- ===== src/Sandbox/Preview/Native/Stale.antt =====
-- What a stopped run of src/sandbox/preview/native-preview.service.ts does to the next one.
use bolder_vibes_backend.Common.{
  ℕ, ◌≡◌, refl, ◌∙◌, false, Option, none, some, has, has-remove, arith, ap, String,
}
use bolder_vibes_backend.Sandbox.Preview.Service.{error}
use bolder_vibes_backend.Sandbox.Preview.Native.{
  NativePreviewState, NativeDeps, NativePreview, at, is_begun, tunnel_building, get_status, start,
  run_start, log_stream_closed, on_timeout, stop, start_and_launch, give_up, mark_error,
  tunnel_late, tunnel_exited,
}

-- Redis answers with what was written, and Docker's containers are apart from it.
pub record NativeLaws {W : Type 0} (d : NativeDeps W) : Type 0 where
  pub get-set : (p : ℕ) (st : NativePreviewState) (w : W) → d.get p (d.set p st w) ≡ some st
  pub get-del : (p : ℕ) (w : W) → d.get p (d.del p w) ≡ none
  pub get-remove_container : (p q : ℕ) (w : W) → d.get p (d.remove_container q w) ≡ d.get p w
  pub get-run : (p q id : ℕ) (w w' : W) → d.run q w ≡ some (id, w') → d.get p w' ≡ d.get p w
  pub container-remove_container : (p : ℕ) (w : W) → d.container p (d.remove_container p w) ≡ none
  pub container-run : (p id : ℕ) (w w' : W) → d.run p w ≡ some (id, w') → d.container p w' ≡ some id

module _ {W : Type 0} (d : NativeDeps W) (laws : NativeLaws d) where
  -- No run of the project is begun, and Redis shows none.
  abbrev pub IsStartable : ℕ → NativePreview W → Type 0
  IsStartable p s = (has p s.starting ≡ false) × (is_begun (get_status d p s.world).status ≡ false)

  -- Docker starts what it is asked for.
  abbrev pub Runs : Type 0
  Runs = (p : ℕ) (w : W) → (ran : ℕ × W) × (d.run p w ≡ some ran)

  -- A run with this container waits for its tunnel.
  abbrev pub IsWaiting : ℕ → ℕ → NativePreview W → Type 0
  IsWaiting p id s = (d.container p s.world ≡ some id) × (d.get p s.world ≡ some tunnel_building)

  start_and_launch-IsWaiting :
      (p : ℕ) (s : NativePreview W)
      → Runs
      → IsStartable p s
      → (id : ℕ) × IsWaiting p id (start_and_launch d p s)
        × ((start_and_launch d p s).expo_url ≡ at id none s.expo_url)
  unfolding start run_start
  start_and_launch-IsWaiting p s runs (free, inactive) =
      let w = d.remove_container p (d.set p tunnel_building s.world) in
      let ((id, w'), ran) = runs p w in
      rw (free, inactive, ran, run_start)
        (
          id,
          (
            laws.container-run p id w w' ran,
            laws.get-run p p id w w' ran
                ∙ laws.get-remove_container p p (d.set p tunnel_building s.world)
                ∙ laws.get-set p tunnel_building s.world,
          ),
          rw (free, inactive, start) refl,
        )

  stop-IsStartable : (p : ℕ) (s : NativePreview W) → IsStartable p (stop d p s)
  unfolding stop
  stop-IsStartable p s = (
    has-remove p p s.starting ∙ ground arith,
    rw (laws.get-remove_container p p (d.del p s.world), laws.get-del p s.world) refl,
  )

  -- The project shows an error, and has no container.
  abbrev pub IsTornDown : ℕ → NativePreview W → Type 0
  IsTornDown p s = ((get_status d p s.world).status ≡ error) × (d.container p s.world ≡ none)

  give_up-IsTornDown :
      (p id id' : ℕ) (text : String) (s : NativePreview W)
      → IsWaiting p id' s
      → s.expo_url id ≡ none
      → IsTornDown p (give_up d p id text s)
  give_up-IsTornDown p id id' text s (_, shown) silent =
      let marked = mark_error d p text s.world in
      rw (silent, shown, give_up)
        (
          rw
              (
                laws.get-remove_container p p marked,
                laws.get-set p (record { status = error; expo_url = none; error_text = some text })
                    s.world,
              )
              refl,
          laws.container-remove_container p marked,
        )

  on_timeout-IsTornDown :
      (p id id' : ℕ) (s : NativePreview W)
      → IsWaiting p id' s
      → s.expo_url id ≡ none
      → IsTornDown p (on_timeout d p id s)
  unfolding on_timeout
  on_timeout-IsTornDown p id id' s waiting silent =
      give_up-IsTornDown p id id' tunnel_late s waiting silent

  log_stream_closed-IsTornDown :
      (p id id' : ℕ) (s : NativePreview W)
      → IsWaiting p id' s
      → s.expo_url id ≡ none
      → IsTornDown p (log_stream_closed d p id s)
  unfolding log_stream_closed
  log_stream_closed-IsTornDown p id id' s waiting silent =
      give_up-IsTornDown p id id' tunnel_exited (record s { log_streams = at p none s.log_streams })
        waiting silent

  stop-expo_url : (p : ℕ) (s : NativePreview W) → (stop d p s).expo_url ≡ s.expo_url
  unfolding stop
  stop-expo_url p s = refl

  at-here : (id : ℕ) (f : ℕ → Option String) → at id none f id ≡ none
  at-here id f = ground arith

  at-none : (id id' : ℕ) (f : ℕ → Option String) → f id ≡ none → at id' none f id ≡ none
  at-none id id' f e = ground arith

  -- Let Docker start what it is asked for, and let a project be started, stopped before its tunnel is
  -- there, and started again. Then the new container waits for its tunnel; but as soon as the timer of
  -- the first run rings, or the end of its log stream is seen, the project shows an error, and the new
  -- container is removed.
  pub stale_run_lem :
      (p : ℕ) (s : NativePreview W)
      → Runs
      → IsStartable p s
      → let first = start_and_launch d p s in
        let again = start_and_launch d p (stop d p first) in
        (id : ℕ) × (id' : ℕ) × (d.container p first.world ≡ some id)
        × IsWaiting p id' again
        × IsTornDown p (on_timeout d p id again)
        × IsTornDown p (log_stream_closed d p id again)
  stale_run_lem p s runs startable =
      let first = start_and_launch d p s in
      let (id, (there, _), urls) = start_and_launch-IsWaiting p s runs startable in
      let stopped = stop d p first in
      let (id', waiting, urls') =
        start_and_launch-IsWaiting p stopped runs (stop-IsStartable p first) in
      let before =
        ap (λ f. f id) (stop-expo_url p first) ∙ ap (λ f. f id) urls ∙ at-here id s.expo_url in
      let silent = ap (λ f. f id) urls' ∙ at-none id id' stopped.expo_url before in
      (
        id,
        id',
        there,
        waiting,
        on_timeout-IsTornDown p id id' (start_and_launch d p stopped) waiting silent,
        log_stream_closed-IsTornDown p id id' (start_and_launch d p stopped) waiting silent,
      )
