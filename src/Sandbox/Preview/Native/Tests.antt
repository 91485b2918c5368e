-- ===== src/Sandbox/Preview/Native/Tests.antt =====
-- Tunnels started with src/sandbox/preview/native-preview.service.ts over a world in memory.
use bolder_vibes_backend.Common.{ℕ, ◌≡◌, refl, Option, none, some, ◌+◌, arith, ap, sym, subst, []}
use bolder_vibes_backend.Sandbox.Preview.Native.{
  NativePreviewState, NativeDeps, NativePreview, at, start_and_launch, on_timeout,
  log_stream_closed, stop,
}
use bolder_vibes_backend.Sandbox.Preview.Native.Stale.{
  NativeLaws, IsWaiting, IsTornDown, Runs, stale_run_lem,
}
use mathlib.Core.Option.{some-injective}

-- The states, the containers, and the next container's id.
pub record Memory : Type 0 where
  pub states : ℕ → Option NativePreviewState
  pub containers : ℕ → Option ℕ
  pub next : ℕ

abbrev memory : NativeDeps Memory
memory = record {
  get = λ p m. m.states p;
  set = λ p st m. record m { states = at p (some st) m.states };
  del = λ p m. record m { states = at p none m.states };
  container = λ p m. m.containers p;
  remove_container = λ p m. record m { containers = at p none m.containers };
  run = λ p m.
      some (m.next, record m { containers = at p (some m.next) m.containers; next = m.next + 1 });
}

memory-NativeLaws : NativeLaws memory
memory-NativeLaws = record {
  get-set = λ p st w. ground arith;
  get-del = λ p w. ground arith;
  get-remove_container = λ p q w. refl;
  get-run = λ p q id w w' e. sym (ap (λ z. z.1.states p) (some-injective _ _ e));
  container-remove_container = λ p w. ground arith;
  container-run = λ p id w w' e.
      subst (λ z. z.1.containers p ≡ some (z.0)) (some-injective _ _ e) (ground arith);
}

memory-Runs : Runs memory memory-NativeLaws
memory-Runs p w = (_, refl)

abbrev at_rest : NativePreview Memory
at_rest = record {
  starting = [];
  log_streams = λ _. none;
  expo_url = λ _. none;
  world = record { states = λ _. none; containers = λ _. none; next = 0 };
}

stale_run_lem_example :
    let first = start_and_launch memory 7 at_rest in
    let again = start_and_launch memory 7 (stop memory 7 first) in
    (id : ℕ) × (id' : ℕ) × (memory.container 7 first.world ≡ some id)
    × IsWaiting memory memory-NativeLaws 7 id' again
    × IsTornDown memory memory-NativeLaws 7 (on_timeout memory 7 id again)
    × IsTornDown memory memory-NativeLaws 7 (log_stream_closed memory 7 id again)
stale_run_lem_example = stale_run_lem memory memory-NativeLaws 7 at_rest memory-Runs (refl, refl)
