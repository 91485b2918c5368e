-- ===== src/Agents/Retry/Tests.antt =====
-- Runs of `withRetry` on small inputs, and the theorems about it at them.
use bolder_vibes_backend.Common.{ℕ, zero, suc, ◌+◌, ◌≡◌, refl, ◌⊎◌, false, none, some, [], ◌∷◌}
use bolder_vibes_backend.Agents.Retry.{
  default_options, Thrown, error, Attempt, resolved, rejected, returned, threw, is_retryable_error,
  delay_after, gives_up, retry_loop, with_retry,
}
use bolder_vibes_backend.Agents.Retry.Laws.{backoff, IsReached, with_retry_settles}

abbrev overloaded : Thrown
overloaded = error (some 503) none "busy"

abbrev reset : Thrown
reset = error none none "read ECONNRESET"

-- Two retryable failures, then a value.
abbrev third_time : ℕ → Attempt ℕ
third_time zero = rejected overloaded
third_time (suc zero) = rejected reset
third_time (suc (suc k)) = resolved k

third_time_run :
    with_retry default_options third_time
    ≡ record { outcome = returned 0; calls = 3; delays = 1000 ∷ 2000 ∷ [] }
unfolding with_retry retry_loop gives_up is_retryable_error delay_after
third_time_run = refl

abbrev always_down : ℕ → Attempt ℕ
always_down k = rejected overloaded

always_down_run :
    with_retry default_options always_down
    ≡ record { outcome = threw (some overloaded); calls = 4; delays = 1000 ∷ 2000 ∷ 4000 ∷ [] }
unfolding with_retry retry_loop gives_up is_retryable_error delay_after
always_down_run = refl

with_retry_settles_example :
    let r = with_retry default_options third_time in
    (k : ℕ) × IsReached default_options third_time k
    × (r.calls ≡ k + 1)
    × (r.delays ≡ backoff default_options k)
    × (((v : ℕ) × (third_time k ≡ resolved v) × (r.outcome ≡ returned v))
        ⊎ ((e : Thrown) × (third_time k ≡ rejected e)
            × ((k ≡ 3) ⊎ (is_retryable_error e default_options.retryable_status_codes ≡ false))
            × (r.outcome ≡ threw (some e))))
with_retry_settles_example = with_retry_settles default_options third_time
