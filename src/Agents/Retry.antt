-- ===== src/Agents/Retry.antt =====
-- src/agents/utils/retry.ts: calls to a model provider, with retries and exponential backoff.
pub mod Laws
mod Tests
use bolder_vibes_backend.Common.{
  ℕ, zero, suc, ◌+◌, ◌-◌, ◌*◌, ◌^◌, min, String, Bool, true, false, not, ◌&&◌, ◌||◌, Option, none,
  some, List, [], ◌∷◌, ◌++◌, ◌==◌, leb, any, is_some, or_else, find?, if◌then◌else◌,
}

-- `RetryOptions` with its defaults filled in.
pub record RetryOptions : Type 0 where
  pub max_retries : ℕ
  pub base_delay_ms : ℕ
  pub max_delay_ms : ℕ
  pub retryable_status_codes : List ℕ

abbrev pub default_options : RetryOptions
default_options = record {
  max_retries = 3;
  base_delay_ms = 1000;
  max_delay_ms = 10000;
  retryable_status_codes = 429 ∷ 500 ∷ 502 ∷ 503 ∷ 504 ∷ [];
}

-- What was thrown: an `Error`, with the status fields that it may carry, or any other value.
pub data Thrown : Type 0 where
  error : (status status_code : Option ℕ) (message : String) → Thrown
  other : Thrown

-- `s.includes(t)`.
abbrev pub includes : String → String → Bool
includes s t = is_some (find? s t)

-- `status && statusCodes.includes(status)`; a status of 0 counts as false.
abbrev has_code : Option ℕ → List ℕ → Bool
has_code none codes = false
has_code (some status) codes = not (status == 0) && any (λ c. c == status) codes

unfoldable pub is_retryable_error : Thrown → List ℕ → Bool
is_retryable_error (error status status_code message) codes =
    has_code (or_else status status_code) codes
    || includes message "ECONNRESET"
    || includes message "ETIMEDOUT"
    || includes message "ECONNREFUSED"
    || includes message "fetch failed"
is_retryable_error other codes = false

-- How one call of `fn` settles.
pub data Attempt (T : Type 0) : Type 0 where
  resolved : T → Attempt T
  rejected : Thrown → Attempt T

-- `threw none` is the `throw lastError` after the loop, with `lastError` never assigned.
pub data Outcome (T : Type 0) : Type 0 where
  returned : T → Outcome T
  threw : Option Thrown → Outcome T

-- The outcome, the number of calls of `fn`, and the delays slept, in order.
pub record Run (T : Type 0) : Type 0 where
  pub outcome : Outcome T
  pub calls : ℕ
  pub delays : List ℕ

unfoldable pub delay_after : RetryOptions → ℕ → ℕ
delay_after opts attempt = min (opts.base_delay_ms * 2 ^ attempt) opts.max_delay_ms

-- `attempt >= opts.maxRetries || !isRetryableError(error, ...)`.
unfoldable pub gives_up : RetryOptions → ℕ → Thrown → Bool
gives_up opts attempt e =
    leb opts.max_retries attempt || not (is_retryable_error e opts.retryable_status_codes)

-- `fn k` is how the call of round `k` settles.
module _ {T : Type 0} (opts : RetryOptions) (fn : ℕ → Attempt T) where
  -- The `for` loop, by recursion on the rounds left.
  unfoldable pub retry_loop : (left attempt : ℕ) → Option Thrown → List ℕ → Run T
  retry_loop zero attempt last delays = record {
    outcome = threw last;
    calls = attempt;
    delays = delays;
  }
  retry_loop (suc left) attempt last delays = elim (fn attempt) [
    | resolved v ↦ record { outcome = returned v; calls = attempt + 1; delays = delays }
    | rejected e ↦
        let next =
          retry_loop left (attempt + 1) (some e) (delays ++ delay_after opts attempt ∷ []) in
        if gives_up opts attempt e
        then record { outcome = threw (some e); calls = attempt + 1; delays = delays }
        else next
  ]

  unfoldable pub with_retry : Run T
  unfolding retry_loop
  with_retry = retry_loop (opts.max_retries + 1) 0 none []
