-- ===== src/Agents/Retry/Laws.antt =====
-- How often `withRetry` calls the function, when it stops, and how long it waits.
use bolder_vibes_backend.Common.{
  ℕ, zero, suc, ◌+◌, ◌*◌, ◌^◌, ◌≤◌, ◌<◌, min, ◌≡◌, refl, sym, ap, ◌≢◌, ◌↔◌, ◌⊎◌, inl, inr, true,
  false, Option, none, some, List, [], ◌∷◌, ◌++◌, arith, Bool-cases, subst, length, length-append,
  All, All-append,
}
use native.Mathlib.Numerals.{add-one}
use native.Mathlib.Decide.{ℕ_discrete, dec_le}
use bolder_vibes_backend.Agents.Retry.{
  RetryOptions, Thrown, Attempt, resolved, rejected, returned, threw, Run, is_retryable_error,
  delay_after, gives_up, retry_loop, with_retry,
}

-- The delays after the first `n` attempts, as the options describe them.
abbrev pub backoff : RetryOptions → ℕ → List ℕ
backoff opts zero = []
backoff opts (suc n) = backoff opts n ++ min (opts.base_delay_ms * 2 ^ n) opts.max_delay_ms ∷ []

module _ {T : Type 0} (opts : RetryOptions) (fn : ℕ → Attempt T) where
  -- Attempt `j` fails with an error that another attempt may cure.
  abbrev pub IsRetried : ℕ → Type 0
  IsRetried j =
      (e : Thrown) × (fn j ≡ rejected e) × (is_retryable_error e opts.retryable_status_codes ≡ true)

  -- Attempt `k` is the first that settles the run: the earlier ones are retried.
  abbrev pub IsReached : ℕ → Type 0
  IsReached k = (k ≤ opts.max_retries) × ((j : ℕ) → j < k → IsRetried j)

  Attempt-cases : (k : ℕ) → ((v : T) × (fn k ≡ resolved v)) ⊎ ((e : Thrown) × (fn k ≡ rejected e))
  Attempt-cases k = go (fn k) refl
    where
      go :
          (a : Attempt T)
          → fn k ≡ a
          → ((v : T) × (fn k ≡ resolved v)) ⊎ ((e : Thrown) × (fn k ≡ rejected e))
      go (resolved v) p = inl (v, p)
      go (rejected e) p = inr (e, p)

  IsRetried-of :
      (k : ℕ) (e : Thrown)
      → fn k ≡ rejected e
      → gives_up opts k e ≡ false
      → (k < opts.max_retries) × IsRetried k
  unfolding gives_up
  IsRetried-of k e p g = (ground arith, (e, p, ground arith))

  -- What a run from `attempt` on does: it ends in an attempt `k` that is reached, and waits between.
  record Ends (left attempt : ℕ) (r : Run T) : Type 0 where
    k : ℕ
    below : k < attempt + left
    calls : r.calls ≡ suc k
    delays : r.delays ≡ backoff opts k
    earlier : (j : ℕ) → attempt ≤ j → j < k → IsRetried j
    settled :
        ((v : T) × (fn k ≡ resolved v) × (r.outcome ≡ returned v))
        ⊎ ((e : Thrown) × (fn k ≡ rejected e)
            × (gives_up opts k e ≡ true)
            × (r.outcome ≡ threw (some e)))

  backoff_step : (k : ℕ) → backoff opts k ++ delay_after opts k ∷ [] ≡ backoff opts (k + 1)
  unfolding delay_after
  backoff_step k = rw add-one

  -- A round that settles the run.
  Ends-here :
      (left attempt : ℕ) (r : Run T)
      → r.calls ≡ attempt + 1
      → r.delays ≡ backoff opts attempt
      → ((v : T) × (fn attempt ≡ resolved v) × (r.outcome ≡ returned v))
        ⊎ ((e : Thrown) × (fn attempt ≡ rejected e)
            × (gives_up opts attempt e ≡ true)
            × (r.outcome ≡ threw (some e)))
      → Ends (suc left) attempt r
  Ends-here left attempt r c d s = record {
    k = attempt;
    below = omega arith;
    calls = omega arith;
    delays = d;
    earlier = λ j lo hi. absurd (omega arith);
    settled = s;
  }

  -- A round that is retried, before a run that ends.
  Ends-later :
      (left attempt : ℕ) (r : Run T)
      → IsRetried attempt
      → Ends left (attempt + 1) r
      → Ends (suc left) attempt r
  Ends-later left attempt r here later = record {
    k = later.k;
    below = omega arith;
    calls = later.calls;
    delays = later.delays;
    earlier = λ j lo hi. elim (ℕ_discrete j attempt) [
      | yes e ↦ subst IsRetried (sym e) here
      | no ne ↦ later.earlier j (omega arith) hi
    ];
    settled = later.settled;
  }

  gives_up_last : (k : ℕ) (e : Thrown) → opts.max_retries ≤ k → gives_up opts k e ≡ true
  unfolding gives_up
  gives_up_last k e h = ground arith

  gives_up_why :
      (k : ℕ) (e : Thrown)
      → k ≤ opts.max_retries
      → gives_up opts k e ≡ true
      → (k ≡ opts.max_retries) ⊎ (is_retryable_error e opts.retryable_status_codes ≡ false)
  unfolding gives_up
  gives_up_why k e h g = ground arith

  module _ (left attempt : ℕ) (last : Option Thrown) (delays : List ℕ) where
    loop_resolved :
        (v : T)
        → fn attempt ≡ resolved v
        → retry_loop opts fn (suc left) attempt last delays
          ≡ record { outcome = returned v; calls = attempt + 1; delays = delays }
    unfolding retry_loop
    loop_resolved v p = ground arith

    loop_given_up :
        (e : Thrown)
        → fn attempt ≡ rejected e
        → gives_up opts attempt e ≡ true
        → retry_loop opts fn (suc left) attempt last delays
          ≡ record { outcome = threw (some e); calls = attempt + 1; delays = delays }
    unfolding retry_loop
    loop_given_up e p g = ground arith

    loop_retried :
        (e : Thrown)
        → fn attempt ≡ rejected e
        → gives_up opts attempt e ≡ false
        → retry_loop opts fn (suc left) attempt last delays
          ≡ retry_loop opts fn left (attempt + 1) (some e) (delays ++ delay_after opts attempt ∷ [])
    unfolding retry_loop
    loop_retried e p g = ground arith

  settled_here :
      (left attempt : ℕ) (last : Option Thrown) (e : Thrown)
      → fn attempt ≡ rejected e
      → gives_up opts attempt e ≡ true
      → Ends (suc left) attempt (retry_loop opts fn (suc left) attempt last (backoff opts attempt))
  settled_here left attempt last e p g =
      rw (loop_given_up left attempt last (backoff opts attempt) e p g)
        (Ends-here left attempt _ refl refl (inr (e, p, g, refl)))

  retry_loop-Ends :
      (left attempt : ℕ) (last : Option Thrown)
      → attempt + left ≡ opts.max_retries
      → Ends (suc left) attempt (retry_loop opts fn (suc left) attempt last (backoff opts attempt))
  retry_loop-Ends zero attempt last h = elim (Attempt-cases attempt) [
    | inl (v, p) ↦
        rw (loop_resolved 0 attempt last (backoff opts attempt) v p)
          (Ends-here 0 attempt _ refl refl (inl (v, p, refl)))
    | inr (e, p) ↦ settled_here 0 attempt last e p (gives_up_last attempt e (omega arith))
  ]
  retry_loop-Ends (suc left) attempt last h = elim (Attempt-cases attempt) [
    | inl (v, p) ↦
        rw (loop_resolved (suc left) attempt last (backoff opts attempt) v p)
          (Ends-here (suc left) attempt _ refl refl (inl (v, p, refl)))
    | inr (e, p) ↦ elim (Bool-cases (gives_up opts attempt e)) [
      | inl g ↦ settled_here (suc left) attempt last e p g
      | inr g ↦ rw (loop_retried (suc left) attempt last (backoff opts attempt) e p g) (
          rw (backoff_step attempt) (
            Ends-later (suc left) attempt _ (IsRetried-of attempt e p g).1
              (retry_loop-Ends left (attempt + 1) (some e) (omega arith))))
    ]
  ]

  with_retry-Ends : Ends (suc opts.max_retries) 0 (with_retry opts fn)
  unfolding with_retry
  with_retry-Ends = rw add-one (retry_loop-Ends opts.max_retries 0 none (omega arith))

  -- A run calls the function until an attempt settles it: one that resolves, one whose error is not
  -- retryable, or attempt number `max_retries`. It waits after each earlier attempt, by the backoff.
  pub with_retry_settles :
      let r = with_retry opts fn in
      (k : ℕ) × IsReached k
      × (r.calls ≡ k + 1)
      × (r.delays ≡ backoff opts k)
      × (((v : T) × (fn k ≡ resolved v) × (r.outcome ≡ returned v))
          ⊎ ((e : Thrown) × (fn k ≡ rejected e)
              × ((k ≡ opts.max_retries)
                  ⊎ (is_retryable_error e opts.retryable_status_codes ≡ false))
              × (r.outcome ≡ threw (some e))))
  with_retry_settles =
      let r = with_retry-Ends in
      (
        r.k,
        (omega (arith, r.below), λ j lt. r.earlier j (omega arith) lt),
        omega (arith, r.calls),
        r.delays,
        elim r.settled [
          | inl s ↦ inl s
          | inr (e, p, g, o) ↦ inr (e, p, gives_up_why r.k e (omega (arith, r.below)) g, o)
        ],
      )

  -- Two attempts cannot both be the first that resolves.
  reached-resolved_le : (k n : ℕ) (v : T) → fn k ≡ resolved v → IsReached n → n ≤ k
  reached-resolved_le k n v p h = elim (dec_le n k) [
    | yes le ↦ le
    | no gt ↦ let (e, q, _) = h.1 k (omega arith) in cc
  ]

  -- Nor does an attempt that ends the run with an error come before it.
  reached-thrown_not :
      (k n : ℕ) (v : T) (e : Thrown)
      → fn k ≡ resolved v
      → IsReached k
      → fn n ≡ rejected e
      → n ≤ k
      → (n ≡ opts.max_retries) ⊎ (is_retryable_error e opts.retryable_status_codes ≡ false)
      → ⊥
  reached-thrown_not k n v e p h q le why = elim (dec_le k n) [
    | yes ge ↦ let same : k ≡ n = omega arith in cc (ap fn same)
    | no lt ↦ let (e', q', r) = h.1 n (omega arith) in ground arith
  ]

  -- The run returns a value exactly when some attempt within the limit resolves with it and all
  -- earlier attempts fail with retryable errors.
  with_retry-returned_iff :
      (v : T)
      → ((with_retry opts fn).outcome ≡ returned v) ↔ ((k : ℕ) × IsReached k × (fn k ≡ resolved v))
  with_retry-returned_iff v = (sound, complete)
    where
      sound :
          (with_retry opts fn).outcome ≡ returned v → (k : ℕ) × IsReached k × (fn k ≡ resolved v)
      sound o =
          let (k, h, _, _, s) = with_retry_settles in
          elim s [ inl (w, p, q) ↦ (k, h, cc) | inr (e, p, why, q) ↦ cc ]

      complete :
          ((k : ℕ) × IsReached k × (fn k ≡ resolved v)) → (with_retry opts fn).outcome ≡ returned v
      complete (k, h, p) =
          let (n, hn, _, _, s) = with_retry_settles in
          let le = reached-resolved_le k n v p hn in
          elim s [
            | inl (w, q, o) ↦
                let same : k ≡ n = omega (arith, reached-resolved_le n k w q h) in cc (ap fn same)
            | inr (e, q, why, o) ↦ absurd (reached-thrown_not k n v e p h q le why)
          ]

  length-backoff : (n : ℕ) → length (backoff opts n) ≡ n
  unfolding delay_after
  length-backoff zero = refl
  length-backoff (suc n) =
      omega (arith, length-append (backoff opts n) (delay_after opts n ∷ []), length-backoff n)

  backoff-All : (n : ℕ) → All (λ d. d ≤ opts.max_delay_ms) (backoff opts n)
  backoff-All zero = tt
  backoff-All (suc n) =
      All-append (λ d. d ≤ opts.max_delay_ms) (backoff opts n) _ (backoff-All n) (omega arith, tt)

  -- A run makes at least one call and at most `max_retries + 1`, sleeps once between two calls, never
  -- longer than `max_delay_ms`, and never reaches the `throw lastError` after the loop.
  with_retry_bounds :
      let r = with_retry opts fn in
      (1 ≤ r.calls)
      × (r.calls ≤ opts.max_retries + 1)
      × (length r.delays + 1 ≡ r.calls)
      × All (λ d. d ≤ opts.max_delay_ms) r.delays
      × (r.outcome ≢ threw none)
  with_retry_bounds =
      let (k, h, calls, delays, s) = with_retry_settles in
      (
        omega arith,
        omega arith,
        rw delays (omega (arith, length-backoff k)),
        rw delays (backoff-All k),
        λ bad. elim s [ inl (w, p, q) ↦ cc | inr (e, p, why, q) ↦ cc ],
      )
