-- ===== src/Sandbox/Preview/Waits.antt =====
-- `waitForReady` and `waitForDatabase` of src/sandbox/preview/preview.service.ts: loops that ask again
-- until a timeout.
use bolder_vibes_backend.Common.{
  ℕ, zero, suc, ◌+◌, ◌/◌, ◌==◌, ==_iff, subst, ◌≤◌, ◌<◌, String, ◌≡◌, ◌≢◌, Bool, true, false, ◌||◌,
  Option, none, some, arith, if◌then◌else◌, ltb, Bool-cases, inl, inr, ◌↔◌, ◌⊎◌, ◌==◌, ==_iff,
  ltb→lt, ap, ◌*◌,
}
use bolder_vibes_backend.Agents.Retry.{includes}

lt_cases : (m k : ℕ) → (m < k) ⊎ ((m ≡ k) ⊎ (k < m))
lt_cases m k = elim (Bool-cases (ltb m k)) [
  | inl lt ↦ inl (ltb→lt m k lt)
  | inr ge ↦ elim (Bool-cases (m == k)) [
    | inl e ↦ inr (inl ((==_iff m k).0 e))
    | inr ne ↦ inr (inr (ground arith))
  ]
]

-- How a wait ends, and in which round.
pub data Wait : Type 0 where
  out_of_fuel : Wait
  came : ℕ → Wait
  timed_out : ℕ → Wait

abbrev pub questions : Wait → ℕ
questions out_of_fuel = 0
questions (came k) = k + 1
questions (timed_out k) = k

-- `while (Date.now() - start < timeoutMs) { ask; sleep }`: `clock k` is the time that has passed when
-- round `k` begins, `accepted k` whether its answer will do.
pub ask_until : (timeout : ℕ) (clock : ℕ → ℕ) (accepted : ℕ → Bool) → ℕ → ℕ → Wait
ask_until timeout clock accepted zero k = out_of_fuel
ask_until timeout clock accepted (suc fuel) k =
    let rest = ask_until timeout clock accepted fuel (suc k) in
    if ltb (clock k) timeout then (if accepted k then came k else rest) else timed_out k

-- What `fetch` answers, or `none` where it throws.
pub record Answer : Type 0 where
  pub is_2xx : Bool
  pub status : ℕ

abbrev pub answers_http : Option Answer → Bool
answers_http none = false
answers_http (some a) = a.is_2xx || ltb a.status 500

-- `pg_isready`, or `none` where the command fails.
abbrev pub accepts_connections : Option String → Bool
accepts_connections none = false
accepts_connections (some stdout) = includes stdout "accepting connections"

-- A round of `waitForReady` takes at least 500 ms, one of `waitForDatabase` at least 1000 ms.
pub wait_for_ready : (timeout : ℕ) (clock : ℕ → ℕ) → (ℕ → Option Answer) → Wait
wait_for_ready timeout clock answers =
    ask_until timeout clock (λ k. answers_http (answers k)) (suc (timeout / 500 + 1)) 0

pub wait_for_database : (timeout : ℕ) (clock : ℕ → ℕ) → (ℕ → Option String) → Wait
wait_for_database timeout clock answers =
    ask_until timeout clock (λ k. accepts_connections (answers k)) (suc (timeout / 1000 + 1)) 0

-- The sleep at the end of a round: a timer does not fire early.
abbrev pub SleepsFor : ℕ → (ℕ → ℕ) → Type 0
SleepsFor interval clock = (k : ℕ) → clock k + interval ≤ clock (suc k)

-- The first answer that will do comes in round `k`, before the timeout.
abbrev pub FirstAccepted : (timeout : ℕ) (clock : ℕ → ℕ) → (ℕ → Bool) → ℕ → Type 0
FirstAccepted timeout clock accepted k =
    (clock k < timeout) × (accepted k ≡ true) × ((j : ℕ) → j < k → accepted j ≡ false)

module _ (timeout : ℕ) (clock : ℕ → ℕ) (accepted : ℕ → Bool) where
  -- What the end of a wait from round `k` on says.
  abbrev Settled : ℕ → ℕ → Wait → Type 0
  Settled last k out_of_fuel = ⊥
  Settled last k (came m) =
      (k ≤ m)
      × (m < last)
      × (clock m < timeout)
      × (accepted m ≡ true)
      × ((j : ℕ) → k ≤ j → j < m → accepted j ≡ false)
  Settled last k (timed_out m) =
      (m ≤ last) × (timeout ≤ clock m) × ((j : ℕ) → k ≤ j → j < m → accepted j ≡ false)

  Settled-suc :
      (last k : ℕ) (w : Wait) → accepted k ≡ false → Settled last (suc k) w → Settled last k w
  Settled-suc last k out_of_fuel refused h = h
  Settled-suc last k (came m) refused (after, before, soon, yes', others) = (
    omega arith,
    before,
    soon,
    yes',
    λ j lo hi. elim (Bool-cases (j == k)) [
      | inl e ↦ rw ((==_iff j k).0 e) refused
      | inr ne ↦ others j (ground arith) hi
    ],
  )
  Settled-suc last k (timed_out m) refused (before, late, others) = (
    before,
    late,
    λ j lo hi. elim (Bool-cases (j == k)) [
      | inl e ↦ rw ((==_iff j k).0 e) refused
      | inr ne ↦ others j (ground arith) hi
    ],
  )

  -- With the timeout passed in round `last` at the latest, the fuel up to it suffices.
  ask_until-Settled :
      (fuel k last : ℕ)
      → k + fuel ≡ last
      → timeout ≤ clock last
      → Settled last k (ask_until timeout clock accepted (suc fuel) k)
  unfolding ask_until
  ask_until-Settled zero k last e late =
      let late' : timeout ≤ clock k = subst (λ i. timeout ≤ clock i) (omega arith) late in
      let over : ltb (clock k) timeout ≡ false = ground arith in
      rw over (omega arith, late', λ j lo hi. absurd (omega arith))
  ask_until-Settled (suc fuel) k last e late = elim (Bool-cases (ltb (clock k) timeout)) [
    | inr over ↦ rw over (omega arith, ground arith, λ j lo hi. absurd (omega arith))
    | inl soon ↦ elim (Bool-cases (accepted k)) [
      | inl good ↦
          rw (soon, good)
            (omega arith, omega arith, ground arith, good, λ j lo hi. absurd (omega arith))
      | inr bad ↦
          rw (soon, bad)
            (Settled-suc last k _ bad (ask_until-Settled fuel (suc k) last (omega arith) late))
    ]
  ]

  module _ (monotone : (j k : ℕ) → j ≤ k → clock j ≤ clock k) where
    came_iff :
        (last k : ℕ) (w : Wait)
        → Settled last 0 w
        → (w ≡ came k) ↔ FirstAccepted timeout clock accepted k
    came_iff last k out_of_fuel h = absurd h
    came_iff last k (came m) (after, before, soon, good, others) = (
      λ e.
          let e' : m ≡ k = cc in
          subst (FirstAccepted timeout clock accepted) e'
            (soon, good, λ j lt. others j (omega arith) lt),
      λ (soon', good', others'). ap came (elim (lt_cases m k) [
        | inl lt ↦ absurd (ground (arith, others' m lt))
        | inr (inl e) ↦ e
        | inr (inr gt) ↦ absurd (ground (arith, others k (omega arith) gt))
      ]),
    )
    came_iff last k (timed_out m) (before, late, others) = (
      λ e. cc,
      λ (soon', good', others'). elim (lt_cases m k) [
        | inl lt ↦ absurd (omega (arith, monotone m k (omega arith)))
        | inr (inl e) ↦ absurd (omega (arith, monotone m k (omega arith)))
        | inr (inr gt) ↦ absurd (ground (arith, others k (omega arith) gt))
      ],
    )

module _ (interval : ℕ) (clock : ℕ → ℕ) (sleeps : SleepsFor interval clock) where
  clock_grows : (k : ℕ) → k * interval ≤ clock k
  clock_grows zero = omega arith
  clock_grows (suc k) = grind (arith, sleeps k, clock_grows k)

  clock_monotone : (j k : ℕ) → j ≤ k → clock j ≤ clock k
  clock_monotone j zero h = let e : j ≡ 0 = omega arith in rw e (omega arith)
  clock_monotone j (suc k) h = elim (lt_cases j (suc k)) [
    | inl lt ↦ omega (arith, sleeps k, clock_monotone j k (omega arith))
    | inr (inl e) ↦ rw e (omega arith)
    | inr (inr gt) ↦ absurd (omega arith)
  ]

-- A wait ends within its rounds, and comes to the first answer that will do before the timeout.
abbrev pub Settles : (last timeout : ℕ) (clock : ℕ → ℕ) → (ℕ → Bool) → Wait → Type 0
Settles last timeout clock accepted w =
    (w ≢ out_of_fuel)
    × (questions w ≤ last)
    × ((k : ℕ) → (w ≡ came k) ↔ FirstAccepted timeout clock accepted k)

Settled-Settles :
    (timeout last : ℕ) (clock : ℕ → ℕ) (accepted : ℕ → Bool) (w : Wait)
    → ((j k : ℕ) → j ≤ k → clock j ≤ clock k)
    → Settled timeout clock accepted last 0 w
    → Settles last timeout clock accepted w
Settled-Settles timeout last clock accepted w monotone h =
    (ended w h, asked w h, λ k. came_iff timeout clock accepted monotone last k w h)
  where
    ended : (w : Wait) → Settled timeout clock accepted last 0 w → w ≢ out_of_fuel
    ended out_of_fuel h = absurd h
    ended (came m) h = λ e. cc
    ended (timed_out m) h = λ e. cc

    asked : (w : Wait) → Settled timeout clock accepted last 0 w → questions w ≤ last
    asked out_of_fuel h = absurd h
    asked (came m) h = omega arith
    asked (timed_out m) h = omega arith

-- If no sleep is shorter than it was asked to be, the wait for the server ends after at most one
-- question more than the half seconds of its timeout, and the wait for the database after one more
-- than the seconds; each comes to round `k` exactly if the first answer that will do is that of round
-- `k`, which begins before the timeout, and else it times out.
pub waits_settle :
    (timeout : ℕ) (clock clock' : ℕ → ℕ) (answers : ℕ → Option Answer) (outputs : ℕ → Option String)
    → SleepsFor 500 clock
    → SleepsFor 1000 clock'
    → Settles
        (timeout / 500 + 1)
        timeout
        clock
        (λ k. answers_http (answers k))
        (wait_for_ready timeout clock answers)
      × Settles
          (timeout / 1000 + 1)
          timeout
          clock'
          (λ k. accepts_connections (outputs k))
          (wait_for_database timeout clock' outputs)
unfolding wait_for_ready wait_for_database
waits_settle timeout clock clock' answers outputs sleeps sleeps' = (
  Settled-Settles timeout _ clock _ _ (clock_monotone 500 clock sleeps) (
      ask_until-Settled timeout clock _ (timeout / 500 + 1) 0 (timeout / 500 + 1) (omega arith)
        (omega (arith, clock_grows 500 clock sleeps (timeout / 500 + 1)))),
  Settled-Settles timeout _ clock' _ _ (clock_monotone 1000 clock' sleeps') (
      ask_until-Settled timeout clock' _ (timeout / 1000 + 1) 0 (timeout / 1000 + 1) (omega arith)
        (omega (arith, clock_grows 1000 clock' sleeps' (timeout / 1000 + 1)))),
)
