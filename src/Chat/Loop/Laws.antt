-- ===== src/Chat/Loop/Laws.antt =====
-- What the agentic loop of src/conversations/chat-ai.service.ts sends and yields.
pub mod Turns
use bolder_vibes_backend.Common.{
  ℕ, zero, suc, ◌+◌, ◌≤◌, String, ◌≡◌, refl, sym, ap, ◌∙◌, ◌↔◌, inl, inr, Bool, true, false, ◌||◌,
  Option, none, some, List, [], ◌∷◌, ◌++◌, map, any, arith, length, All, any-append,
}
use bolder_vibes_backend.Chat.Loop.{
  ToolInput, Block, text, tool_use, ChatMessage, assistant, go_on, tool_results, FileOperation,
  ChatEvent, Reply, answered, delta, limit_reached, Round, is_tool_use, Run, run_tools, run_loop,
  run_agentic_loop, after_loop, announce, leaving, going_on, stopped,
}
use bolder_vibes_backend.Chat.Loop.Laws.Turns.{
  Turn, Turn-of, quits, stops, continues, calls, is_limit_reached, leaves_while, no_limit_in-deltas,
}

-- The ids of the tool calls of an answer, in order.
abbrev pub tool_ids : List Block → List String
tool_ids [] = []
tool_ids (text t ∷ bs) = tool_ids bs
tool_ids (tool_use id name input ∷ bs) = id ∷ tool_ids bs

-- What may follow the history: pairs of an answer of the model and a message to it. An answer with
-- tool calls is followed by exactly their results, in order, and one without by the request to go on.
pub data WellFormed (start : List ChatMessage) : List ChatMessage → Type 0 where
  begins : WellFormed start start
  went_on :
      {messages : List ChatMessage} (content : List Block)
      → WellFormed start messages
      → any is_tool_use content ≡ false
      → WellFormed start (messages ++ assistant content ∷ go_on ∷ [])
  used_tools :
      {messages : List ChatMessage} (content : List Block) (results : List (String × String))
      → WellFormed start messages
      → any is_tool_use content ≡ true
      → map (λ r. r.0) results ≡ tool_ids content
      → WellFormed start (messages ++ assistant content ∷ tool_results results ∷ [])

module _ {S : Type 0} (ask : List ChatMessage → Round)
    (execute : String → ToolInput → S → (String × Option FileOperation) × S) where
  run_tools-ids :
      (content : List Block) (s : S)
      → map (λ r. r.0) (run_tools ask execute content s).results ≡ tool_ids content
  unfolding run_tools
  run_tools-ids [] s = refl
  run_tools-ids (text t ∷ bs) s = run_tools-ids bs s
  run_tools-ids (tool_use id name input ∷ bs) s =
      ap (λ rest. id ∷ rest) (run_tools-ids bs (execute name input s).1)

  announced :
      (o : Option FileOperation) (es : List ChatEvent)
      → any is_limit_reached es ≡ false
      → any is_limit_reached (announce o es) ≡ false
  announced none es h = h
  announced (some op) es h = h

  run_tools-no_limit :
      (content : List Block) (s : S)
      → any is_limit_reached (run_tools ask execute content s).operations ≡ false
  unfolding run_tools
  run_tools-no_limit [] s = refl
  run_tools-no_limit (text t ∷ bs) s = run_tools-no_limit bs s
  run_tools-no_limit (tool_use id name input ∷ bs) s =
      announced (execute name input s).0.1 _ (run_tools-no_limit bs (execute name input s).1)

  asked-none :
      (max_iterations truncations : ℕ) (messages : List ChatMessage) (s : S)
      → (run_loop ask execute max_iterations zero truncations messages s).asked ≡ []
  unfolding run_loop
  asked-none max_iterations truncations messages s = refl

  sent-WellFormed :
      (max_iterations left truncations : ℕ) (start messages : List ChatMessage) (s : S)
      → WellFormed start messages
      → All
          (WellFormed start)
          (run_loop ask execute max_iterations left truncations messages s).asked
  sent-WellFormed max_iterations zero truncations start messages s w =
      rw (asked-none max_iterations truncations messages s) tt
  sent-WellFormed max_iterations (suc left) truncations start messages s w =
      elim (Turn-of ask execute max_iterations left truncations messages s) [
        | quits r e (inl one) _ _ ↦ rw (e, one) (w, tt)
        | quits r e (inr nothing) _ _ ↦ rw (e, nothing) tt
        | stops ds e ↦ rw e (w, tt)
        | continues ds content plain _ e ↦ rw e (
          w,
          sent-WellFormed max_iterations left (truncations + 1) start _ s (went_on content w plain),
        )
        | calls ds content tools e ↦ rw e (
          w,
          sent-WellFormed max_iterations left 0 start _ _
              (used_tools content _ w tools (run_tools-ids content s)),
        )
      ]

  -- Every conversation that the loop sends to the model is well formed: after the history, an answer
  -- with tool calls is followed by the results of exactly these calls, in order, and an answer that
  -- was cut off by the request to go on.
  pub asked-WellFormed :
      (messages : List ChatMessage) (s : S)
      → All (WellFormed messages) (run_agentic_loop ask execute messages s).asked
  unfolding run_agentic_loop
  asked-WellFormed messages s = sent-WellFormed 25 25 0 messages messages s begins

  -- With that many rounds left: the number of requests, and when the warning comes.
  abbrev Warns : ℕ → Run S → Type 0
  Warns left r =
      (length r.asked ≤ left)
      × ((any is_limit_reached r.events ≡ true)
          ↔ ((leaves_while r.ending ≡ true) × (length r.asked ≡ left)))

  quits-Warns :
      (left : ℕ) (r : Run S)
      → length r.asked ≤ suc left
      → any is_limit_reached r.events ≡ false
      → leaves_while r.ending ≡ false
      → Warns (suc left) r
  quits-Warns left r bound quiet out = (bound, (λ w. cc, λ (w, n). cc))

  stops-Warns :
      (max_iterations left : ℕ) (ds : List String) (messages : List ChatMessage) (s : S)
      → Warns (suc left) (
          leaving ask execute
            (map delta ds ++ after_loop ask execute left max_iterations)
            stopped
            messages
            s)
  stops-Warns max_iterations zero ds messages s = (
    omega arith,
    (
      λ w. (refl, refl),
      λ w.
          ground
            (arith, any-append is_limit_reached (map delta ds) (limit_reached max_iterations ∷ [])),
    ),
  )
  stops-Warns max_iterations (suc left) ds messages s = (
    omega arith,
    (
      λ w. ground (arith, any-append is_limit_reached (map delta ds) [], no_limit_in-deltas ds),
      λ (w, n). absurd (omega (arith, n)),
    ),
  )

  going_on-Warns :
      (left : ℕ) (es : List ChatEvent) (messages : List ChatMessage) (r : Run S)
      → any is_limit_reached es ≡ false
      → Warns left r
      → Warns (suc left) (going_on ask execute es messages r)
  going_on-Warns left es messages r quiet (bound, (there, back)) =
      let split = any-append is_limit_reached es r.events in
      (
        omega arith,
        (
          λ w. let (l, n) = there (ground arith) in (l, ap suc n),
          λ (l, n). let w = back (l, omega (arith, n)) in ground arith,
        ),
      )

  exhausted-Warns :
      (max_iterations truncations : ℕ) (messages : List ChatMessage) (s : S)
      → Warns zero (run_loop ask execute max_iterations zero truncations messages s)
  unfolding run_loop
  exhausted-Warns max_iterations truncations messages s =
      (omega arith, (λ w. (refl, refl), λ w. refl))

  run_loop-Warns :
      (max_iterations left truncations : ℕ) (messages : List ChatMessage) (s : S)
      → Warns left (run_loop ask execute max_iterations left truncations messages s)
  run_loop-Warns max_iterations zero truncations messages s =
      exhausted-Warns max_iterations truncations messages s
  run_loop-Warns max_iterations (suc left) truncations messages s =
      elim (Turn-of ask execute max_iterations left truncations messages s) [
        | quits r e (inl one) quiet out ↦ rw e (quits-Warns left r (rw one (omega arith)) quiet out)
        | quits r e (inr nothing) quiet out ↦
            rw e (quits-Warns left r (rw nothing (omega arith)) quiet out)
        | stops ds e ↦ rw e (stops-Warns max_iterations left ds messages s)
        | continues ds content plain _ e ↦ rw e (
            going_on-Warns left (map delta ds) messages
              (run_loop ask execute max_iterations left (truncations + 1)
                (messages ++ assistant content ∷ go_on ∷ []) s)
              (no_limit_in-deltas ds)
              (run_loop-Warns max_iterations left (truncations + 1)
                (messages ++ assistant content ∷ go_on ∷ []) s))
        | calls ds content tools e ↦
            let t = run_tools ask execute content s in
            rw e (
              going_on-Warns left (map delta ds ++ t.operations) messages
                (run_loop ask execute max_iterations left 0
                  (messages ++ assistant content ∷ tool_results t.results ∷ []) t.state)
                (ground (
                  arith,
                  any-append is_limit_reached (map delta ds) t.operations,
                  no_limit_in-deltas ds,
                  run_tools-no_limit content s,
                ))
                (run_loop-Warns max_iterations left 0
                  (messages ++ assistant content ∷ tool_results t.results ∷ []) t.state))
      ]

  -- At most 25 requests are made. The warning that the limit is reached is yielded exactly when the
  -- loop was left by its condition or by the `break` after the 25th request: a reply that is finished
  -- in the 25th round is followed by the warning too.
  pub limit_reached_iff :
      (messages : List ChatMessage) (s : S)
      → let r = run_agentic_loop ask execute messages s in
        (length r.asked ≤ 25)
        × ((any is_limit_reached r.events ≡ true)
            ↔ ((leaves_while r.ending ≡ true) × (length r.asked ≡ 25)))
  unfolding run_agentic_loop
  limit_reached_iff messages s = run_loop-Warns 25 25 0 messages s
