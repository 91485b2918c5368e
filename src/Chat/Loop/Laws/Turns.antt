-- ===== src/Chat/Loop/Laws/Turns.antt =====
-- One round of the agentic loop of src/conversations/chat-ai.service.ts, by what it does next.
use bolder_vibes_backend.Common.{
  ℕ, suc, ◌+◌, ◌≤◌, String, ◌≡◌, refl, inl, inr, Bool, true, false, Option, List, [], ◌∷◌, ◌++◌,
  map, any, arith, ltb, any-append, Bool-cases, ◌⊎◌,
}
use bolder_vibes_backend.Chat.Loop.{
  init_aborted, ToolInput, Block, ChatMessage, assistant, go_on, tool_results, FileOperation,
  ChatEvent, delta, limit_reached, Reply, Round, is_tool_use, Ending, stopped, Run, run_tools,
  leaving, going_on, after_loop, run_loop, max_truncation_continuations, truncated_repeatedly,
  answered, aborted, gave_up, init_failed, request_failed, failed, stream_aborted, stream_failed,
  stream_error, final_failed, response_incomplete,
}

abbrev pub is_limit_reached : ChatEvent → Bool
is_limit_reached (limit_reached n) = true
is_limit_reached (delta t) = false
is_limit_reached (ChatEvent.request_failed e) = false
is_limit_reached (ChatEvent.stream_error e) = false
is_limit_reached (ChatEvent.response_incomplete e) = false
is_limit_reached truncated_repeatedly = false
is_limit_reached (ChatEvent.file_operation op) = false

-- The ways out of the code that come by the condition of the `while`, or by the `break`.
abbrev pub leaves_while : Ending → Bool
leaves_while Ending.stopped = true
leaves_while Ending.exhausted = true
leaves_while Ending.aborted = false
leaves_while Ending.failed = false
leaves_while Ending.gave_up = false

pub no_limit_in-deltas : (ds : List String) → any is_limit_reached (map delta ds) ≡ false
no_limit_in-deltas [] = refl
no_limit_in-deltas (d ∷ ds) = no_limit_in-deltas ds

module _ {S : Type 0} (ask : List ChatMessage → Round)
    (execute : String → ToolInput → S → (String × Option FileOperation) × S) where
  -- What the round of a conversation leads to.
  pub data Turn (max_iterations left truncations : ℕ) (messages : List ChatMessage) (s : S)
      : Type 0 where
    quits :
        (r : Run S)
        → run_loop ask execute max_iterations (suc left) truncations messages s ≡ r
        → (r.asked ≡ messages ∷ []) ⊎ (r.asked ≡ [])
        → any is_limit_reached r.events ≡ false
        → leaves_while r.ending ≡ false
        → Turn max_iterations left truncations messages s
    stops :
        (ds : List String)
        → run_loop ask execute max_iterations (suc left) truncations messages s
          ≡ leaving ask execute
              (map delta ds ++ after_loop ask execute left max_iterations)
              stopped
              messages
              s
        → Turn max_iterations left truncations messages s
    continues :
        (ds : List String) (content : List Block)
        → any is_tool_use content ≡ false
        → truncations + 1 ≤ max_truncation_continuations
        → run_loop ask execute max_iterations (suc left) truncations messages s
          ≡ going_on ask execute (map delta ds) messages (
              run_loop ask execute max_iterations left
                (truncations + 1)
                (messages ++ assistant content ∷ go_on ∷ [])
                s)
        → Turn max_iterations left truncations messages s
    calls :
        (ds : List String) (content : List Block)
        → any is_tool_use content ≡ true
        → run_loop ask execute max_iterations (suc left) truncations messages s ≡ (
            let tools = run_tools ask execute content s in
            going_on ask execute (map delta ds ++ tools.operations) messages (
              run_loop ask execute max_iterations left 0
                (messages ++ assistant content ∷ tool_results tools.results ∷ [])
                tools.state))
        → Turn max_iterations left truncations messages s

  no_limit_after-deltas :
      (ds : List String) (e : ChatEvent)
      → is_limit_reached e ≡ false
      → any is_limit_reached (map delta ds ++ e ∷ []) ≡ false
  no_limit_after-deltas ds e h =
      ground (arith, any-append is_limit_reached (map delta ds) (e ∷ []), no_limit_in-deltas ds)

  module _ (max_iterations left truncations : ℕ) (messages : List ChatMessage) (s : S)
      (starts : (ask messages).aborted_at_start ≡ false) where
    Turn-calls :
        (ds : List String) (content : List Block) (max_tokens : Bool)
        → (ask messages).reply ≡ answered ds content max_tokens
        → any is_tool_use content ≡ true
        → Turn max_iterations left truncations messages s
    unfolding run_loop
    Turn-calls ds content max_tokens e tools =
        elim (Bool-cases (ask messages).aborted_before_tools) [
          | inl aborts ↦
              quits (leaving ask execute (map delta ds) aborted messages s) (ground arith)
                (inl refl) (no_limit_in-deltas ds) refl
          | inr runs ↦ calls ds content tools (ground arith)
        ]

    Turn-text :
        (ds : List String) (content : List Block) (max_tokens : Bool)
        → (ask messages).reply ≡ answered ds content max_tokens
        → any is_tool_use content ≡ false
        → Turn max_iterations left truncations messages s
    unfolding run_loop
    Turn-text ds content false e plain = stops ds (ground arith)
    Turn-text ds content true e plain =
        elim (Bool-cases (ltb max_truncation_continuations (truncations + 1))) [
          | inl over ↦
              quits
                (leaving ask execute (map delta ds ++ truncated_repeatedly ∷ []) gave_up messages s)
                (ground arith) (inl refl) (no_limit_after-deltas ds truncated_repeatedly refl) refl
          | inr under ↦ continues ds content plain (ground arith) (ground arith)
        ]

    Turn-reply :
        (reply : Reply)
        → (ask messages).reply ≡ reply
        → Turn max_iterations left truncations messages s
    unfolding run_loop
    Turn-reply init_aborted e =
        quits (leaving ask execute [] aborted messages s) (ground arith) (inl refl) refl refl
    Turn-reply (init_failed m) e =
        quits (leaving ask execute (request_failed m ∷ []) failed messages s) (ground arith)
          (inl refl) refl refl
    Turn-reply (stream_aborted ds) e =
        quits (leaving ask execute (map delta ds) aborted messages s) (ground arith) (inl refl)
          (no_limit_in-deltas ds) refl
    Turn-reply (stream_failed ds m) e =
        quits (leaving ask execute (map delta ds ++ stream_error m ∷ []) failed messages s)
          (ground arith) (inl refl) (no_limit_after-deltas ds (stream_error m) refl) refl
    Turn-reply (final_failed ds m) e =
        quits (leaving ask execute (map delta ds ++ response_incomplete m ∷ []) failed messages s)
          (ground arith) (inl refl) (no_limit_after-deltas ds (response_incomplete m) refl) refl
    Turn-reply (answered ds content max_tokens) e = elim (Bool-cases (any is_tool_use content)) [
      | inl tools ↦ Turn-calls ds content max_tokens e tools
      | inr plain ↦ Turn-text ds content max_tokens e plain
    ]

  pub Turn-of :
      (max_iterations left truncations : ℕ) (messages : List ChatMessage) (s : S)
      → Turn max_iterations left truncations messages s
  unfolding run_loop
  Turn-of max_iterations left truncations messages s =
      elim (Bool-cases (ask messages).aborted_at_start) [
        | inl aborts ↦
            quits (record { events = []; asked = []; state = s; ending = aborted }) (ground arith)
              (inr refl) refl refl
        | inr starts ↦
            Turn-reply max_iterations left truncations messages s starts (ask messages).reply refl
      ]
