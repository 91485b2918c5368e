-- ===== src/Chat/Loop.antt =====
-- The agentic loop of src/conversations/chat-ai.service.ts: `runAgenticLoop`.
pub mod Laws
mod Tests
use bolder_vibes_backend.Common.{
  ℕ, zero, suc, ◌+◌, String, Bool, true, false, not, ◌&&◌, ◌||◌, Option, none, some, List, [], ◌∷◌,
  ◌++◌, map, any, ltb, if◌then◌else◌,
}

-- The arguments of a tool call.
pub record ToolInput : Type 0 where
  pub path : String
  pub content : String

pub data Block : Type 0 where
  text : String → Block
  tool_use : (id name : String) → ToolInput → Block

-- A message of the conversation: of the history, an answer of the model, the request to go on, and
-- the results of tools under the ids of their calls.
pub data ChatMessage : Type 0 where
  history : (from_user : Bool) → String → ChatMessage
  assistant : List Block → ChatMessage
  go_on : ChatMessage
  tool_results : List (String × String) → ChatMessage

-- What a tool did to a file; a file that was not there has no id.
pub data FileOperation : Type 0 where
  created : String → String → ℕ → FileOperation
  updated : String → String → ℕ → FileOperation
  deleted : String → Option ℕ → FileOperation

-- What the stream yields.
pub data ChatEvent : Type 0 where
  delta : String → ChatEvent
  request_failed : String → ChatEvent
  stream_error : String → ChatEvent
  response_incomplete : String → ChatEvent
  truncated_repeatedly : ChatEvent
  limit_reached : ℕ → ChatEvent
  file_operation : FileOperation → ChatEvent

-- How a request to the model goes: it fails at once, the stream ends early after some deltas (by an
-- abort or an error), the final message cannot be read, or there is one.
pub data Reply : Type 0 where
  init_aborted : Reply
  init_failed : String → Reply
  stream_aborted : List String → Reply
  stream_failed : List String → String → Reply
  final_failed : List String → String → Reply
  answered : List String → List Block → (max_tokens : Bool) → Reply

-- A round: whether the signal is aborted when it starts and before the tools run, and the reply.
pub record Round : Type 0 where
  pub aborted_at_start : Bool
  pub reply : Reply
  pub aborted_before_tools : Bool

abbrev pub is_tool_use : Block → Bool
is_tool_use (text s) = false
is_tool_use (tool_use id name input) = true

-- How a run ended: the `break`, one of the returns, or the condition of the `while`.
pub data Ending : Type 0 where
  stopped aborted failed gave_up exhausted : Ending

-- The events, the conversations that were sent, and the tools' state at the end. `ending` names the
-- way out of the code.
pub record Run (S : Type 0) : Type 0 where
  pub events : List ChatEvent
  pub asked : List (List ChatMessage)
  pub state : S
  pub ending : Ending

-- What the tools of one answer do.
pub record ToolsRun (S : Type 0) : Type 0 where
  pub results : List (String × String)
  pub operations : List ChatEvent
  pub state : S

abbrev pub announce : Option FileOperation → List ChatEvent → List ChatEvent
announce none es = es
announce (some op) es = file_operation op ∷ es

-- `MAX_TRUNCATION_CONTINUATIONS`.
abbrev pub max_truncation_continuations : ℕ
max_truncation_continuations = 3

module _ {S : Type 0} (ask : List ChatMessage → Round)
    (execute : String → ToolInput → S → (String × Option FileOperation) × S) where
  -- The loop over the blocks of an answer.
  unfoldable pub run_tools : List Block → S → ToolsRun S
  run_tools [] s = record { results = []; operations = []; state = s }
  run_tools (text t ∷ bs) s = run_tools bs s
  run_tools (tool_use id name input ∷ bs) s =
      let ((message, operation), s') = execute name input s in
      let rest = run_tools bs s' in
      record {
        results = (id, message) ∷ rest.results;
        operations = announce operation rest.operations;
        state = rest.state;
      }

  abbrev pub leaving : List ChatEvent → Ending → List ChatMessage → S → Run S
  leaving events ending messages s = record {
    events = events;
    asked = messages ∷ [];
    state = s;
    ending = ending;
  }

  -- A run that goes on after a round that sent `messages` and yielded `events`.
  abbrev pub going_on : List ChatEvent → List ChatMessage → Run S → Run S
  going_on events messages rest = record rest {
    events = events ++ rest.events;
    asked = messages ∷ rest.asked;
  }

  -- What follows the `while`.
  abbrev pub after_loop : ℕ → ℕ → List ChatEvent
  after_loop zero max_iterations = limit_reached max_iterations ∷ []
  after_loop (suc left) max_iterations = []

  -- The `while`, by recursion on the rounds left: `max_iterations - iteration`.
  unfoldable pub run_loop :
      (max_iterations left consecutive_truncations : ℕ) → List ChatMessage → S → Run S
  run_loop max_iterations zero truncations messages s = record {
    events = limit_reached max_iterations ∷ [];
    asked = [];
    state = s;
    ending = exhausted;
  }
  run_loop max_iterations (suc left) truncations messages s =
      let round = ask messages in
      elim round.aborted_at_start [
        | true ↦ record { events = []; asked = []; state = s; ending = aborted }
        | false ↦ elim round.reply [
          | init_aborted ↦ leaving [] aborted messages s
          | init_failed e ↦ leaving (request_failed e ∷ []) failed messages s
          | stream_aborted ds ↦ leaving (map delta ds) aborted messages s
          | stream_failed ds e ↦ leaving (map delta ds ++ stream_error e ∷ []) failed messages s
          | final_failed ds e ↦
              leaving (map delta ds ++ response_incomplete e ∷ []) failed messages s
          | answered ds content max_tokens ↦ elim (any is_tool_use content) [
            | false ↦ elim max_tokens [
              | true ↦ elim (ltb max_truncation_continuations (truncations + 1)) [
                | true ↦ leaving (map delta ds ++ truncated_repeatedly ∷ []) gave_up messages s
                | false ↦ going_on (map delta ds) messages (
                    run_loop max_iterations left (truncations + 1)
                      (messages ++ assistant content ∷ go_on ∷ []) s)
              ]
              | false ↦ leaving (map delta ds ++ after_loop left max_iterations) stopped messages s
            ]
            | true ↦ elim round.aborted_before_tools [
              | true ↦ leaving (map delta ds) aborted messages s
              | false ↦
                  let tools = run_tools content s in
                  going_on (map delta ds ++ tools.operations) messages (
                    run_loop max_iterations left 0
                      (messages ++ assistant content ∷ tool_results tools.results ∷ []) tools.state)
            ]
          ]
        ]
      ]

  -- `runAgenticLoop`, whose default limit is 25.
  unfoldable pub run_agentic_loop : List ChatMessage → S → Run S
  run_agentic_loop messages s = run_loop 25 25 0 messages s
