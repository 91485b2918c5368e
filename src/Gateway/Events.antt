-- ===== src/Gateway/Events.antt =====
-- What src/gateway/events.gateway.ts sends, and the helpers by which the services send it.
use bolder_vibes_backend.Common.{ℕ, String, Option, Bool}
use bolder_vibes_backend.Chat.Loop.{FileOperation}

-- The events of src/gateway/events/event-types.ts that the gateway itself sends.
pub data ServerEvent : Type 0 where
  task_started : (task_id : ℕ) (prompt : String) → ServerEvent
  step_started : (task_id step_id : ℕ) (agent_type : String) (step_order : ℕ) → ServerEvent
  step_progress : (task_id step_id : ℕ) (partial_output : String) → ServerEvent
  step_completed :
      (task_id step_id : ℕ) (agent_type output : String) (duration_ms : ℕ) → ServerEvent
  task_completed : (task_id : ℕ) (result : String) → ServerEvent
  task_failed : (task_id : ℕ) (error : String) → ServerEvent
  file_created : (file_id : ℕ) (path : String) (project_id : ℕ) → ServerEvent
  file_updated : (file_id : ℕ) (path : String) (project_id : ℕ) (diff : Option String) → ServerEvent
  file_deleted : (file_id : ℕ) (path : String) (project_id : ℕ) → ServerEvent
  message_received : (message_id : ℕ) (from_user : Bool) (content created_at : String) → ServerEvent
  title_updated : (conversation_id : ℕ) (title : String) → ServerEvent
  response_start : (conversation_id : ℕ) → ServerEvent
  response_chunk :
      (conversation_id : ℕ) (chunk : String) (operation : Option FileOperation) → ServerEvent
  response_end : (conversation_id : ℕ) (message_id : Option ℕ) (content : String) → ServerEvent
  response_error : (conversation_id : ℕ) (error : String) → ServerEvent

-- An event goes to the socket whose message is handled, or to the room of a project.
pub data Emission : Type 0 where
  to_client : ServerEvent → Emission
  to_project : ℕ → ServerEvent → Emission

unfoldable pub emit_task_started : (p t : ℕ) → String → Emission
emit_task_started p t prompt = to_project p (task_started t prompt)

unfoldable pub emit_step_started : (p t s : ℕ) → String → ℕ → Emission
emit_step_started p t s agent_type step_order =
    to_project p (step_started t s agent_type step_order)

unfoldable pub emit_step_progress : (p t s : ℕ) → String → Emission
emit_step_progress p t s partial_output = to_project p (step_progress t s partial_output)

unfoldable pub emit_step_completed : (p t s : ℕ) → String → String → ℕ → Emission
emit_step_completed p t s agent_type output duration_ms =
    to_project p (step_completed t s agent_type output duration_ms)

unfoldable pub emit_task_completed : (p t : ℕ) → String → Emission
emit_task_completed p t result = to_project p (task_completed t result)

unfoldable pub emit_task_failed : (p t : ℕ) → String → Emission
emit_task_failed p t error = to_project p (task_failed t error)

unfoldable pub emit_file_created : (p f : ℕ) → String → Emission
emit_file_created p f path = to_project p (file_created f path p)

unfoldable pub emit_file_updated : (p f : ℕ) → String → Option String → Emission
emit_file_updated p f path diff = to_project p (file_updated f path p diff)

unfoldable pub emit_file_deleted : (p f : ℕ) → String → Emission
emit_file_deleted p f path = to_project p (file_deleted f path p)

unfoldable pub emit_message : (p m : ℕ) → Bool → String → String → Emission
emit_message p m from_user content created_at =
    to_project p (message_received m from_user content created_at)
