-- ===== src/Gateway/Messages.antt =====
-- `handleSendMessage` and `processChatMessage` of src/gateway/events.gateway.ts.
mod Answers
mod Tests
use Prim.Native.String.{◌++◌ as append}
use bolder_vibes_backend.Common.{
  ℕ, String, Bool, true, false, Option, none, some, List, [], ◌∷◌, ◌++◌, ◌==◌, ◌=s=◌, if◌then◌else◌,
  has, Result, ok, err, is_some,
}
use bolder_vibes_backend.Sandbox.Regex.{codes}
use bolder_vibes_backend.Sandbox.Sanitizer.{trim}
use bolder_vibes_backend.Chat.Loop.{FileOperation, created, updated, deleted}
use bolder_vibes_backend.Gateway.Events.{
  ServerEvent, Emission, to_client, to_project, response_start, response_chunk, response_end,
  response_error, title_updated, emit_file_created, emit_file_updated, emit_file_deleted,
  emit_message,
}
use bolder_vibes_backend.Gateway.Sockets.{Socket, Acknowledgement, accepted, not_authenticated}

pub record Conversation : Type 0 where
  pub user_id : ℕ
  pub project_id : ℕ
  pub title : String

pub record SendMessage : Type 0 where
  pub conversation_id : ℕ
  pub content : String
  pub model : Option String
  pub plan_mode : Option Bool

pub record MessageRow : Type 0 where
  pub id : ℕ
  pub created_at : String

-- A `ChatStreamEvent` of `streamChatResponse`.
pub data StreamEvent : Type 0 where
  text : String → StreamEvent
  file_operation : FileOperation → StreamEvent
  tool_error : String → StreamEvent

-- What the generator yields, the error that it throws at last, if any, and what its tools leave.
pub record Stream (Db : Type 0) : Type 0 where
  pub events : List StreamEvent
  pub thrown : Option String
  pub db : Db

-- The tables of conversations and messages, and the chat service. A call that throws gives its text.
pub record ChatDeps (Db : Type 0) : Type 0 where
  pub find_conversation : ℕ → Db → Result String (Option Conversation)
  pub create_message :
      (conversation_id : ℕ) (from_user : Bool) (content : String)
      → Db
      → Result String (MessageRow × Db)
  pub set_title : (conversation_id : ℕ) → String → Db → Result String Db
  pub stream_chat_response :
      (conversation_id project_id : ℕ) → Option String → Option Bool → Db → Stream Db
  pub generate_title : String → Result String String

-- What a message does: the events in their order, the database, the room that the socket is put in,
-- and whether a title is generated beside it.
pub record Handled (Db : Type 0) : Type 0 where
  pub emissions : List Emission
  pub db : Db
  pub joins : Option ℕ
  pub titles : Bool

abbrev pub emit_operation_of : ℕ → FileOperation → List Emission
emit_operation_of p (created path content file_id) = emit_file_created p file_id path ∷ []
emit_operation_of p (updated path content file_id) = emit_file_updated p file_id path none ∷ []
emit_operation_of p (deleted path none) = []
emit_operation_of p (deleted path (some file_id)) = emit_file_deleted p file_id path ∷ []

-- The `switch` on an event: what is sent.
unfoldable pub relay : (conversation_id project_id : ℕ) → StreamEvent → List Emission
relay k p (text t) = to_client (response_chunk k t none) ∷ []
relay k p (file_operation op) =
    emit_operation_of p op ++ to_client (response_chunk k "" (some op)) ∷ []
relay k p (tool_error e) = []

-- `fullResponse += event.content || ''`.
abbrev pub add_text : String → StreamEvent → String
add_text full (text t) = append full t
add_text full (file_operation op) = full
add_text full (tool_error e) = full

-- The loop over the stream: what is sent, and the full response.
unfoldable pub relay_all :
    (conversation_id project_id : ℕ) → String → List StreamEvent → List Emission × String
unfolding relay
relay_all k p full [] = ([], full)
relay_all k p full (e ∷ es) =
    let (sent, full') = relay_all k p (add_text full e) es in (relay k p e ++ sent, full')

abbrev pub is_empty : List ℕ → Bool
is_empty [] = true
is_empty (c ∷ cs) = false

-- `!(s.trim().length > 0)`.
unfoldable pub is_blank_text : String → Bool
is_blank_text s = is_empty (trim (codes s))

module _ {Db : Type 0} (d : ChatDeps Db) where
  -- The `catch`: an error, and an end.
  abbrev pub chat_failed : ℕ → String → List Emission
  chat_failed k message =
      to_client (response_error k message) ∷ to_client (response_end k none "") ∷ []

  -- After the stream: the answer is saved unless it is blank, and the end is sent.
  unfoldable pub finish_response : (conversation_id : ℕ) → String → Db → List Emission × Db
  finish_response k full db =
      if is_blank_text full
      then (to_client (response_end k none full) ∷ [], db)
      else elim (d.create_message k false full db) [
        | err message ↦ (chat_failed k message, db)
        | ok (row, db') ↦ (to_client (response_end k (some row.id) full) ∷ [], db')
      ]

  -- How a stream that has been relayed ends.
  unfoldable pub close_stream : (conversation_id : ℕ) → String → Stream Db → List Emission × Db
  close_stream k full stream = elim stream.thrown [
    | some message ↦ (chat_failed k message, stream.db)
    | none ↦ finish_response k full stream.db
  ]

  -- From the start of the response to its end.
  unfoldable pub answer_message : SendMessage → ℕ → Db → List Emission × Db
  answer_message m p db =
      let k = m.conversation_id in
      let stream = d.stream_chat_response k p m.model m.plan_mode db in
      let (sent, full) = relay_all k p "" stream.events in
      let (ending, db') = close_stream k full stream in
      (to_client (response_start k) ∷ (sent ++ ending), db')

  -- A message of the owner.
  unfoldable pub process_owned : SendMessage → Conversation → Db → Handled Db
  process_owned m c db = elim (d.create_message m.conversation_id true m.content db) [
    | err message ↦ record {
      emissions = chat_failed m.conversation_id message;
      db = db;
      joins = none;
      titles = false;
    }
    | ok (row, db') ↦
        let (answer, db'') = answer_message m c.project_id db' in
        record {
          emissions = emit_message c.project_id row.id true m.content row.created_at ∷ answer;
          db = db'';
          joins = some c.project_id;
          titles = c.title =s= "New Conversation";
        }
  ]

  -- Nothing but an error is sent where the conversation is not there, or another user's.
  abbrev pub not_found : SendMessage → Db → Handled Db
  not_found m db = record {
    emissions = to_client (response_error m.conversation_id "Conversation not found") ∷ [];
    db = db;
    joins = none;
    titles = false;
  }

  -- `processChatMessage`, which may throw before its `try`.
  unfoldable pub process_chat_message : (user : ℕ) → SendMessage → Db → Result String (Handled Db)
  process_chat_message user m db = elim (d.find_conversation m.conversation_id db) [
    | err message ↦ err message
    | ok none ↦ ok (not_found m db)
    | ok (some c) ↦ if c.user_id == user then ok (process_owned m c db) else ok (not_found m db)
  ]

  -- `handleSendMessage`: the acknowledgement, and what the message does in the background.
  unfoldable pub handle_send_message : SendMessage → Socket → Db → Acknowledgement × Handled Db
  handle_send_message m c db = elim c.user [
    | none ↦ (not_authenticated, record { emissions = []; db = db; joins = none; titles = false })
    | some user ↦ elim (process_chat_message user m db) [
      | ok handled ↦ (accepted, handled)
      | err message ↦ (
        accepted,
        record {
          emissions = to_client (response_error m.conversation_id message) ∷ [];
          db = db;
          joins = none;
          titles = false;
        },
      )
    ]
  ]

  -- The title that is generated beside the first answer; a failure is only logged.
  unfoldable pub title_conversation : SendMessage → (project_id : ℕ) → Db → List Emission × Db
  title_conversation m p db = elim (d.generate_title m.content) [
    | err message ↦ ([], db)
    | ok title ↦ elim (d.set_title m.conversation_id title db) [
      | err message ↦ ([], db)
      | ok db' ↦ (to_project p (title_updated m.conversation_id title) ∷ [], db')
    ]
  ]
