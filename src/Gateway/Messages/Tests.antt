-- ===== src/Gateway/Messages/Tests.antt =====
-- Messages handled by src/gateway/events.gateway.ts over a table in memory.
use bolder_vibes_backend.Common.{
  String, ◌≡◌, refl, true, none, some, List, [], ◌∷◌, ◌==◌, if◌then◌else◌, length, ok, split,
}
use bolder_vibes_backend.Chat.Loop.{created}
use bolder_vibes_backend.Gateway.Sockets.{Socket, handshake_token, handle_join_project, receivers}
use bolder_vibes_backend.Gateway.Messages.{
  ChatDeps, Conversation, SendMessage, Handled, text, file_operation, process_chat_message,
  not_found,
}
use bolder_vibes_backend.Gateway.Messages.Answers.{heard, Answered, process_chat_message-Answered}

-- The texts of the messages, the last first.
abbrev Table : Type 0
Table = List String

abbrev conversation : Conversation
conversation = record { user_id = 7; project_id = 3; title = "New Conversation" }

-- Conversation 1 is user 7's; the model writes a file and then the stream breaks.
abbrev broken_stream : ChatDeps Table
broken_stream = record {
  find_conversation = λ k db. ok (if k == 1 then some conversation else none);
  create_message =
      λ k from_user content db. ok (record { id = length db; created_at = "now" }, content ∷ db);
  set_title = λ k title db. ok db;
  stream_chat_response = λ k p model plan_mode db. record {
    events = text "I will " ∷ file_operation (created "App.tsx" "x" 4) ∷ [];
    thrown = some "overloaded";
    db = db;
  };
  generate_title = λ content. ok "An app";
}

abbrev hello : SendMessage
hello = record { conversation_id = 1; content = "Hi"; model = none; plan_mode = none }

process_chat_message-Answered_example :
    (handled : Handled Table) × (process_chat_message broken_stream 7 hello [] ≡ ok handled)
    × Answered 1 (heard handled.emissions)
process_chat_message-Answered_example =
    process_chat_message-Answered broken_stream 7 hello conversation [] refl refl

-- An owner hears an error and an end; another user hears an error and no end.
another_user_hears_no_end :
    process_chat_message broken_stream 8 hello [] ≡ ok (not_found broken_stream hello [])
unfolding process_chat_message
another_user_hears_no_end = refl

abbrev stranger : Socket
stranger = record { id = 5; user = none; rooms = []; connected = true }

-- A socket that no token has been verified for hears what goes to a project once it has asked to.
a_stranger_may_listen : receivers 3 ((handle_join_project 3 stranger).1 ∷ []) ≡ 5 ∷ []
unfolding receivers handle_join_project
a_stranger_may_listen = refl

reads_the_header : handshake_token none (some "Bearer abc") ≡ some "abc"
unfolding handshake_token split
reads_the_header = refl
