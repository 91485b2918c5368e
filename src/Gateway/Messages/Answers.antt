-- ===== src/Gateway/Messages/Answers.antt =====
-- What the sender of a message hears from src/gateway/events.gateway.ts.
use bolder_vibes_backend.Common.{
  ℕ, String, ◌≡◌, refl, sym, ap, ◌∙◌, Bool, true, false, Option, none, some, List, [], ◌∷◌, ◌++◌,
  arith, if◌then◌else◌, any, any-append, ok, Result-cases, Option-cases, Bool-cases, inl, inr,
  append_assoc, is_some, not, ◌&&◌, subst, ==_iff,
}
use bolder_vibes_backend.Chat.Loop.{FileOperation, created, updated, deleted}
use bolder_vibes_backend.Gateway.Events.{
  ServerEvent, Emission, to_client, to_project, response_start, response_chunk, response_end,
  response_error, emit_file_created, emit_file_updated, emit_file_deleted, emit_message,
}
use bolder_vibes_backend.Gateway.Messages.{
  ChatDeps, Conversation, SendMessage, Stream, StreamEvent, Handled, text, file_operation,
  tool_error, relay, relay_all, add_text, emit_operation_of, is_blank_text, finish_response,
  close_stream, answer_message, process_owned, process_chat_message, append,
}

-- The events that reach the sender directly.
abbrev pub heard : List Emission → List ServerEvent
heard [] = []
heard (to_client e ∷ es) = e ∷ heard es
heard (to_project p e ∷ es) = heard es

abbrev pub is_end : ServerEvent → Bool
is_end (response_end k m t) = true
is_end _ = false

abbrev pub is_error : ServerEvent → Bool
is_error (response_error k t) = true
is_error _ = false

-- The texts of the chunks, put together in their order.
abbrev pub joined_text : String → List ServerEvent → String
joined_text full [] = full
joined_text full (response_chunk k t none ∷ es) = joined_text (append full t) es
joined_text full (_ ∷ es) = joined_text full es

heard-append : (xs ys : List Emission) → heard (xs ++ ys) ≡ heard xs ++ heard ys
heard-append [] ys = refl
heard-append (to_client e ∷ xs) ys = ap (λ es. e ∷ es) (heard-append xs ys)
heard-append (to_project p e ∷ xs) ys = heard-append xs ys

heard-operation : (p : ℕ) (op : FileOperation) → heard (emit_operation_of p op) ≡ []
unfolding emit_file_created emit_file_updated emit_file_deleted
heard-operation p (created path content i) = refl
heard-operation p (updated path content i) = refl
heard-operation p (deleted path none) = refl
heard-operation p (deleted path (some i)) = refl

-- The chunk of an event, if it has one.
abbrev chunk_of : ℕ → StreamEvent → List ServerEvent
chunk_of k (text t) = response_chunk k t none ∷ []
chunk_of k (file_operation op) = response_chunk k "" (some op) ∷ []
chunk_of k (tool_error e) = []

abbrev chunks_of : ℕ → List StreamEvent → List ServerEvent
chunks_of k [] = []
chunks_of k (e ∷ es) = chunk_of k e ++ chunks_of k es

heard-relay : (k p : ℕ) (e : StreamEvent) → heard (relay k p e) ≡ chunk_of k e
unfolding relay
heard-relay k p (text t) = refl
heard-relay k p (file_operation op) =
    heard-append (emit_operation_of p op) (to_client (response_chunk k "" (some op)) ∷ [])
    ∙ ap (λ es. es ++ response_chunk k "" (some op) ∷ []) (heard-operation p op)
heard-relay k p (tool_error e) = refl

heard-relay_all :
    (k p : ℕ) (full : String) (es : List StreamEvent)
    → heard (relay_all k p full es).0 ≡ chunks_of k es
unfolding relay_all
heard-relay_all k p full [] = refl
heard-relay_all k p full (e ∷ es) =
    rw
      (
        heard-append (relay k p e) (relay_all k p (add_text full e) es).0,
        heard-relay k p e,
        heard-relay_all k p (add_text full e) es,
      )
      refl

-- The full response is the text of the chunks.
joined_text-chunks :
    (k p : ℕ) (full : String) (es : List StreamEvent)
    → joined_text full (chunks_of k es) ≡ (relay_all k p full es).1
unfolding relay_all
joined_text-chunks k p full [] = refl
joined_text-chunks k p full (text t ∷ es) = joined_text-chunks k p (append full t) es
joined_text-chunks k p full (file_operation op ∷ es) = joined_text-chunks k p full es
joined_text-chunks k p full (tool_error e ∷ es) = joined_text-chunks k p full es

no_end : (k : ℕ) (es : List StreamEvent) → any is_end (chunks_of k es) ≡ false
no_end k [] = refl
no_end k (text t ∷ es) = no_end k es
no_end k (file_operation op ∷ es) = no_end k es
no_end k (tool_error e ∷ es) = no_end k es

no_error : (k : ℕ) (es : List StreamEvent) → any is_error (chunks_of k es) ≡ false
no_error k [] = refl
no_error k (text t ∷ es) = no_error k es
no_error k (file_operation op ∷ es) = no_error k es
no_error k (tool_error e ∷ es) = no_error k es

-- The last event is the only end of the response. Its content is the text of the chunks, or empty
-- after an error; it names a saved message exactly if there was no error and the content is not
-- blank.
abbrev pub Answered : ℕ → List ServerEvent → Type 0
Answered k es =
    (init : List ServerEvent) × (id : Option ℕ) × (content : String) × (es
      ≡ init ++ response_end k id content ∷ [])
    × (any is_end init ≡ false)
    × (content ≡ (if any is_error init then "" else joined_text "" init))
    × (is_some id ≡ (not (any is_error init) && not (is_blank_text content)))

module _ {Db : Type 0} (d : ChatDeps Db) (k p : ℕ) where
  -- A response that fails after some chunks.
  failed_answer :
      (es : List StreamEvent) (message : String)
      → Answered k (
          response_start k
          ∷ (chunks_of k es ++ response_error k message ∷ response_end k none "" ∷ []))
  failed_answer es message = (
    response_start k ∷ (chunks_of k es ++ response_error k message ∷ []),
    none,
    "",
    ap (λ xs. response_start k ∷ xs)
        (sym (
          append_assoc (chunks_of k es) (response_error k message ∷ [])
            (response_end k none "" ∷ []))),
    rw (any-append is_end (chunks_of k es) (response_error k message ∷ []), no_end k es) refl,
    rw (any-append is_error (chunks_of k es) (response_error k message ∷ []), no_error k es) refl,
    rw (any-append is_error (chunks_of k es) (response_error k message ∷ []), no_error k es) refl,
  )

  -- A response that is complete.
  complete_answer :
      (es : List StreamEvent) (id : Option ℕ)
      → is_some id ≡ not (is_blank_text (relay_all k p "" es).1)
      → Answered k
          (response_start k ∷ (chunks_of k es ++ response_end k id (relay_all k p "" es).1 ∷ []))
  complete_answer es id saved = (
    response_start k ∷ chunks_of k es,
    id,
    (relay_all k p "" es).1,
    refl,
    no_end k es,
    rw (no_error k es) (sym (joined_text-chunks k p "" es)),
    rw (no_error k es) saved,
  )

  finish_response-Answered :
      (es : List StreamEvent) (db : Db)
      → Answered k (
          response_start k
          ∷ (chunks_of k es ++ heard (finish_response d k (relay_all k p "" es).1 db).0))
  unfolding finish_response
  finish_response-Answered es db =
      let full = (relay_all k p "" es).1 in
      elim (Bool-cases (is_blank_text full)) [
        | inl blank ↦ rw blank (complete_answer es none (rw blank refl))
        | inr said ↦ elim (Result-cases (d.create_message k false full db)) [
          | inl (message, e) ↦ rw (said, e) (failed_answer es message)
          | inr ((row, db'), e) ↦ rw (said, e) (complete_answer es (some row.id) (rw said refl))
        ]
      ]

  close_stream-Answered :
      (stream : Stream Db)
      → Answered k (
          response_start k
          ∷ (chunks_of k stream.events
              ++ heard (close_stream d k (relay_all k p "" stream.events).1 stream).0))
  unfolding close_stream
  close_stream-Answered stream = elim (Option-cases stream.thrown) [
    | inl e ↦ rw e (finish_response-Answered stream.events stream.db)
    | inr (message, e) ↦ rw e (failed_answer stream.events message)
  ]

module _ {Db : Type 0} (d : ChatDeps Db) where
  answer_message-Answered :
      (m : SendMessage) (p : ℕ) (db : Db)
      → Answered m.conversation_id (heard (answer_message d m p db).0)
  unfolding answer_message
  answer_message-Answered m p db =
      let k = m.conversation_id in
      let stream = d.stream_chat_response k p m.model m.plan_mode db in
      let (sent, full) = relay_all k p "" stream.events in
      subst (λ es. Answered k (response_start k ∷ es))
        (sym (
          heard-append sent (close_stream d k full stream).0
          ∙ ap (λ xs. xs ++ heard (close_stream d k full stream).0)
              (heard-relay_all k p "" stream.events)))
        (close_stream-Answered d k p stream)

  process_owned-Answered :
      (m : SendMessage) (c : Conversation) (db : Db)
      → Answered m.conversation_id (heard (process_owned d m c db).emissions)
  unfolding process_owned emit_message
  process_owned-Answered m c db =
      let k = m.conversation_id in
      elim (Result-cases (d.create_message k true m.content db)) [
        | inl (message, e) ↦
            rw (e, process_owned, heard)
              (response_error k message ∷ [], none, "", refl, refl, refl, refl)
        | inr ((row, db'), e) ↦
            rw (e, process_owned, heard) (answer_message-Answered m c.project_id db')
      ]

  -- Whatever the model, its tools and the database do, a message of the conversation's owner is
  -- answered, and the answer ends: the last event that the sender hears is the end of the response, and
  -- there is no other end. Its content is the text of the chunks that were sent, or empty after an
  -- error; it names a saved message exactly if there was no error and the content is not blank.
  pub process_chat_message-Answered :
      (user : ℕ) (m : SendMessage) (c : Conversation) (db : Db)
      → d.find_conversation m.conversation_id db ≡ ok (some c)
      → c.user_id ≡ user
      → (handled : Handled Db) × (process_chat_message d user m db ≡ ok handled)
        × Answered m.conversation_id (heard handled.emissions)
  unfolding process_chat_message
  process_chat_message-Answered user m c db found owned =
      (process_owned d m c db, ground (arith, ==_iff c.user_id user), process_owned-Answered m c db)
