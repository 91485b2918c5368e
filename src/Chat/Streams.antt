-- ===== src/Chat/Streams.antt =====
-- The streams in flight of src/conversations/chat-ai.service.ts: the map that `streamChatResponse` and
-- `abortChat` share, over every interleaving of requests.
pub mod Invariant
mod Tests
use bolder_vibes_backend.Common.{
  ℕ, ◌+◌, ◌<◌, ◌≡◌, refl, sym, ap, ◌∙◌, subst, inl, inr, Bool, true, false, not, Option, none, some,
  List, [], ◌∷◌, arith, ◌==◌, ==_iff, ==_refl, if◌then◌else◌, has, filter, All, Option-cases,
  Bool-cases,
}

-- A generator that runs: its conversation and its `AbortController`.
pub record Stream : Type 0 where
  pub conversation_id : ℕ
  pub controller : ℕ

-- The map of the active streams, the controllers that are aborted, and the generators that have not
-- reached their `finally`. A controller is numbered when it is made.
pub record Streams : Type 0 where
  pub next : ℕ
  pub active : ℕ → Option ℕ
  pub aborted : List ℕ
  pub running : List Stream

-- A message that comes in, an abort, or the end of a generator.
pub data StreamOp : Type 0 where
  begin : (conversation_id : ℕ) → StreamOp
  abort : (conversation_id : ℕ) → StreamOp
  finish : Stream → StreamOp

abbrev pub put : ℕ → Option ℕ → (ℕ → Option ℕ) → ℕ → Option ℕ
put k v m j = if k == j then v else m j

-- `controller.abort()` of an entry that may be there.
abbrev pub abort_entry : Option ℕ → List ℕ → List ℕ
abort_entry none aborted = aborted
abort_entry (some c) aborted = c ∷ aborted

abbrev pub is_controller : Option ℕ → ℕ → Bool
is_controller none c = false
is_controller (some d) c = d == c

-- The start of `streamChatResponse`: an existing stream is aborted, and the new one registered.
unfoldable pub begin_stream : ℕ → Streams → Streams
begin_stream k s = record {
  next = s.next + 1;
  active = put k (some s.next) s.active;
  aborted = abort_entry (s.active k) s.aborted;
  running = record { conversation_id = k; controller = s.next } ∷ s.running;
}

-- `abortChat`: whether a stream was aborted.
unfoldable pub abort_chat : ℕ → Streams → Bool × Streams
abort_chat k s = elim (s.active k) [
  | none ↦ (false, s)
  | some c ↦ (true, record s { active = put k none s.active; aborted = c ∷ s.aborted })
]

-- The `finally`: the entry goes only if it is still this stream's.
unfoldable pub finish_stream : Stream → Streams → Streams
finish_stream x s = record s {
  active =
      if is_controller (s.active x.conversation_id) x.controller
      then put x.conversation_id none s.active
      else s.active;
  running = filter (λ y. not (y.controller == x.controller)) s.running;
}

unfoldable pub stream_step : StreamOp → Streams → Streams
stream_step (begin k) s = begin_stream k s
stream_step (abort k) s = (abort_chat k s).1
stream_step (finish x) s = finish_stream x s

unfoldable pub stream_steps : List StreamOp → Streams → Streams
stream_steps [] s = s
stream_steps (op ∷ ops) s = stream_steps ops (stream_step op s)
