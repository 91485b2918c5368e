-- ===== src/Chat/Streams/Tests.antt =====
-- Overlapping streams of src/conversations/chat-ai.service.ts.
use bolder_vibes_backend.Common.{◌≡◌, refl, true, List, [], ◌∷◌, has}
use bolder_vibes_backend.Chat.Streams.{
  Stream, StreamOp, begin, finish, stream_steps, stream_step, begin_stream, abort_chat,
  finish_stream,
}
use bolder_vibes_backend.Chat.Streams.Invariant.{no_streams, first, stream_steps-one_live}

-- A second message aborts the first stream, whose `finally` comes when the second is registered.
abbrev twice : List StreamOp
twice = begin 5 ∷ begin 5 ∷ finish (record { conversation_id = 5; controller = 0 }) ∷ []

abbrev second : Stream
second = record { conversation_id = 5; controller = 1 }

stream_steps-one_live_example :
    (second.controller ≡ second.controller)
    × (has 1 (abort_chat 5 (stream_steps twice no_streams)).1.aborted ≡ true)
unfolding stream_steps stream_step begin_stream finish_stream
stream_steps-one_live_example = stream_steps-one_live twice second second first first refl refl refl
