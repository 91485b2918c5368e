-- ===== src/Gateway/Sockets.antt =====
-- Sockets, rooms and the short handlers of src/gateway/events.gateway.ts.
use bolder_vibes_backend.Common.{
  ℕ, String, Bool, false, ◌&&◌, Option, none, some, List, [], ◌∷◌, ◌=s=◌, if◌then◌else◌, has, add,
  remove, is_some, split,
}
use bolder_vibes_backend.Chat.Streams.{Streams, abort_chat}

-- A socket: the user that its token was made for, once it is verified, and the projects whose rooms
-- it has joined.
pub record Socket : Type 0 where
  pub id : ℕ
  pub user : Option ℕ
  pub rooms : List ℕ
  pub connected : Bool

-- The gateway, with what its handlers reach: the streams of the chat, and the tasks with a
-- cancellation key.
pub record Gateway : Type 0 where
  pub sockets : List Socket
  pub streams : Streams
  pub cancelled : List ℕ

pub data Acknowledgement : Type 0 where
  joined : ℕ → Acknowledgement
  left : ℕ → Acknowledgement
  accepted : Acknowledgement
  stopped : (aborted : Bool) → Acknowledgement
  not_authenticated : Acknowledgement
  cancel_acknowledged : ℕ → Acknowledgement

-- The second part of `header.split(' ')`.
abbrev pub second : List String → Option String
second (a ∷ b ∷ ws) = some b
second _ = none

-- `a || b` on texts that may be missing.
abbrev pub or_text : Option String → Option String → Option String
or_text none b = b
or_text (some a) b = if a =s= "" then b else some a

abbrev pub token_of_header : Option String → Option String
token_of_header none = none
token_of_header (some header) = second (split b' ' header)

unfoldable pub handshake_token : (auth_token authorization : Option String) → Option String
handshake_token auth_token authorization = or_text auth_token (token_of_header authorization)

abbrev pub with_payload : Option ℕ → Socket → Socket
with_payload none c = record c { connected = false; rooms = [] }
with_payload (some u) c = record c { user = some u }

-- `handleConnection`: `verify` gives the user of a token, or none where it throws.
unfoldable pub handle_connection :
    (verify : String → Option ℕ) (auth_token authorization : Option String) → Socket → Socket
unfolding handshake_token
handle_connection verify auth_token authorization c =
    -- An empty token counts as none.
    elim (or_text (handshake_token auth_token authorization) none) [
      | none ↦ record c { connected = false; rooms = [] }
      | some token ↦ with_payload (verify token) c
    ]

-- Neither of these asks for the user, or whether the project is the user's.
unfoldable pub handle_join_project : ℕ → Socket → Acknowledgement × Socket
handle_join_project p c = (joined p, record c { rooms = add p c.rooms })

unfoldable pub handle_leave_project : ℕ → Socket → Acknowledgement × Socket
handle_leave_project p c = (left p, record c { rooms = remove p c.rooms })

-- `handleStopChat`: any user may stop the stream of any conversation.
unfoldable pub handle_stop_chat : ℕ → Socket → Gateway → Acknowledgement × Gateway
unfolding abort_chat
handle_stop_chat conversation_id c g =
    if is_some c.user
    then (let (aborted, streams) = abort_chat conversation_id g.streams in
        (stopped aborted, record g { streams = streams }))
    else (not_authenticated, g)

-- `handleCancelTask`, with the key that `requestCancellation` sets.
unfoldable pub handle_cancel_task : ℕ → Gateway → Acknowledgement × Gateway
handle_cancel_task task_id g =
    (cancel_acknowledged task_id, record g { cancelled = add task_id g.cancelled })

-- `this.server.to(room).emit`: the sockets that an event to a project's room reaches.
unfoldable pub receivers : ℕ → List Socket → List ℕ
receivers p [] = []
receivers p (c ∷ cs) =
    let rest = receivers p cs in if c.connected && has p c.rooms then c.id ∷ rest else rest
