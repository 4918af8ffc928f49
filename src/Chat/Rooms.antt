-- ===== src/Chat/Rooms.antt =====
-- src/modules/chat/chat.gateway.ts: what it does to a socket's rooms and to its typing timers.
pub mod Typing
pub mod Membership
use chat_app_backend.Prelude.{
  ℕ, Bool, true, false, not, ◌&&◌, Option, none, some, List, [], ◌∷◌, ◌==◌, leb, any, filterb,
  length, map, if◌then◌else◌,
}
use chat_app_backend.Errors.{Failure, http}
use chat_app_backend.Mongo.{Mongo}
use chat_app_backend.Redis.{Redis}
use chat_app_backend.Server.{
  Db, M, pure, throw, ◌>>=◌, ◌>>◌, access, sync, emit, emit_from, current_time,
}
use chat_app_backend.Realtime.Rooms
use chat_app_backend.Realtime.Sockets.{SocketUser, SocketState}
use chat_app_backend.Realtime.Events.{typing_update, message_delivered, conversation_updated}
use chat_app_backend.Chat.Pages.{MessageResponse}
use chat_app_backend.Chat.Side.{ChatSide, ConversationRef, side_of}
use chat_app_backend.Chat.Conversations.{Requester, get_for_requester, to_conversation_ref}
use chat_app_backend.Chat.Messages.{mark_delivered_to}

abbrev pub max_conversation_rooms : ℕ
max_conversation_rooms = 50

abbrev pub too_many_conversations : Failure
too_many_conversations = http (record {
  status_code = 429;
  code = "TOO_MANY_CONVERSATIONS";
  message = "Leave a conversation first (max 50)";
})

abbrev pub requester_of : SocketUser → Requester
requester_of user = record { id = user.id; role = user.role }

-- A set without its order: the rooms of a socket, the keys of the typing timers.
abbrev pub has : ℕ → List ℕ → Bool
has c set = any (λ x. x == c) set

abbrev pub with_one : ℕ → List ℕ → List ℕ
with_one c set = if has c set then set else c ∷ set

abbrev pub without : ℕ → List ℕ → List ℕ
without c set = filterb (λ x. not (x == c)) set

abbrev pub change_at : ℕ → (SocketState → SocketState) → SocketState → SocketState
change_at id f s = if s.id == id then f s else s

abbrev pub change_socket : ℕ → (SocketState → SocketState) → Db → Db
change_socket id f db = record db { sockets = map (change_at id f) db.sockets }

-- A set that the socket `id` has; a socket that is gone has none.
abbrev pub set_of : (SocketState → List ℕ) → ℕ → List SocketState → List ℕ
set_of f id [] = []
set_of f id (s ∷ sockets) = if s.id == id then f s else set_of f id sockets

abbrev pub joined : ℕ → Db → List ℕ
joined id db = set_of (λ s. s.conversations) id db.sockets

abbrev pub typing_in : ℕ → Db → List ℕ
typing_in id db = set_of (λ s. s.typing) id db.sockets

-- `socket.join(room)` and `socket.leave(room)`: with an adapter they are awaited.
unfoldable pub join_room : ℕ → ℕ → M (Unit {0})
join_room socket_id c = access λ now db.
    (change_socket socket_id (λ s. record s { conversations = with_one c s.conversations }) db, tt)

unfoldable pub leave_room : ℕ → ℕ → M (Unit {0})
leave_room socket_id c = access λ now db.
    (change_socket socket_id (λ s. record s { conversations = without c s.conversations }) db, tt)

unfoldable pub emit_typing : ℕ → SocketUser → ℕ → Bool → M (Unit {0})
emit_typing socket_id user c is_typing = emit_from socket_id (Rooms.conversation c) (
    typing_update
      (record { conversation_id = c; user_id = user.id; name = user.name; is_typing = is_typing }))

unfoldable pub clear_timer : ℕ → ℕ → M Bool
clear_timer socket_id c = sync λ db. (
  change_socket socket_id (λ s. record s { typing = without c s.typing }) db,
  has c (typing_in socket_id db),
)

-- It is also what a timer does when it fires.
unfoldable pub stop_typing : ℕ → SocketUser → ℕ → M (Unit {0})
unfolding emit_typing clear_timer
stop_typing socket_id user c = do
  running ← clear_timer socket_id c
  if running then emit_typing socket_id user c false else pure tt

-- Whether a timer was running; there is one from now on.
unfoldable pub restart_timer : ℕ → ℕ → M Bool
restart_timer socket_id c = sync λ db. (
  change_socket socket_id (λ s. record s { typing = with_one c s.typing }) db,
  has c (typing_in socket_id db),
)

unfoldable pub start_typing : ℕ → SocketUser → ℕ → M (Unit {0})
unfolding emit_typing restart_timer
start_typing socket_id user c = do
  was_typing ← restart_timer socket_id c
  if was_typing then pure tt else emit_typing socket_id user c true

-- The handler of 'typing:set'.
unfoldable pub set_typing : ℕ → SocketUser → ℕ → Bool → M (Unit {0})
unfolding start_typing stop_typing
set_typing socket_id user c is_typing = do
  inside ← sync λ db. (db, has c (joined socket_id db))
  if inside
      then (if is_typing then start_typing socket_id user c else stop_typing socket_id user c)
      else pure tt

unfoldable pub stop_each : ℕ → SocketUser → List ℕ → M (Unit {0})
unfolding stop_typing
stop_each socket_id user [] = pure tt
stop_each socket_id user (c ∷ cs) = stop_typing socket_id user c >> stop_each socket_id user cs

-- The handler of 'disconnecting'.
unfoldable pub disconnecting : ℕ → SocketUser → M (Unit {0})
unfolding stop_each
disconnecting socket_id user = do
  running ← sync λ db. (db, typing_in socket_id db)
  stop_each socket_id user running

abbrev pub or_now : Option ℕ → ℕ → ℕ
or_now none now = now
or_now (some at) now = at

unfoldable pub emit_delivered : ℕ → List MessageResponse → M (Unit {0})
emit_delivered c [] = pure tt
emit_delivered c (m ∷ ms) = do
  now ← current_time
  emit (Rooms.conversation c ∷ []) (message_delivered c m.id (or_now m.delivered_at now))
  emit_delivered c ms

module _ (mongo : Mongo) (redis : Redis) (ready : ℕ → Bool) where
  unfoldable pub enter_conversation : ℕ → SocketUser → ConversationRef → M (Unit {0})
  unfolding join_room emit_delivered
  enter_conversation socket_id user c = do
    join_room socket_id c.id
    delivered ← mark_delivered_to mongo redis ready c (side_of c user.id)
    emit_delivered c.id delivered

  -- What a join does once its check has passed.
  unfoldable pub admit : ℕ → SocketUser → ℕ → M ℕ
  unfolding enter_conversation
  admit socket_id user conversation_id = do
    found ← get_for_requester mongo conversation_id (requester_of user)
    enter_conversation socket_id user (to_conversation_ref found)
    pure conversation_id

  abbrev pub is_full : ℕ → List ℕ → Bool
  is_full conversation_id rooms =
      not (has conversation_id rooms) && leb max_conversation_rooms (length rooms)

  -- The handler of 'conversation:join'.
  unfoldable pub join_conversation : ℕ → SocketUser → ℕ → M ℕ
  unfolding admit
  join_conversation socket_id user conversation_id = do
    rooms ← sync λ db. (db, joined socket_id db)
    if is_full conversation_id rooms
        then throw too_many_conversations
        else admit socket_id user conversation_id

  -- The handler of 'conversation:leave'.
  unfoldable pub leave_conversation : ℕ → SocketUser → ℕ → M (Unit {0})
  unfolding stop_typing leave_room
  leave_conversation socket_id user conversation_id =
      stop_typing socket_id user conversation_id >> leave_room socket_id conversation_id
