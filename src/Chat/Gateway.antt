-- ===== src/Chat/Gateway.antt =====
-- src/modules/chat/chat.gateway.ts: the handlers of messages. Each waits until the socket has been put into
-- its own thread (`ready`), so it is modelled from there on.
pub mod Resending
use chat_app_backend.Prelude.{
  ℕ, Bool, true, false, ◌&&◌, Option, none, some, List, [], ◌∷◌, ◌==◌, any, take, if◌then◌else◌,
}
use mathlib.Core.Option
use chat_app_backend.Access.{is_user, has_permission, chat_send_own, chat_reply}
use chat_app_backend.Errors.{Failure, http, forbidden, conflict}
use chat_app_backend.Mongo.{Mongo}
use chat_app_backend.Redis.{Redis}
use chat_app_backend.Server.{
  Db, M, pure, throw, ◌>>=◌, ◌>>◌, access, sync, emit, emit_from, try_catch,
}
use chat_app_backend.Realtime.Rooms.{Room}
use chat_app_backend.Realtime.Rooms
use chat_app_backend.Realtime.Sockets.{SocketUser, SocketState}
use chat_app_backend.Realtime.Events.{message_new, message_read, conversation_updated}
use chat_app_backend.Chat.Pages.{MessageResponse}
use chat_app_backend.Chat.Side.{ChatSide, customer, staff, ConversationRef, side_of, other_side}
use chat_app_backend.Chat.Conversations.{
  Requester, get_for_requester, get_or_create_for_customer, to_conversation_ref,
}
use chat_app_backend.Chat.Messages.{
  Created, ReadResult, create, mark_delivered, mark_read, get_unread_counts,
}
use chat_app_backend.Chat.Rooms.{has, joined, requester_of, stop_typing, enter_conversation}

-- What the listeners of `onMessageCreated` get.
pub record MessageCreated : Type 0 where
  pub conversation : ConversationRef
  pub message : MessageResponse
  pub sender : SocketUser
  pub recipient_online : Bool

pub record SendMessage : Type 0 where
  pub conversation_id : ℕ
  pub client_id : ℕ
  pub text : List ℕ

abbrev pub cannot_send : Failure
cannot_send = http (forbidden "You cannot send messages in this conversation")

abbrev pub not_in_conversation : Failure
not_in_conversation = http (conflict "NOT_IN_CONVERSATION" "Join the conversation first")

abbrev pub same_side : ChatSide → ChatSide → Bool
same_side customer customer = true
same_side staff staff = true
same_side _ _ = false

abbrev pub is_staff_side : ChatSide → Bool
is_staff_side customer = false
is_staff_side staff = true

unfoldable pub may_send : SocketUser → ChatSide → Bool
may_send user customer = has_permission user.role chat_send_own
may_send user staff = has_permission user.role chat_reply

-- `unread[conversation.id] ?? 0`
abbrev pub count_for : ℕ → List (ℕ × ℕ) → ℕ
count_for id [] = 0
count_for id ((c, n) ∷ counts) = if c == id then n else count_for id counts

abbrev pub side_room : ConversationRef → ChatSide → Room
side_room c staff = Rooms.staff
side_room c customer = Rooms.user c.customer_id

abbrev pub or_saved : Option MessageResponse → MessageResponse → MessageResponse
or_saved none saved = saved
or_saved (some m) saved = m

-- A listener that throws is logged, and the next one runs.
unfoldable pub notify_listeners :
    List (MessageCreated → M (Unit {0})) → MessageCreated → M (Unit {0})
notify_listeners [] event = pure tt
notify_listeners (listener ∷ listeners) event =
    try_catch (listener event) (λ error. pure tt) >> notify_listeners listeners event

module _ (mongo : Mongo) (redis : Redis) (ready : ℕ → Bool) where
  unfoldable pub is_side_in_room : ConversationRef → ChatSide → M Bool
  is_side_in_room c side = access λ now db.
      (db, any (λ s. has c.id s.conversations && same_side (side_of c s.user.id) side) db.sockets)

  unfoldable pub publish_conversation_update :
      ConversationRef → ChatSide → Option (List ℕ) → Option ℕ → M (Unit {0})
  publish_conversation_update c side preview at = do
    unread ← get_unread_counts mongo redis ready (c ∷ []) side
    emit (side_room c side ∷ []) (
        conversation_updated (record {
          conversation_id = c.id;
          unread_count = count_for c.id unread;
          last_message_preview = Option.map (take 200) preview;
          last_message_at = at;
        }))

  unfoldable pub deliver_now : MessageResponse → Bool → M MessageResponse
  deliver_now saved recipient_online =
      if recipient_online
      then (mark_delivered mongo redis ready saved.id >>= λ m. pure (or_saved m saved))
      else pure saved

  -- The connection of a customer: into its own thread. An error is logged.
  unfoldable pub on_connection : ℕ → ℕ → SocketUser → M (Unit {0})
  on_connection new_id socket_id user =
      if is_user user.role
      then try_catch
          (get_or_create_for_customer mongo new_id user.id >>= λ c.
            enter_conversation mongo redis ready socket_id user (to_conversation_ref c))
          (λ error. pure tt)
      else pure tt

  -- The handler of 'message:read', for a socket that is in the room.
  unfoldable pub publish_read : ConversationRef → ChatSide → ℕ → Option ReadResult → M (Unit {0})
  publish_read c side last_message_id none = pure tt
  publish_read c side last_message_id (some r) =
      if r.updated_count == 0
      then pure tt
      else emit (Rooms.conversation c.id ∷ []) (message_read c.id last_message_id r.read_at)
        >> publish_conversation_update c side none none

  unfoldable pub read_inside : SocketUser → ℕ → ℕ → M (Unit {0})
  unfolding publish_read
  read_inside user conversation_id last_message_id = do
    found ← get_for_requester mongo conversation_id (requester_of user)
    let c = to_conversation_ref found
    result ← mark_read mongo redis ready c (side_of c user.id) last_message_id
    publish_read c (side_of c user.id) last_message_id result

  unfoldable pub read_messages : ℕ → SocketUser → ℕ → ℕ → M (Unit {0})
  unfolding read_inside
  read_messages socket_id user conversation_id last_message_id = do
    inside ← sync λ db. (db, has conversation_id (joined socket_id db))
    if inside then read_inside user conversation_id last_message_id else throw not_in_conversation

  -- `staff_reply_guard` and the listeners are set by the other modules.
  module _ (staff_reply_guard : Option (ℕ → Requester → M (Unit {0})))
      (listeners : List (MessageCreated → M (Unit {0}))) where
    unfoldable pub guard_reply :
        Option (ℕ → Requester → M (Unit {0})) → ChatSide → ℕ → SocketUser → M (Unit {0})
    guard_reply (some guard) staff conversation_id user = guard conversation_id (requester_of user)
    guard_reply (some guard) customer conversation_id user = pure tt
    guard_reply none side conversation_id user = pure tt

    -- What follows a message that is new.
    unfoldable pub broadcast_new :
        ℕ → SocketUser → ConversationRef → MessageResponse → M MessageResponse
    broadcast_new socket_id user c saved = do
      let side = side_of c user.id
      stop_typing socket_id user c.id
      recipient_online ← is_side_in_room c (other_side side)
      message ← deliver_now saved recipient_online
      emit_from socket_id (Rooms.conversation c.id) (message_new message)
      publish_conversation_update c (other_side side) (some message.text) (some message.created_at)
      notify_listeners listeners (record {
        conversation = c;
        message = message;
        sender = user;
        recipient_online = recipient_online;
      })
      pure message

    unfoldable pub after_create : ℕ → SocketUser → ConversationRef → Created → M MessageResponse
    after_create socket_id user c result =
        if result.created
        then broadcast_new socket_id user c result.message
        else pure result.message

    unfoldable pub send_in : ℕ → ℕ → SocketUser → SendMessage → ConversationRef → M MessageResponse
    send_in new_id socket_id user input c =
        if may_send user (side_of c user.id)
        then (do
          guard_reply staff_reply_guard (side_of c user.id) input.conversation_id user
          result ← create mongo redis ready new_id (record {
            conversation_id = input.conversation_id;
            sender_id = user.id;
            client_message_id = input.client_id;
            text = input.text;
          })
          after_create socket_id user c result)
        else throw cannot_send

    -- The handler of 'message:send'.
    unfoldable pub send_message : ℕ → ℕ → SocketUser → SendMessage → M MessageResponse
    send_message new_id socket_id user input = do
      found ← get_for_requester mongo input.conversation_id (requester_of user)
      send_in new_id socket_id user input (to_conversation_ref found)
