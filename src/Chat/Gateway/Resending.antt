-- ===== src/Chat/Gateway/Resending.antt =====
-- A message that a client sends again.
use chat_app_backend.Prelude.{
  ℕ, ◌≡◌, refl, ap, ◌∙◌, Bool, true, false, or_true, Option, none, some, List, any, ◌==◌,
}
use chat_app_backend.Access.{has_permission, chat_send_own, chat_read_any}
use chat_app_backend.Documents.{Conversation, Message}
use chat_app_backend.Errors.{ok}
use chat_app_backend.Mongo.{Mongo, IsDocumented}
use chat_app_backend.Redis.{Redis}
use chat_app_backend.Server.{Db, World, M, next, ◌>>=◌, quiet, access}
use chat_app_backend.Realtime.Sockets.{SocketUser}
use chat_app_backend.Chat.Pages.{MessageResponse, to_message_response}
use chat_app_backend.Chat.Side.{customer, ConversationRef, side_of}
use chat_app_backend.Chat.Conversations.{
  Requester, can_access, admit_requester, get_for_requester, find_by_id, to_conversation_ref,
}
use chat_app_backend.Chat.Messages.{CreateMessageInput, create}
use chat_app_backend.Chat.Messages.Retry.{answers, create-retry}
use chat_app_backend.Chat.Gateway.{
  MessageCreated, SendMessage, may_send, guard_reply, after_create, send_in, send_message,
}

abbrev pub to_input : SocketUser → SendMessage → CreateMessageInput
to_input user input = record {
  conversation_id = input.conversation_id;
  sender_id = user.id;
  client_message_id = input.client_id;
  text = input.text;
}

module _ (mongo : Mongo) (manual : IsDocumented mongo) (redis : Redis) (ready : ℕ → Bool)
    (staff_reply_guard : Option (ℕ → Requester → M (Unit {0})))
    (listeners : List (MessageCreated → M (Unit {0}))) where
  guard_reply-customer :
      (guard : Option (ℕ → Requester → M (Unit {0}))) (id : ℕ) (user : SocketUser) (w : World)
      → guard_reply mongo redis ready staff_reply_guard listeners guard customer id user w
        ≡ (ok tt, w)
  unfolding guard_reply
  guard_reply-customer none id user w = refl
  guard_reply-customer (some g) id user w = refl

  after_create-resent :
      (socket_id : ℕ) (user : SocketUser) (c : ConversationRef) (m : MessageResponse) (w : World)
      → after_create mongo redis ready staff_reply_guard listeners socket_id user c
          (record { message = m; created = false })
          w
        ≡ (ok m, w)
  unfolding after_create
  after_create-resent socket_id user c m w = refl

  own-customer :
      (c : Conversation) (id : ℕ)
      → (c.customer_id == id) ≡ true
      → side_of (to_conversation_ref c) id ≡ customer
  unfolding side_of to_conversation_ref
  own-customer c id h = rw h refl

  send_in-resent :
      (new_id socket_id now : ℕ) (user : SocketUser) (input : SendMessage) (db : Db)
      (c : ConversationRef) (m : MessageResponse)
      → side_of c user.id ≡ customer
      → has_permission user.role chat_send_own ≡ true
      → create mongo redis ready new_id (to_input user input) (quiet db now)
        ≡ (ok (record { message = m; created = false }), quiet db now)
      → send_in mongo redis ready staff_reply_guard listeners new_id socket_id user input c
          (quiet db now)
        ≡ (ok m, quiet db now)
  unfolding send_in may_send
  send_in-resent new_id socket_id now user input db c m own allowed e =
      rw (own, allowed)
        (ap
            (next (λ _ w.
              (create mongo redis ready new_id (to_input user input)
                  >>= after_create mongo redis ready staff_reply_guard listeners socket_id user c)
                w))
            (guard_reply-customer staff_reply_guard input.conversation_id user (quiet db now))
          ∙ ap (next (after_create mongo redis ready staff_reply_guard listeners socket_id user c))
              e
          ∙ after_create-resent socket_id user c m (quiet db now))

  -- A customer sends into the own thread a message whose client id a stored message of that thread has, and nothing
  -- interrupts it. Then 'message:send' answers with a stored message of that client id and changes nothing: nothing is stored, no
  -- event is sent and no listener runs, whatever the guard, the listeners and the text are.
  pub send_message-resent :
      (new_id socket_id now : ℕ) (user : SocketUser) (input : SendMessage) (db : Db)
      (c : Conversation)
      → mongo.find_one Conversation (λ k. k.id == input.conversation_id) db.conversations ≡ some c
      → (c.customer_id == user.id) ≡ true
      → has_permission user.role chat_send_own ≡ true
      → any (answers (to_input user input)) db.messages ≡ true
      → (m : Message) × ((answers (to_input user input) m ≡ true)
          × (send_message mongo redis ready staff_reply_guard listeners new_id socket_id user input
                (quiet db now)
              ≡ (ok (to_message_response m), quiet db now)))
  unfolding send_message get_for_requester admit_requester find_by_id can_access access
  send_message-resent new_id socket_id now user input db c found own allowed known =
      let (m, (a, e)) =
        create-retry mongo manual redis ready new_id now (to_input user input) db known in
      (
        m,
        (
          a,
          rw (found, own, or_true (has_permission user.role chat_read_any))
              (send_in-resent new_id socket_id now user input db (to_conversation_ref c)
                (to_message_response m) (own-customer c user.id own) allowed e),
        ),
      )
