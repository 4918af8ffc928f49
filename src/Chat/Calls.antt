-- ===== src/Chat/Calls.antt =====
-- The calls that the gateway and the routes make of `MessagesService`, as one type.
use chat_app_backend.Prelude.{ℕ, Bool, Option, List}
use chat_app_backend.Mongo.{Mongo}
use chat_app_backend.Redis.{Redis}
use chat_app_backend.Server.{M, pure, ◌>>◌}
use chat_app_backend.Chat.Side.{ChatSide, ConversationRef}
use chat_app_backend.Chat.Messages.{
  CursorText, CreateMessageInput, create, mark_delivered, mark_delivered_to, mark_read, get_history,
  get_unread_counts,
}

pub data MessageCall : Type 0 where
  creates : ℕ → CreateMessageInput → MessageCall
  delivers : ℕ → MessageCall
  delivers_to : ConversationRef → ChatSide → MessageCall
  reads : ConversationRef → ChatSide → ℕ → MessageCall
  lists : ℕ → Option CursorText → ℕ → MessageCall
  counts : List ConversationRef → ChatSide → MessageCall

module _ (mongo : Mongo) (redis : Redis) (ready : ℕ → Bool) where
  unfoldable pub call : MessageCall → M (Unit {0})
  call (creates id input) = create mongo redis ready id input >> pure tt
  call (delivers id) = mark_delivered mongo redis ready id >> pure tt
  call (delivers_to c side) = mark_delivered_to mongo redis ready c side >> pure tt
  call (reads c side id) = mark_read mongo redis ready c side id >> pure tt
  call (lists id cursor limit) = get_history mongo redis ready id cursor limit >> pure tt
  call (counts conversations side) =
      get_unread_counts mongo redis ready conversations side >> pure tt
