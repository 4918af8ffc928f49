-- ===== src/Chat/Messages/Forward/Writes.antt =====
-- The calls of MessagesService that write move no message back.
use chat_app_backend.Prelude.{ℕ, Bool, Option, none, some, List, [], ◌==◌, ltb, arith}
use chat_app_backend.Documents.{Message}
use chat_app_backend.Errors.{Failure, http, duplicate_key, unavailable, unrecoverable, thrown}
use chat_app_backend.Mongo.{Mongo, IsDocumented}
use chat_app_backend.Redis.{Redis}
use chat_app_backend.Server.{Db, access}
use chat_app_backend.Server.Triples.{
  Triple-current_time, Stays, Stays-pure, Stays-throw, Stays-bind, Stays-if, Stays-try,
}
use chat_app_backend.Chat.Side.{ChatSide, ConversationRef}
use chat_app_backend.Chat.Cache.{is_ready, invalidate, bump}
use chat_app_backend.Chat.Conversations.{or_throw, touch_last_message, update_conversation}
use chat_app_backend.Chat.Messages.{
  CreateMessageInput, create, create_new, already_saved, invalidate_of, read_if, read_through,
  read_it_at, insert_message, find_saved, mark_delivered, mark_delivered_to, mark_read,
  update_messages, deliver_at, new_message, same_message,
}
use chat_app_backend.Chat.Messages.Forward.{
  Reached, IsForward, Raises, count-update_if, update_one-Reached, insert-Reached, access-Reached,
}

module _ (mongo : Mongo) (laws : IsDocumented mongo) (redis : Redis) (ready : ℕ → Bool)
    (id r n : ℕ) where
  pub or_throw-Stays :
      {A : Type 0} (e : Failure) (o : Option A) → Stays IsForward (Reached id r n) (or_throw e o)
  unfolding or_throw
  or_throw-Stays e none = Stays-throw e
  or_throw-Stays e (some a) = Stays-pure a

  pub invalidate-Stays : (c : ℕ) → Stays IsForward (Reached id r n) (invalidate redis ready c)
  unfolding invalidate is_ready bump
  invalidate-Stays c = Stays-bind (Stays-bind Triple-current_time (λ now. Stays-pure _)) (λ up.
      Stays-if up
        (Stays-try (access-Reached id r n _ (λ now db h. record { enough = h.enough }))
          (λ e. Stays-pure tt))
        (Stays-pure tt))

  pub insert_message-Stays :
      (new : ℕ) (input : CreateMessageInput)
      → Stays IsForward (Reached id r n) (insert_message mongo redis ready new input)
  unfolding insert_message
  insert_message-Stays new input =
      Stays-bind
        (access-Reached id r n _ (λ now db h.
          insert-Reached id r n (new_message new input now) _
            (laws.insert_one-Inserts Message same_message _ db.messages) h))
        (λ o. or_throw-Stays _ o)

  pub update_messages-Stays :
      (p : Message → Bool) (u : Message → Message)
      → Raises p u
      → Stays IsForward (Reached id r n) (update_messages mongo redis ready p u)
  unfolding update_messages
  update_messages-Stays p u up = access-Reached id r n _ (λ now db h. record {
    enough =
        rw (laws.update_many_lem Message p u db.messages)
          (omega (arith, count-update_if id r n p u up db.messages, h.enough));
  })

  pub read-Stays :
      {A : Type 0} (f : ℕ → Db → A)
      → Stays IsForward (Reached id r n) (access (λ now db. (db, f now db)))
  read-Stays f = access-Reached id r n _ (λ now db h. h)

  pub touch-Stays :
      (c : ℕ) (text : List ℕ) (at : ℕ)
      → Stays IsForward (Reached id r n) (touch_last_message mongo c text at)
  unfolding touch_last_message update_conversation
  touch-Stays c text at = access-Reached id r n _ (λ now db h. record { enough = h.enough })

  pub create-Stays :
      (new : ℕ) (input : CreateMessageInput)
      → Stays IsForward (Reached id r n) (create mongo redis ready new input)
  unfolding create create_new find_saved already_saved
  create-Stays new input =
      Stays-try
        (Stays-bind (insert_message-Stays new input) (λ m.
          Stays-bind (touch-Stays input.conversation_id input.text m.created_at)
            (λ _. Stays-bind (invalidate-Stays input.conversation_id) (λ _. Stays-pure _))))
        saved
    where
      saved :
          (e : Failure) → Stays IsForward (Reached id r n) (already_saved mongo redis ready input e)
      saved duplicate_key =
          Stays-bind (read-Stays _) (λ o. Stays-bind (or_throw-Stays _ o) (λ m. Stays-pure _))
      saved unavailable = Stays-throw _
      saved unrecoverable = Stays-throw _
      saved thrown = Stays-throw _
      saved (http e) = Stays-throw _

  pub mark_delivered-Stays :
      (m : ℕ) → Stays IsForward (Reached id r n) (mark_delivered mongo redis ready m)
  unfolding mark_delivered invalidate_of
  mark_delivered-Stays m =
      Stays-bind
        (access-Reached id r n _ (λ now db h.
          update_one-Reached id r n _ (deliver_at now) (λ m e. ground arith)
            (laws.update_one-Updates Message _ _ db.messages) h))
        (λ o. Stays-bind (of o) (λ _. Stays-pure _))
    where
      of :
          (o : Option Message)
          → Stays IsForward (Reached id r n) (invalidate_of mongo redis ready o)
      of none = Stays-pure tt
      of (some m) = invalidate-Stays m.conversation_id

  pub mark_delivered_to-Stays :
      (c : ConversationRef) (side : ChatSide)
      → Stays IsForward (Reached id r n) (mark_delivered_to mongo redis ready c side)
  unfolding mark_delivered_to
  mark_delivered_to-Stays c side = Stays-bind Triple-current_time (λ at.
      Stays-bind (update_messages-Stays _ (deliver_at at) (λ m e. ground arith)) (λ modified.
        Stays-if (modified == 0) (Stays-pure []) (
          Stays-bind (invalidate-Stays c.id)
            (λ _. Stays-bind (read-Stays _) (λ rows. Stays-pure _)))))

  pub mark_read-Stays :
      (c : ConversationRef) (side : ChatSide) (m : ℕ)
      → Stays IsForward (Reached id r n) (mark_read mongo redis ready c side m)
  unfolding mark_read read_through read_if
  mark_read-Stays c side m = Stays-bind (read-Stays _) (λ o. of o)
    where
      of :
          (o : Option Message)
          → Stays IsForward (Reached id r n) (read_if mongo redis ready c side o)
      of none = Stays-pure none
      of (some through) = Stays-bind Triple-current_time (λ at.
          Stays-bind (update_messages-Stays _ _ (λ m e. ground arith)) (λ _.
            Stays-bind (update_messages-Stays _ (read_it_at at) (λ m e. ground arith)) (λ k.
              Stays-bind (Stays-if (ltb 0 k) (invalidate-Stays c.id) (Stays-pure tt))
                (λ _. Stays-pure _))))
