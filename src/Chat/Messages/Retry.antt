-- ===== src/Chat/Messages/Retry.antt =====
-- A message that is sent again, after its acknowledgement was lost, is not stored twice.
use chat_app_backend.Prelude.{
  ==_comm, ℕ, ◌≡◌, ◌≢◌, sym, ◌∙◌, refl, Bool, true, false, ◌&&◌, Option, none, some, List, [], ◌∷◌,
  any, count, ◌==◌, arith, inl, inr, Bool-cases,
}
use chat_app_backend.Documents.{Message}
use chat_app_backend.Errors.{ok}
use chat_app_backend.Mongo.{Mongo, IsDocumented, Inserts, refused, stored, Finds, absent, present}
use chat_app_backend.Redis.{Redis}
use chat_app_backend.Server.{Db, quiet, access}
use chat_app_backend.Chat.Pages.{to_message_response}
use chat_app_backend.Chat.Conversations.{or_throw}
use chat_app_backend.Chat.Messages.{
  CreateMessageInput, create, create_new, insert_message, inserted, new_message, same_message,
  already_saved, find_saved,
}

-- The stored message answers to the input's conversation and client id.
abbrev pub answers : CreateMessageInput → Message → Bool
answers input m =
    m.conversation_id == input.conversation_id && m.client_message_id == input.client_message_id

any-count : {D : Type 0} (p : D → Bool) (ds : List D) → any p ds ≡ true → count p ds ≢ 0
any-count p [] e = cc
any-count p (d ∷ ds) e = elim (Bool-cases (p d)) [
  | inl t ↦ rw t (λ z. omega (arith, z))
  | inr t ↦ rw t (λ z. any-count p ds (rw t at e) (omega (arith, z)))
]

same-answers :
    (new now : ℕ) (input : CreateMessageInput) (ms : List Message)
    → any (same_message (new_message new input now)) ms ≡ any (answers input) ms
same-answers new now input [] = refl
same-answers new now input (m ∷ ms) =
    rw
      (
        ==_comm input.conversation_id m.conversation_id,
        ==_comm input.client_message_id m.client_message_id,
      )
      (rw (same-answers new now input ms) refl)

module _ (mongo : Mongo) (laws : IsDocumented mongo) (redis : Redis) (ready : ℕ → Bool) where
  refuses :
      (new now : ℕ) (input : CreateMessageInput) (db : Db)
      → any (answers input) db.messages ≡ true
      → mongo.insert_one Message same_message (new_message new input now) db.messages ≡ none
  refuses new now input db h =
      refused_by
        (laws.insert_one-Inserts Message same_message (new_message new input now) db.messages)
    where
      clash : false ≢ true
      clash e = cc

      refused_by :
          {o : Option (List Message)}
          → Inserts same_message (new_message new input now) db.messages o
          → o ≡ none
      refused_by (refused _ e) = e
      refused_by (stored xs ys n _ _) =
          elim (clash (sym n ∙ same-answers new now input db.messages ∙ h)) [ ]

  finds :
      (input : CreateMessageInput) (db : Db)
      → any (answers input) db.messages ≡ true
      → (m : Message) × ((mongo.find_one Message (answers input) db.messages ≡ some m)
          × (answers input m ≡ true))
  finds input db h = found_by (laws.find_one-Finds Message (answers input) db.messages)
    where
      found_by :
          {o : Option Message}
          → Finds (answers input) db.messages o
          → (m : Message) × ((o ≡ some m) × (answers input m ≡ true))
      found_by (absent n _) = elim (any-count (answers input) db.messages h n) [ ]
      found_by (present xs ys m _ t e) = (m, (e, t))

  -- If a stored message has the input's conversation and client id, a `create` that nothing interrupts
  -- changes nothing, neither the database nor what is sent, and answers with a stored message with that
  -- conversation and client id, marked as not created, whatever the rest of the input.
  pub create-retry :
      (new now : ℕ) (input : CreateMessageInput) (db : Db)
      → any (answers input) db.messages ≡ true
      → (m : Message) × ((answers input m ≡ true)
          × (create mongo redis ready new input (quiet db now)
              ≡ (ok (record { message = to_message_response m; created = false }), quiet db now)))
  unfolding create create_new insert_message inserted already_saved find_saved access or_throw
  create-retry new now input db h =
      let (m, (e, a)) = finds input db h in (m, (a, rw (refuses new now input db h, e) refl))
