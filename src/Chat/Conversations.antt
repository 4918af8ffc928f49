-- ===== src/Chat/Conversations.antt =====
-- src/modules/chat/services/conversations.service.ts, method by method.
pub mod Visibility
pub mod Threads
use mathlib.Core.Option
use chat_app_backend.Prelude.{
  ℕ, Bool, true, false, not, ◌&&◌, ◌||◌, Option, none, some, List, ◌==◌, leb, if◌then◌else◌, take,
}
use chat_app_backend.Access.{Role, chat_read_any, has_permission}
use chat_app_backend.Documents.{Conversation, ConversationTopic, general, opened}
use chat_app_backend.Errors.{Failure, http, duplicate_key, not_found}
use chat_app_backend.Mongo.{Mongo}
use chat_app_backend.Server.{Db, M, pure, throw, ◌>>=◌, ◌>>◌, access}
use chat_app_backend.Chat.Side.{ConversationRef}

-- `Pick<CurrentUser, 'id' | 'role'>`
pub record Requester : Type 0 where
  pub id : ℕ
  pub role : Role

abbrev pub preview_length : ℕ
preview_length = 200

abbrev pub conversation_not_found : Failure
conversation_not_found = http (not_found "CONVERSATION_NOT_FOUND" "Conversation not found")

unfoldable pub to_conversation_ref : Conversation → ConversationRef
to_conversation_ref conversation = record {
  id = conversation.id;
  customer_id = conversation.customer_id;
}

unfoldable pub can_access : Conversation → Requester → Bool
can_access conversation requester =
    has_permission requester.role chat_read_any || conversation.customer_id == requester.id

-- A row of the unique index `{ customerId: 1 }`.
abbrev pub same_customer : Conversation → Conversation → Bool
same_customer c d = c.customer_id == d.customer_id

-- The defaults of the schema.
abbrev pub new_conversation : ℕ → ℕ → ℕ → Conversation
new_conversation id customer_id now = record {
  id = id;
  customer_id = customer_id;
  assigned_agent_id = none;
  status = opened;
  topic = general;
  assigned_at = none;
  last_message_at = none;
  last_message_preview = none;
  created_at = now;
}

-- A date in a descending sort: no date comes last.
abbrev pub later_date : Option ℕ → Option ℕ → Bool
later_date none none = true
later_date none (some _) = false
later_date (some _) none = true
later_date (some a) (some b) = leb b a

-- `{ lastMessageAt: -1, createdAt: -1 }`
abbrev pub more_recent : Conversation → Conversation → Bool
more_recent c d =
    if later_date c.last_message_at d.last_message_at
    then not (later_date d.last_message_at c.last_message_at) || leb d.created_at c.created_at
    else false

-- `$or: [{ lastMessageAt: null }, { lastMessageAt: { $lte: sentAt } }]`
abbrev pub not_newer_than : ℕ → Option ℕ → Bool
not_newer_than sent_at none = true
not_newer_than sent_at (some at) = leb at sent_at

-- `if (!value) throw error`
unfoldable pub or_throw : {A : Type 0} → Failure → Option A → M A
or_throw e none = throw e
or_throw e (some a) = pure a

module _ (mongo : Mongo) where
  unfoldable pub update_conversation :
      (Conversation → Bool) → (Conversation → Conversation) → Db → Db × Option Conversation
  update_conversation p u db =
      let r = mongo.update_one Conversation p u db.conversations in
      (record db { conversations = r.0 }, r.1)

  unfoldable pub find_by_id : ℕ → M (Option Conversation)
  find_by_id conversation_id =
      access
        λ now db. (db, mongo.find_one Conversation (λ c. c.id == conversation_id) db.conversations)

  unfoldable pub admit_requester : Requester → Option Conversation → M Conversation
  admit_requester requester none = throw conversation_not_found
  admit_requester requester (some conversation) =
      if can_access conversation requester then pure conversation else throw conversation_not_found

  unfoldable pub get_for_requester : ℕ → Requester → M Conversation
  unfolding admit_requester
  get_for_requester conversation_id requester =
      find_by_id conversation_id >>= admit_requester requester

  unfoldable pub find_of_customer : ℕ → M (Option Conversation)
  find_of_customer customer_id = access λ now db.
      (db, mongo.find_one Conversation (λ c. c.customer_id == customer_id) db.conversations)

  unfoldable pub inserted :
      Db → Conversation → Option (List Conversation) → Db × Option Conversation
  inserted db c none = (db, none)
  inserted db c (some cs) = (record db { conversations = cs }, some c)

  -- `id` is the object id that the driver makes up.
  unfoldable pub insert_conversation : ℕ → ℕ → M (Option Conversation)
  unfolding inserted
  insert_conversation id customer_id = access λ now db.
      let c = new_conversation id customer_id now in
      inserted db c (mongo.insert_one Conversation same_customer c db.conversations)

  -- The insert that lost the race reads what the winner stored.
  unfoldable pub created_or_winner : ℕ → Option Conversation → M Conversation
  unfolding or_throw
  created_or_winner customer_id (some c) = pure c
  created_or_winner customer_id none = find_of_customer customer_id >>= or_throw duplicate_key

  unfoldable pub existing_or_created : ℕ → ℕ → Option Conversation → M Conversation
  existing_or_created id customer_id (some c) = pure c
  existing_or_created id customer_id none =
      insert_conversation id customer_id >>= created_or_winner customer_id

  unfoldable pub get_or_create_for_customer : ℕ → ℕ → M Conversation
  unfolding existing_or_created created_or_winner
  get_or_create_for_customer id customer_id =
      find_of_customer customer_id >>= existing_or_created id customer_id

  unfoldable pub list_for_requester : Requester → M (List Conversation)
  list_for_requester requester = access λ now db. (
    db,
    mongo.find_sorted Conversation more_recent
        (λ c. has_permission requester.role chat_read_any || c.customer_id == requester.id)
        db.conversations,
  )

  unfoldable pub touch_last_message : ℕ → List ℕ → ℕ → M (Unit {0})
  unfolding update_conversation
  touch_last_message conversation_id text sent_at = access λ now db. (
    (update_conversation (λ c. c.id == conversation_id && not_newer_than sent_at c.last_message_at)
        (λ c. record c {
          last_message_at = some sent_at;
          last_message_preview = some (take preview_length text);
        })
        db).0,
    tt,
  )

  unfoldable pub set_topic : ℕ → ℕ → ConversationTopic → M Conversation
  unfolding update_conversation or_throw
  set_topic id customer_id topic = do
    get_or_create_for_customer id customer_id
    updated ← access λ now db.
        (let u = λ (c : Conversation). record c { topic = topic } in
          let r = update_conversation (λ c. c.customer_id == customer_id) u db in
          (r.0, Option.map u r.1))
    or_throw conversation_not_found updated
