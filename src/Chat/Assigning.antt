-- ===== src/Chat/Assigning.antt =====
-- src/modules/chat/services/conversations.service.ts, the assignment primitives and the queue: each is
-- one conditional update or one query.
use mathlib.Core.Option
use chat_app_backend.Prelude.{
  ℕ, Bool, false, not, ◌&&◌, Option, none, some, List, map, ◌==◌, same_id, is_none, is_some, any,
  take, length,
}
use chat_app_backend.Documents.{Conversation, opened, closed, is_opened, is_closed}
use chat_app_backend.Mongo.{Mongo}
use chat_app_backend.Server.{Db, M, access}
use chat_app_backend.Chat.Conversations.{later_date, update_conversation}

-- `{ lastMessageAt: 1 }`
abbrev pub waiting_longer : Conversation → Conversation → Bool
waiting_longer c d = later_date d.last_message_at c.last_message_at

abbrev pub is_queued : Conversation → Bool
is_queued c = is_opened c.status && (is_none c.assigned_agent_id && is_some c.last_message_at)

abbrev pub is_open_of : ℕ → Conversation → Bool
is_open_of agent_id c = is_opened c.status && same_id c.assigned_agent_id (some agent_id)

-- `$nin: [null, ...agentIds]`
abbrev pub is_outside : List ℕ → Option ℕ → Bool
is_outside agent_ids none = false
is_outside agent_ids (some id) = not (any (◌==◌ id) agent_ids)

-- `toAgentId ? new Date() : null`
abbrev pub assigned_date : Option ℕ → ℕ → Option ℕ
assigned_date none now = none
assigned_date (some _) now = some now

abbrev pub with_agent : Option ℕ → ℕ → Conversation → Conversation
with_agent agent now c = record c {
  assigned_agent_id = agent;
  assigned_at = assigned_date agent now;
}

module _ (mongo : Mongo) where
  -- `findOneAndUpdate` that returns the document as it is afterwards.
  update_and_get :
      (Conversation → Bool) → (Conversation → Conversation) → Db → Db × Option Conversation
  unfolding update_conversation
  update_and_get p u db = let r = update_conversation mongo p u db in (r.0, Option.map u r.1)

  unfoldable pub assign_if_unassigned : ℕ → ℕ → M (Option Conversation)
  unfolding update_and_get
  assign_if_unassigned conversation_id agent_id = access λ now.
      update_and_get
        (λ c. c.id == conversation_id && (is_none c.assigned_agent_id && is_opened c.status))
        (with_agent (some agent_id) now)

  unfoldable pub reassign : ℕ → Option ℕ → Option ℕ → M (Option Conversation)
  unfolding update_and_get
  reassign conversation_id from_agent_id to_agent_id = access λ now.
      update_and_get
        (λ c.
          c.id == conversation_id
          && (same_id c.assigned_agent_id from_agent_id && is_opened c.status))
        (with_agent to_agent_id now)

  -- The document as it was before: the caller needs to know who had it.
  unfoldable pub close : ℕ → M (Option Conversation)
  unfolding update_conversation
  close conversation_id = access λ now.
      update_conversation mongo (λ c. c.id == conversation_id && is_opened c.status)
        (λ c. record c { status = closed; assigned_agent_id = none; assigned_at = none })

  unfoldable pub reopen_if_closed : ℕ → M Bool
  unfolding update_conversation
  reopen_if_closed conversation_id = access λ now db.
      let r =
        update_conversation mongo (λ c. c.id == conversation_id && is_closed c.status)
          (λ c. record c { status = opened }) db in
      (r.0, is_some r.1)

  unfoldable pub list_queue : ℕ → M (List Conversation)
  list_queue limit = access λ now db.
      (db, take limit (mongo.find_sorted Conversation waiting_longer is_queued db.conversations))

  unfoldable pub list_open_assigned_to : ℕ → M (List Conversation)
  list_open_assigned_to agent_id =
      access λ now db. (db, mongo.find Conversation (is_open_of agent_id) db.conversations)

  unfoldable pub list_open_assigned_outside : List ℕ → M (List Conversation)
  list_open_assigned_outside agent_ids = access λ now db. (
    db,
    mongo.find Conversation (λ c. is_opened c.status && is_outside agent_ids c.assigned_agent_id)
        db.conversations,
  )

  -- One row for each agent asked for; the aggregation counts the agent's open threads.
  unfoldable pub count_open_by_agent : List ℕ → M (List (ℕ × ℕ))
  count_open_by_agent agent_ids = access λ now db. (
    db,
    map (λ id. (id, length (mongo.find Conversation (is_open_of id) db.conversations))) agent_ids,
  )

  unfoldable pub count_queue : M ℕ
  count_queue = access λ now db. (db, length (mongo.find Conversation is_queued db.conversations))

  unfoldable pub count_open : M ℕ
  count_open = access λ now db. (
    db,
    length (
        mongo.find Conversation (λ c. is_opened c.status && is_some c.last_message_at)
          db.conversations),
  )
