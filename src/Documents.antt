-- ===== src/Documents.antt =====
-- The documents that MongoDB stores: src/modules/*/models/*.types.ts.
-- Ids and other opaque texts are numbers, a date is its milliseconds, and a text that the code cuts
-- is its list of UTF-16 code units.
use chat_app_backend.Prelude.{ℕ, Option, List, Bool, true, false}
use chat_app_backend.Access.{Role}

pub data AccountStatus : Type 0 where
  pending approved rejected : AccountStatus

-- A user account.
pub record User : Type 0 where
  pub id : ℕ
  pub name : ℕ
  pub email : ℕ
  pub password_hash : ℕ
  pub role : Role
  pub status : AccountStatus
  pub created_at : ℕ

-- `opened` is the source's 'open'.
pub data ConversationStatus : Type 0 where
  opened closed : ConversationStatus

pub data ConversationTopic : Type 0 where
  general billing technical sales : ConversationTopic

pub record Conversation : Type 0 where
  pub id : ℕ
  pub customer_id : ℕ
  pub assigned_agent_id : Option ℕ
  pub status : ConversationStatus
  pub topic : ConversationTopic
  pub assigned_at : Option ℕ
  pub last_message_at : Option ℕ
  pub last_message_preview : Option (List ℕ)
  pub created_at : ℕ

pub data MessageStatus : Type 0 where
  sent delivered read : MessageStatus

pub record Message : Type 0 where
  pub id : ℕ
  pub conversation_id : ℕ
  pub sender_id : ℕ
  pub client_message_id : ℕ
  pub text : List ℕ
  pub status : MessageStatus
  pub delivered_at : Option ℕ
  pub read_at : Option ℕ
  pub created_at : ℕ

pub data AgentAvailability : Type 0 where
  online busy offline : AgentAvailability

pub record AgentProfile : Type 0 where
  pub user_id : ℕ
  pub availability : AgentAvailability
  pub skills : List ConversationTopic
  pub max_concurrent_chats : ℕ
  pub active_chats : ℕ
  pub last_assigned_at : Option ℕ

-- src/modules/presence/presence.store.ts
pub record PresenceSnapshot : Type 0 where
  pub online : Bool
  pub last_seen : Option ℕ

abbrev pub is_approved : AccountStatus → Bool
is_approved approved = true
is_approved _ = false

abbrev pub is_pending : AccountStatus → Bool
is_pending pending = true
is_pending _ = false

abbrev pub is_opened : ConversationStatus → Bool
is_opened opened = true
is_opened closed = false

abbrev pub is_closed : ConversationStatus → Bool
is_closed opened = false
is_closed closed = true

abbrev pub is_sent : MessageStatus → Bool
is_sent sent = true
is_sent _ = false

abbrev pub is_delivered : MessageStatus → Bool
is_delivered delivered = true
is_delivered _ = false

abbrev pub is_read : MessageStatus → Bool
is_read read = true
is_read _ = false

abbrev pub is_online : AgentAvailability → Bool
is_online online = true
is_online _ = false

abbrev pub is_offline : AgentAvailability → Bool
is_offline offline = true
is_offline _ = false
