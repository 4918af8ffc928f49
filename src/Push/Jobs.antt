-- ===== src/Push/Jobs.antt =====
-- The stored subscriptions of src/modules/push and the jobs that it hands to BullMQ. A job's id is its
-- constructor with the first numbers: BullMQ takes no job whose id it has already.
use chat_app_backend.Prelude.{ℕ, Bool, Option, List}

-- A row of src/modules/push/models/push-subscription.types.ts; the encrypted
-- subscription is base64.
pub record Device : Type 0 where
  pub id : ℕ
  pub user_id : ℕ
  pub endpoint_hash : ℕ
  pub encrypted_subscription : List ℕ
  pub expires_at : Option ℕ
  pub user_agent : Option (List ℕ)
  pub last_success_at : Option ℕ
  pub failure_count : ℕ
  pub updated_at : ℕ

pub record MessageJob : Type 0 where
  pub conversation_id : ℕ
  pub message_id : ℕ
  pub sender_id : ℕ
  pub sender_name : ℕ
  pub sender_is_customer : Bool
  pub text : List ℕ

-- The title and body of the notification, and what its `url` and `tag` are made of.
pub record PushPayload : Type 0 where
  pub title : ℕ
  pub body : List ℕ
  pub conversation_id : ℕ
  pub message_id : ℕ

-- What is added to the queue: `message-{messageId}` after a delay, and `deliver-{messageId}-{deviceId}`.
pub data Job : Type 0 where
  notify : MessageJob → ℕ → Job
  deliver : ℕ → PushPayload → Job
