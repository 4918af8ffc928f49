-- ===== src/Chat/Side.antt =====
-- src/modules/chat/chat-side.ts: a thread has two sides, its customer and the support team.
use chat_app_backend.Prelude.{ℕ, Bool, not, ◌==◌, if◌then◌else◌}

pub data ChatSide : Type 0 where
  customer staff : ChatSide

pub record ConversationRef : Type 0 where
  pub id : ℕ
  pub customer_id : ℕ

unfoldable pub side_of : ConversationRef → ℕ → ChatSide
side_of conversation user_id = if conversation.customer_id == user_id then customer else staff

unfoldable pub other_side : ChatSide → ChatSide
other_side customer = staff
other_side staff = customer

-- The query on `senderId` that matches the messages of one side.
unfoldable pub sent_by : ChatSide → ℕ → ℕ → Bool
sent_by customer customer_id sender_id = sender_id == customer_id
sent_by staff customer_id sender_id = not (sender_id == customer_id)
