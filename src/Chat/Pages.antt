-- ===== src/Chat/Pages.antt =====
-- src/modules/chat/chat.mapper.ts and the pages of a conversation's history. A cursor is the pair that
-- its text encodes; dates stay milliseconds.
use chat_app_backend.Prelude.{ℕ, Bool, ◌&&◌, Option, List, ◌==◌}
use chat_app_backend.Documents.{Message, MessageStatus}

pub record MessageResponse : Type 0 where
  pub id : ℕ
  pub client_message_id : ℕ
  pub conversation_id : ℕ
  pub sender_id : ℕ
  pub text : List ℕ
  pub status : MessageStatus
  pub created_at : ℕ
  pub delivered_at : Option ℕ
  pub read_at : Option ℕ

unfoldable pub to_message_response : Message → MessageResponse
to_message_response message = record {
  id = message.id;
  client_message_id = message.client_message_id;
  conversation_id = message.conversation_id;
  sender_id = message.sender_id;
  text = message.text;
  status = message.status;
  created_at = message.created_at;
  delivered_at = message.delivered_at;
  read_at = message.read_at;
}

-- src/common/utils/pagination.ts, `DecodedCursor`
pub record Cursor : Type 0 where
  pub created_at : ℕ
  pub id : ℕ

pub record HistoryPage : Type 0 where
  pub messages : List MessageResponse
  pub next_cursor : Option Cursor

-- `chat:history:{conversationId}:v{version}:{limit}`
pub record PageKey : Type 0 where
  pub conversation_id : ℕ
  pub version : ℕ
  pub limit : ℕ

abbrev pub same_page : PageKey → PageKey → Bool
same_page j k =
    j.conversation_id == k.conversation_id && (j.version == k.version && j.limit == k.limit)
