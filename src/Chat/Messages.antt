-- ===== src/Chat/Messages.antt =====
-- src/modules/chat/services/messages.service.ts, method by method.
pub mod Forward
pub mod Coherence
pub mod Retry
pub mod Races
use mathlib.Core.Option
use mathlib.Core.List.{reverse, get_last?}
use chat_app_backend.Prelude.{
  ℕ, ◌+◌, Bool, true, false, not, ◌&&◌, ◌||◌, Option, none, some, List, [], map, ◌==◌, ltb, leb,
  take, count, length, if◌then◌else◌,
}
use chat_app_backend.Documents.{Message, sent, delivered, read, is_sent, is_delivered, is_read}
use chat_app_backend.Errors.{Failure, http, bad_request, duplicate_key}
use chat_app_backend.Mongo.{Mongo}
use chat_app_backend.Redis.{Redis}
use chat_app_backend.Server.{Db, M, pure, throw, ◌>>=◌, ◌>>◌, access, try_catch, current_time}
use chat_app_backend.Chat.Side.{ChatSide, ConversationRef, other_side, sent_by}
use chat_app_backend.Chat.Pages.{MessageResponse, to_message_response, Cursor, HistoryPage}
use chat_app_backend.Chat.Cache.{Lookup, hit, miss, get_first_page, invalidate}
use chat_app_backend.Chat.Conversations.{or_throw, touch_last_message}

abbrev pub invalid_cursor : Failure
invalid_cursor = http (bad_request "INVALID_CURSOR" "Invalid pagination cursor")

-- A cursor that the client sends: it decodes to a position or not.
pub data CursorText : Type 0 where
  garbage : CursorText
  encoded : Cursor → CursorText

abbrev pub decode_cursor : CursorText → Option Cursor
decode_cursor garbage = none
decode_cursor (encoded c) = some c

-- `{ createdAt: -1, _id: -1 }`
abbrev pub newest_first : Message → Message → Bool
newest_first m n =
    if m.created_at == n.created_at then leb n.id m.id else ltb n.created_at m.created_at

-- `$or` of the keyset query: strictly older than the cursor.
abbrev pub is_before : Cursor → Message → Bool
is_before c m = ltb m.created_at c.created_at || (m.created_at == c.created_at && ltb m.id c.id)

abbrev pub is_in : ℕ → Message → Bool
is_in conversation_id m = m.conversation_id == conversation_id

abbrev pub cursor_of : Message → Cursor
cursor_of m = record { created_at = m.created_at; id = m.id }

-- `rows` holds one row more than the page if there is an older one.
unfoldable pub to_page : ℕ → List Message → HistoryPage
to_page limit rows =
    let has_more = ltb limit (length rows) in
    let page = if has_more then take limit rows else rows in
    record {
      messages = reverse (map to_message_response page);
      next_cursor = if has_more then Option.map cursor_of (get_last? page) else none;
    }

pub record CreateMessageInput : Type 0 where
  pub conversation_id : ℕ
  pub sender_id : ℕ
  pub client_message_id : ℕ
  pub text : List ℕ

pub record Created : Type 0 where
  pub message : MessageResponse
  pub created : Bool

pub record ReadResult : Type 0 where
  pub read_at : ℕ
  pub updated_count : ℕ

abbrev pub new_message : ℕ → CreateMessageInput → ℕ → Message
new_message id input now = record {
  id = id;
  conversation_id = input.conversation_id;
  sender_id = input.sender_id;
  client_message_id = input.client_message_id;
  text = input.text;
  status = sent;
  delivered_at = none;
  read_at = none;
  created_at = now;
}

-- The unique index `{ conversationId: 1, clientMessageId: 1 }`.
abbrev pub same_message : Message → Message → Bool
same_message m n =
    m.conversation_id == n.conversation_id && m.client_message_id == n.client_message_id

abbrev pub deliver_at : ℕ → Message → Message
deliver_at at m = record m { status = delivered; delivered_at = some at }

abbrev pub read_it_at : ℕ → Message → Message
read_it_at at m = record m { status = read; read_at = some at }

abbrev pub is_stamped : ℕ → Option ℕ → Bool
is_stamped at none = false
is_stamped at (some t) = t == at

-- What a side has not received yet, and what it has seen up to a message.
abbrev pub undelivered : ConversationRef → ChatSide → Message → Bool
undelivered c side m =
    is_in c.id m && (sent_by (other_side side) c.customer_id m.sender_id && is_sent m.status)

abbrev pub seen : ConversationRef → ChatSide → ℕ → Message → Bool
seen c side through m =
    is_in c.id m
    && (sent_by (other_side side) c.customer_id m.sender_id && leb m.created_at through)

abbrev pub unread : ConversationRef → ChatSide → Message → Bool
unread c side m =
    is_in c.id m && (sent_by (other_side side) c.customer_id m.sender_id && not (is_read m.status))

unfoldable pub inserted : Db → Message → Option (List Message) → Db × Option Message
inserted db m none = (db, none)
inserted db m (some ms) = (record db { messages = ms }, some m)

module _ (mongo : Mongo) (redis : Redis) (ready : ℕ → Bool) where
  unfoldable pub page_of : (Message → Bool) → ℕ → Db → HistoryPage
  page_of p limit db =
      to_page limit (take (limit + 1) (mongo.find_sorted Message newest_first p db.messages))

  unfoldable pub load_page : (Message → Bool) → ℕ → M HistoryPage
  load_page p limit = access λ now db. (db, page_of p limit db)

  unfoldable pub fill : ℕ → ℕ → Lookup → M HistoryPage
  fill conversation_id limit (hit page) = pure page
  fill conversation_id limit (miss store) = do
    page ← load_page (is_in conversation_id) limit
    store page
    pure page

  unfoldable pub get_history : ℕ → Option CursorText → ℕ → M HistoryPage
  get_history conversation_id none limit =
      get_first_page redis ready conversation_id limit >>= fill conversation_id limit
  get_history conversation_id (some text) limit = do
    cursor ← or_throw invalid_cursor (decode_cursor text)
    load_page (λ m. is_in conversation_id m && is_before cursor m) limit

  unfoldable pub insert_message : ℕ → CreateMessageInput → M Message
  unfolding inserted
  insert_message id input = do
    stored ← access λ now db.
        let m = new_message id input now in
        inserted db m (mongo.insert_one Message same_message m db.messages)
    or_throw duplicate_key stored

  unfoldable pub find_saved : CreateMessageInput → M (Option Message)
  find_saved input = access λ now db. (
    db,
    mongo.find_one Message
        (λ m.
          m.conversation_id == input.conversation_id
          && m.client_message_id == input.client_message_id)
        db.messages,
  )

  -- The body of the `try`.
  unfoldable pub create_new : ℕ → CreateMessageInput → M Created
  create_new id input = do
    m ← insert_message id input
    touch_last_message mongo input.conversation_id input.text m.created_at
    invalidate redis ready input.conversation_id
    pure (record { message = to_message_response m; created = true })

  -- The `catch`: a duplicate is answered with what is stored.
  unfoldable pub already_saved : CreateMessageInput → Failure → M Created
  already_saved input duplicate_key = do
    existing ← find_saved input
    m ← or_throw duplicate_key existing
    pure (record { message = to_message_response m; created = false })
  already_saved input error = throw error

  unfoldable pub create : ℕ → CreateMessageInput → M Created
  create id input = try_catch (create_new id input) (already_saved input)

  unfoldable pub invalidate_of : Option Message → M (Unit {0})
  invalidate_of none = pure tt
  invalidate_of (some m) = invalidate redis ready m.conversation_id

  unfoldable pub mark_delivered : ℕ → M (Option MessageResponse)
  unfolding invalidate_of
  mark_delivered message_id = do
    changed ← access λ now db.
        let r =
          mongo.update_one Message (λ m. m.id == message_id && is_sent m.status) (deliver_at now)
            db.messages in
        (record db { messages = r.0 }, Option.map (deliver_at now) r.1)
    invalidate_of changed
    pure (Option.map to_message_response changed)

  -- `updateMany`, with the number of documents that it changes.
  unfoldable pub update_messages : (Message → Bool) → (Message → Message) → M ℕ
  update_messages p u = access λ now db.
      (record db { messages = mongo.update_many Message p u db.messages }, count p db.messages)

  unfoldable pub changed_rows : ConversationRef → ℕ → M (List MessageResponse)
  changed_rows c at = do
    invalidate redis ready c.id
    rows ← access λ now db. (
      db,
      mongo.find Message
          (λ m. is_in c.id m && (is_delivered m.status && is_stamped at m.delivered_at))
          db.messages,
    )
    pure (map to_message_response rows)

  unfoldable pub mark_delivered_to : ConversationRef → ChatSide → M (List MessageResponse)
  unfolding changed_rows
  mark_delivered_to c side = do
    at ← current_time
    modified ← update_messages (undelivered c side) (deliver_at at)
    if modified == 0 then pure [] else changed_rows c at

  unfoldable pub read_through : ConversationRef → ChatSide → Message → M (Option ReadResult)
  read_through c side through = do
    at ← current_time
    update_messages (λ m. seen c side through.created_at m && is_sent m.status)
        (λ m. record m { delivered_at = some at })
    modified ←
        update_messages (λ m. seen c side through.created_at m && not (is_read m.status))
          (read_it_at at)
    if ltb 0 modified then invalidate redis ready c.id else pure tt
    pure (some (record { read_at = at; updated_count = modified }))

  unfoldable pub read_if : ConversationRef → ChatSide → Option Message → M (Option ReadResult)
  read_if c side none = pure none
  read_if c side (some through) = read_through c side through

  unfoldable pub mark_read : ConversationRef → ChatSide → ℕ → M (Option ReadResult)
  unfolding read_if
  mark_read c side through_message_id = do
    through ← access λ now db.
        (db, mongo.find_one Message (λ m. m.id == through_message_id && is_in c.id m) db.messages)
    read_if c side through

  unfoldable pub get_unread_counts : List ConversationRef → ChatSide → M (List (ℕ × ℕ))
  get_unread_counts conversations side = access λ now db.
      (db, map (λ c. (c.id, length (mongo.find Message (unread c side) db.messages))) conversations)
