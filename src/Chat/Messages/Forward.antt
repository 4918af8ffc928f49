-- ===== src/Chat/Messages/Forward.antt =====
-- The status of a stored message only moves forward: sent, delivered, read.
pub mod Writes
pub mod Calls
use chat_app_backend.Prelude.{
  ℕ, ◌+◌, ◌≤◌, ◌≡◌, refl, ap, Bool, true, false, not, ◌&&◌, Option, none, some, List, [], ◌∷◌, ◌++◌,
  map, ◌==◌, leb, ltb, if◌then◌else◌, count, count-append, one_if, All, arith, inl, inr, Bool-cases,
}
use chat_app_backend.Documents.{Message, MessageStatus, sent, delivered, read, is_sent, is_read}
use chat_app_backend.Errors.{Result, ok, err, Failure, http, duplicate_key, unavailable}
use chat_app_backend.Mongo.{Mongo, IsDocumented, Updates, Inserts, refused, stored, update_if}
use chat_app_backend.Mongo.Facts.{Updates-cases}
use chat_app_backend.Redis.{Redis}
use chat_app_backend.Server.{Db, M, World, Turn, pure, throw, ◌>>=◌, ◌>>◌, access, try_catch}
use chat_app_backend.Server.Triples.{
  Triple, Triple-attempt, Triple-current_time, Stays, Stays-pure, Stays-throw, Stays-bind, Stays-if,
  Stays-try, Triple-pure, Triple-bind, Triple-try, Triple-use,
}
use chat_app_backend.Chat.Pages.{PageKey, HistoryPage}
use chat_app_backend.Chat.Side.{ChatSide, ConversationRef}
use chat_app_backend.Chat.Cache.{
  noop, Lookup, hit, miss, found, get_first_page, look_up, is_ready, store, set_page, invalidate,
  bump,
}
use chat_app_backend.Chat.Conversations.{or_throw, touch_last_message, update_conversation}
use chat_app_backend.Chat.Messages.{
  CreateMessageInput, create, create_new, already_saved, invalidate_of, read_if, read_through,
  read_it_at, CursorText, decode_cursor, get_history, load_page, fill, insert_message, find_saved,
  inserted, mark_delivered, mark_delivered_to, mark_read, update_messages, deliver_at, new_message,
  same_message,
}

abbrev pub progress : MessageStatus → ℕ
progress sent = 0
progress delivered = 1
progress read = 2

-- Message `id` has come as far as `r`.
abbrev pub is_at_least : ℕ → ℕ → Message → Bool
is_at_least id r m = m.id == id && leb r (progress m.status)

-- At least `n` stored messages with this id have come as far as `r`: with distinct ids, `n` is 0 or 1.
pub record Reached (id r n : ℕ) (db : Db) : Type 0 where
  pub enough : n ≤ count (is_at_least id r) db.messages

-- Other requests move no message back either. Their calls and ours may fail.
pub record IsForward (t : Turn) : Type 0 where
  pub keeps : (id r n : ℕ) (db : Db) → Reached id r n db → Reached id r n (t.others db)

-- An update that moves a message on.
abbrev pub Raises : (Message → Bool) → (Message → Message) → Type 0
Raises p u =
    (m : Message) → p m ≡ true → ((u m).id ≡ m.id) × (progress m.status ≤ progress (u m).status)

module _ (id r n : ℕ) where
  pub count-update_if :
      (p : Message → Bool) (u : Message → Message)
      → Raises p u
      → (ms : List Message)
      → count (is_at_least id r) ms ≤ count (is_at_least id r) (map (update_if p u) ms)
  count-update_if p u up [] = omega arith
  count-update_if p u up (m ∷ ms) = elim (Bool-cases (p m)) [
    | inl e ↦ rw e (ground (arith, up m e, count-update_if p u up ms))
    | inr e ↦ rw e (omega (arith, count-update_if p u up ms))
  ]

  pub update_one-Reached :
      (p : Message → Bool) (u : Message → Message) {db : Db} {ms : List Message}
      {o : Option Message}
      → Raises p u
      → Updates p u db.messages ms o
      → Reached id r n db
      → Reached id r n (record db { messages = ms })
  update_one-Reached p u up v h = elim (Updates-cases v) [
    | inl (_, e, _) ↦ record { enough = rw e h.enough }
    | inr (d, c) ↦ record {
      enough = ground (arith, c.counts (is_at_least id r), up d c.matched, h.enough);
    }
  ]

  pub insert-Reached :
      (m : Message) {db : Db} (o : Option (List Message))
      → Inserts same_message m db.messages o
      → Reached id r n db
      → Reached id r n (inserted db m o).0
  unfolding inserted
  insert-Reached m none i h = h
  insert-Reached m (some ms) (refused _ e) h = cc
  insert-Reached m {db} (some ms) (stored xs ys _ s e) h = record {
    enough = ground (
      arith,
      count-append (is_at_least id r) xs ys,
      count-append (is_at_least id r) xs (m ∷ ys),
      ap (count (is_at_least id r)) s,
      h.enough,
    );
  }

  pub access-Reached :
      {A : Type 0} (f : ℕ → Db → Db × A)
      → ((now : ℕ) (db : Db) → Reached id r n db → Reached id r n (f now db).0)
      → Stays IsForward (Reached id r n) (access f)
  access-Reached f h = Triple-attempt f (λ t db c p. c.keeps id r n db p) h (λ db p. p)
