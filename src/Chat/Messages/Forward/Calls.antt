-- ===== src/Chat/Messages/Forward/Calls.antt =====
-- Every call of MessagesService, the histories included, moves no message back.
use chat_app_backend.Prelude.{ℕ, Bool, true, false, Option, none, some, List, if◌then◌else◌, All}
use chat_app_backend.Errors.{Result, ok, err}
use chat_app_backend.Mongo.{Mongo, IsDocumented}
use chat_app_backend.Redis.{Redis}
use chat_app_backend.Server.{Db, World, pure, try_catch}
use chat_app_backend.Server.Triples.{
  Triple, Triple-current_time, Stays, Stays-pure, Stays-bind, Stays-try, Triple-pure, Triple-bind,
  Triple-try, Triple-use,
}
use chat_app_backend.Chat.Pages.{PageKey, HistoryPage}
use chat_app_backend.Chat.Side.{ChatSide, ConversationRef}
use chat_app_backend.Chat.Cache.{
  noop, Lookup, hit, miss, found, get_first_page, look_up, is_ready, store, set_page,
}
use chat_app_backend.Chat.Messages.{CursorText, decode_cursor, get_history, load_page, fill}
use chat_app_backend.Chat.Messages.Forward.{Reached, IsForward, access-Reached}
use chat_app_backend.Chat.Messages.Forward.Writes.{
  or_throw-Stays, read-Stays, create-Stays, mark_delivered-Stays, mark_delivered_to-Stays,
  mark_read-Stays,
}
use chat_app_backend.Chat.Calls.{
  MessageCall, creates, delivers, delivers_to, reads, lists, counts, call,
}
use chat_app_backend.Chat.Messages.{get_unread_counts}

module _ (mongo : Mongo) (laws : IsDocumented mongo) (redis : Redis) (ready : ℕ → Bool)
    (id r n : ℕ) where
  -- What a miss hands over to fill the cache moves no message.
  Harmless : Lookup → Type 0
  Harmless (hit page) = Unit
  Harmless (miss fill_cache) =
      (page : HistoryPage) → Stays IsForward (Reached id r n) (fill_cache page)

  Looked : Result Lookup → Db → Type 0
  Looked (ok l) db = Reached id r n db × Harmless l
  Looked (err e) db = Reached id r n db

  get_first_page-Looked :
      (c limit : ℕ) → Triple IsForward (Reached id r n) (get_first_page redis ready c limit) Looked
  unfolding get_first_page look_up is_ready store set_page found Looked Harmless
  get_first_page-Looked c limit =
      Triple-bind (Stays-bind Triple-current_time (λ now. Stays-pure _)) up (λ e db h. h)
    where
      stores :
          (key : PageKey) (page : HistoryPage)
          → Stays IsForward (Reached id r n) (store redis ready key page)
      stores key page =
          Stays-try (access-Reached id r n _ (λ now db h. record { enough = h.enough }))
            (λ e. Stays-pure tt)

      of :
          (key : PageKey) (o : Option HistoryPage) (db : Db)
          → Reached id r n db
          → Looked (ok (found redis ready key o)) db
      of key none db h = (h, stores key)
      of key (some page) db h = (h, tt)

      up :
          (b : Bool)
          → Triple IsForward
              (Reached id r n)
              (if b
                then try_catch (look_up redis ready c limit) (λ e. pure (miss noop))
                else pure (miss noop))
              Looked
      up false = Triple-pure _ (λ db h. (h, λ page. Stays-pure tt))
      up true =
          Triple-try {R = Looked}
            (Triple-bind (read-Stays mongo laws redis ready id r n _)
              (λ version.
                Triple-bind (read-Stays mongo laws redis ready id r n _)
                  (λ o. Triple-pure _ (of _ o)) (λ e db h. h))
              (λ e db h. h))
            (λ e. Triple-pure _ (λ db h. (h, λ page. Stays-pure tt))) (λ l db h. h)

  get_history-Stays :
      (c : ℕ) (cursor : Option CursorText) (limit : ℕ)
      → Stays IsForward (Reached id r n) (get_history mongo redis ready c cursor limit)
  unfolding get_history load_page fill Looked Harmless
  get_history-Stays c (some text) limit =
      Stays-bind (or_throw-Stays mongo laws redis ready id r n _ (decode_cursor text))
        (λ cursor. read-Stays mongo laws redis ready id r n _)
  get_history-Stays c none limit = Triple-bind (get_first_page-Looked c limit) filled (λ e db h. h)
    where
      filled :
          (l : Lookup)
          → Triple IsForward
              (Looked (ok l))
              (fill mongo redis ready c limit l)
              (λ x db. Reached id r n db)
      filled (hit page) = Triple-pure page (λ db h. h.0)
      filled (miss fill_cache) =
          Triple-use (λ db h. h.0) (λ db h. h.1)
            (λ harmless.
              Stays-bind (read-Stays mongo laws redis ready id r n _)
                (λ page. Stays-bind (harmless page) (λ _. Stays-pure page)))

  counts-Stays :
      (cs : List ConversationRef) (side : ChatSide)
      → Stays IsForward (Reached id r n) (get_unread_counts mongo redis ready cs side)
  unfolding get_unread_counts
  counts-Stays cs side = read-Stays mongo laws redis ready id r n _

  call-Stays : (c : MessageCall) → Stays IsForward (Reached id r n) (call mongo redis ready c)
  unfolding call
  call-Stays (creates new input) =
      Stays-bind (create-Stays mongo laws redis ready id r n new input) (λ _. Stays-pure tt)
  call-Stays (delivers m) =
      Stays-bind (mark_delivered-Stays mongo laws redis ready id r n m) (λ _. Stays-pure tt)
  call-Stays (delivers_to c side) =
      Stays-bind (mark_delivered_to-Stays mongo laws redis ready id r n c side) (λ _. Stays-pure tt)
  call-Stays (reads c side m) =
      Stays-bind (mark_read-Stays mongo laws redis ready id r n c side m) (λ _. Stays-pure tt)
  call-Stays (lists c cursor limit) =
      Stays-bind (get_history-Stays c cursor limit) (λ _. Stays-pure tt)
  call-Stays (counts cs side) = Stays-bind (counts-Stays cs side) (λ _. Stays-pure tt)

  -- Take any call of `MessagesService`. Each access may fail, and before it other requests may change the
  -- database as long as they move no message back. If at least `n` stored messages with the id `id`
  -- have come as far as `r` in the order sent, delivered, read, then so it is afterwards, whether the
  -- call succeeds or fails.
  pub call-Reached :
      (c : MessageCall) (w : World)
      → All IsForward w.turns
      → Reached id r n w.db
      → Reached id r n (call mongo redis ready c w).1.db
  call-Reached c w turns h = ((call-Stays c).runs w turns h).holds
