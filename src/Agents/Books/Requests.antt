-- ===== src/Agents/Books/Requests.antt =====
-- Whatever the requests, the counters stay equal to the conversations.
use chat_app_backend.Prelude.{ℕ, List, [], ◌∷◌, All}
use chat_app_backend.Mongo.{Mongo, IsDocumented}
use chat_app_backend.Server.{World}
use chat_app_backend.Server.Triples.{Stays-pure, Stays-bind, Triple-try}
use chat_app_backend.Agents.Requests.{
  Request, message, staff_reply, claims, transfers, assigns, requeues, drains, serve, serve_all,
}
use chat_app_backend.Agents.Books.{Books, IsCalm}
use chat_app_backend.Agents.Books.Handlers.{Keeps, assign_now-Keeps, claim_conversation-Keeps}
use chat_app_backend.Agents.Books.Moving.{
  transfer-Keeps, staff_reply_guard-Keeps, on_message_created-Keeps, drain-Keeps,
  requeue_chats-Keeps,
}

module _ (mongo : Mongo) (laws : IsDocumented mongo) (a k : ℕ) where
  serve-Keeps : (r : Request) → Keeps a k (serve mongo r)
  unfolding serve
  serve-Keeps (message id sender) = on_message_created-Keeps mongo laws a k id sender
  serve-Keeps (staff_reply id staff) = staff_reply_guard-Keeps mongo laws a k id staff
  serve-Keeps (claims id actor) =
      Stays-bind (claim_conversation-Keeps mongo laws a k id actor) (λ _. Stays-pure tt)
  serve-Keeps (transfers id to) =
      Stays-bind (transfer-Keeps mongo laws a k id to) (λ _. Stays-pure tt)
  serve-Keeps (assigns id) = Stays-bind (assign_now-Keeps mongo laws a k id) (λ _. Stays-pure tt)
  serve-Keeps (requeues id) =
      Stays-bind (requeue_chats-Keeps mongo laws a k id) (λ _. Stays-pure tt)
  serve-Keeps drains = drain-Keeps mongo laws a k

  serve_all-Keeps : (rs : List Request) → Keeps a k (serve_all mongo rs)
  unfolding serve_all
  serve_all-Keeps [] = Stays-pure tt
  serve_all-Keeps (r ∷ rs) =
      Stays-bind (Triple-try (serve-Keeps r) (λ e. Stays-pure tt) (λ x db b. b))
        (λ _. serve_all-Keeps rs)

-- Take any requests that one process runs one after another: messages, staff replies, claims,
-- transfers, automatic assignments, requeues and drains of the queue. Before each access other
-- requests may change the database, as long as they keep the books and remove no profile, and no
-- access fails. If the counter of an agent equals the agent's open conversations and the slots in
-- flight elsewhere, and no closed conversation has an agent, then so it is afterwards.
pub serve_all-Books :
    (mongo : Mongo) (laws : IsDocumented mongo) (a : ℕ) (rs : List Request) (w : World)
    → All IsCalm w.turns
    → Books a 0 w.db
    → Books a 0 (serve_all mongo rs w).1.db
serve_all-Books mongo laws a rs w calm books =
    ((serve_all-Keeps mongo laws a 0 rs).runs w calm books).holds
