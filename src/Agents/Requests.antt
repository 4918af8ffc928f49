-- ===== src/Agents/Requests.antt =====
-- What reaches the routing, as one type: the chat hooks, the agents' routes and the tasks that the
-- services start. `serve` runs one of them, `serve_all` what one process runs one after another.
use chat_app_backend.Prelude.{ℕ, Option, List, [], ◌∷◌}
use chat_app_backend.Access.{Role}
use chat_app_backend.Mongo.{Mongo}
use chat_app_backend.Server.{M, pure, ◌>>◌, try_catch}
use chat_app_backend.Chat.Conversations.{Requester}
use chat_app_backend.Agents.Assignment.{assign_now, claim_conversation}
use chat_app_backend.Agents.Moves.{
  transfer, staff_reply_guard, on_message_created, drain, requeue_chats,
}

pub data Request : Type 0 where
  message : ℕ → Role → Request
  staff_reply claims : ℕ → Requester → Request
  transfers : ℕ → Option ℕ → Request
  assigns requeues : ℕ → Request
  drains : Request

module _ (mongo : Mongo) where
  unfoldable pub serve : Request → M (Unit {0})
  serve (message id sender) = on_message_created mongo id sender
  serve (staff_reply id staff) = staff_reply_guard mongo id staff
  serve (claims id actor) = claim_conversation mongo id actor >> pure tt
  serve (transfers id to) = transfer mongo id to >> pure tt
  serve (assigns id) = assign_now mongo id >> pure tt
  serve (requeues id) = requeue_chats mongo id >> pure tt
  serve drains = drain mongo

  -- A request that is rejected answers with its error, and the next one runs.
  unfoldable pub serve_all : List Request → M (Unit {0})
  unfolding serve
  serve_all [] = pure tt
  serve_all (r ∷ rs) = try_catch (serve r) (λ e. pure tt) >> serve_all rs
