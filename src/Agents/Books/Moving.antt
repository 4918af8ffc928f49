-- ===== src/Agents/Books/Moving.antt =====
-- Transfers, requeueing, the drain of the queue and the chat hooks keep the books.
use chat_app_backend.Prelude.{
  ℕ, ◌+◌, Bool, true, false, Option, none, some, List, [], ◌∷◌, ltb, same_id, if◌then◌else◌,
  is_some, one_if, All,
}
use chat_app_backend.Access.{Role, agent_assign, has_permission, is_user}
use chat_app_backend.Documents.{Conversation}
use chat_app_backend.Errors.{Result, ok, err}
use chat_app_backend.Realtime.Events.{manual, requeue}
use chat_app_backend.Mongo.{Mongo, IsDocumented}
use chat_app_backend.Server.{World, ◌>>=◌}
use chat_app_backend.Server.Triples.{
  Stays-pure, Stays-throw, Stays-bind, Stays-if, Triple, Ends, Triple-access, Triple-pure,
  Triple-bind, Triple-start, Triple-try, Triple-weaken,
}
use chat_app_backend.Users.Service.{find_public_by_id}
use chat_app_backend.Chat.Conversations.{Requester, update_conversation}
use chat_app_backend.Chat.Assigning.{reopen_if_closed, list_queue, list_open_assigned_to}
use chat_app_backend.Agents.Service.{is_agent_id}
use chat_app_backend.Agents.Assignment.{require_open_or_reopen}
use chat_app_backend.Agents.Moves.{
  reserve_if, release_if, require_agent_id, announce_move, settle_move, move, transfer,
  guard_assigned, staff_reply_guard, on_message_created, is_no_agent, drain_all, drained, drain,
  requeue_one, requeue_all, requeue_chats,
}
use chat_app_backend.Agents.Books.{Books, IsCalm, Books-stable, reopen-Books}
use chat_app_backend.Agents.Books.Accesses.{
  Moved, release_slot-Books, reassign-Books, read-Books, no_slot, zero_slot, forced_slot,
  reserve_slot-Reserved,
}
use chat_app_backend.Agents.Books.Handlers.{
  Keeps, announce-Keeps, require_open-Keeps, assign_now-Keeps, claim_conversation-Keeps,
}

module _ (mongo : Mongo) (laws : IsDocumented mongo) (a k : ℕ) where
  reserve_if-Books :
      (to : Option ℕ)
      → Triple IsCalm (Books a k) (reserve_if mongo to) (λ r db. elim r [
        | ok _ ↦ Books a (k + one_if (same_id to (some a))) db
        | err _ ↦ Books a k db
      ])
  unfolding reserve_if
  reserve_if-Books none = Triple-pure tt (λ db b. zero_slot b)
  reserve_if-Books (some id) =
      Triple-bind (reserve_slot-Reserved mongo laws a k id true)
        (λ b. Triple-pure tt (λ db r. forced_slot a k id b r)) (λ e db b. b)

  pub release_if-Books :
      (from : Option ℕ)
      → Triple IsCalm
          (Books a (k + one_if (same_id from (some a))))
          (release_if mongo from)
          (λ r db. Books a k db)
  unfolding release_if
  release_if-Books none = Triple-pure tt (λ db b. no_slot b)
  release_if-Books (some id) = release_slot-Books mongo laws a k id

  announce_move-Keeps :
      (c : Conversation) (from to : Option ℕ) → Keeps a k (announce_move mongo c from to)
  unfolding announce_move
  announce_move-Keeps c from none =
      Stays-bind (announce-Keeps mongo laws a k c from requeue)
        (λ _. Stays-bind (Triple-start _) (λ _. Stays-pure c))
  announce_move-Keeps c from (some id) =
      Stays-bind (announce-Keeps mongo laws a k c from manual) (λ _. Stays-pure c)

  settle_move-Keeps :
      (from to : Option ℕ) (r : Option Conversation)
      → Triple IsCalm
          (Moved a k from to (ok r))
          (settle_move mongo from to r)
          (λ r db. Books a k db)
  unfolding settle_move
  settle_move-Keeps from to none =
      Triple-bind (release_if-Books to) (λ _. Stays-throw _) (λ e db b. b)
  settle_move-Keeps from to (some c) =
      Triple-bind (release_if-Books from) (λ _. announce_move-Keeps c from to) (λ e db b. b)

  require_agent_id-Keeps : (to : Option ℕ) → Keeps a k (require_agent_id mongo to)
  unfolding require_agent_id is_agent_id find_public_by_id
  require_agent_id-Keeps none = Stays-pure tt
  require_agent_id-Keeps (some id) =
      Stays-bind (Stays-bind (read-Books mongo laws a k _) (λ found. Stays-pure _))
        (λ known. Stays-if known (Stays-pure tt) (Stays-throw _))

  move-Keeps : (id : ℕ) (from to : Option ℕ) → Keeps a k (move mongo id from to)
  unfolding move
  move-Keeps id from to = Stays-bind (require_agent_id-Keeps to) (λ _.
      Triple-bind (reserve_if-Books to)
        (λ _.
          Triple-bind (reassign-Books mongo laws a k id from to) (settle_move-Keeps from to)
            (λ e db b. b))
        (λ e db b. b))

  pub transfer-Keeps : (id : ℕ) (to : Option ℕ) → Keeps a k (transfer mongo id to)
  unfolding transfer
  transfer-Keeps id to = Stays-bind (require_open-Keeps mongo laws a k id) (λ current.
      Stays-if (same_id current.assigned_agent_id to) (Stays-pure current)
        (move-Keeps id current.assigned_agent_id to))

  guard_assigned-Keeps :
      (id : ℕ) (staff : Requester) (c : Conversation) → Keeps a k (guard_assigned mongo id staff c)
  unfolding guard_assigned
  guard_assigned-Keeps id staff c =
      Stays-if (same_id c.assigned_agent_id (some staff.id)) (Stays-pure tt) (
        Stays-if (is_some c.assigned_agent_id) (Stays-throw _)
          (Stays-bind (claim_conversation-Keeps mongo laws a k id staff) (λ _. Stays-pure tt)))

  reopen_if_closed-Keeps : (id : ℕ) → Keeps a k (reopen_if_closed mongo id)
  unfolding reopen_if_closed update_conversation
  reopen_if_closed-Keeps id = Triple-access _ (Books-stable a k) (λ now db b.
      reopen-Books a k id (laws.update_one-Updates Conversation _ _ db.conversations) b)

  pub staff_reply_guard-Keeps :
      (id : ℕ) (staff : Requester) → Keeps a k (staff_reply_guard mongo id staff)
  unfolding staff_reply_guard require_open_or_reopen
  staff_reply_guard-Keeps id staff =
      Stays-if (has_permission staff.role agent_assign) (Stays-pure tt) (
        Stays-bind
          (Stays-bind (reopen_if_closed-Keeps id) (λ _. require_open-Keeps mongo laws a k id))
          (guard_assigned-Keeps id staff))

  pub on_message_created-Keeps :
      (id : ℕ) (sender : Role) → Keeps a k (on_message_created mongo id sender)
  unfolding on_message_created
  on_message_created-Keeps id sender =
      Stays-if (is_user sender)
        (Triple-try
          (Stays-bind
            (Stays-bind (reopen_if_closed-Keeps id) (λ _. assign_now-Keeps mongo laws a k id))
            (λ _. Stays-pure tt))
          (λ e. Stays-pure tt) (λ x db b. b))
        (Stays-pure tt)

  drain_all-Keeps : (queue : List Conversation) → Keeps a k (drain_all mongo queue)
  unfolding drain_all
  drain_all-Keeps [] = Stays-pure tt
  drain_all-Keeps (c ∷ queue) =
      let rest = drain_all-Keeps queue in
      Stays-bind (assign_now-Keeps mongo laws a k c.id)
        (λ result. Stays-if (is_no_agent result) (Stays-pure tt) rest)

  pub drain-Keeps : Keeps a k (drain mongo)
  unfolding drain list_queue
  drain-Keeps = record { runs = λ w c b. flagged w w.draining c b }
    where
      ended :
          (e : Result (Unit {0}) × World)
          → Ends IsCalm (λ r db. Books a k db) e
          → Ends IsCalm (λ r db. Books a k db) (drained mongo e)
      ended (r, w) e = record { rest = e.rest; holds = e.holds }

      flagged :
          (w : World) (busy : Bool)
          → All IsCalm w.turns
          → Books a k w.db
          → Ends IsCalm
              (λ r db. Books a k db)
              (if busy
                then (ok tt, w)
                else drained mongo
                    ((list_queue mongo 50 >>= drain_all mongo) (record w { draining = true })))
      flagged w true c b = record { rest = c; holds = b }
      flagged w false c b =
          ended _ ((Stays-bind (read-Books mongo laws a k _) drain_all-Keeps).runs _ c b)

  requeue_one-Keeps :
      (id moved : ℕ) (r : Option Conversation)
      → Triple IsCalm
          (Moved a k (some id) none (ok r))
          (requeue_one mongo id moved r)
          (λ r db. Books a k db)
  unfolding requeue_one
  requeue_one-Keeps id moved none =
      Triple-weaken (λ db b. no_slot b) (λ r db b. b) (Stays-pure moved)
  requeue_one-Keeps id moved (some c) =
      Triple-bind (release_slot-Books mongo laws a k id)
        (λ _. Stays-bind (announce-Keeps mongo laws a k c (some id) requeue) (λ _. Stays-pure _))
        (λ e db b. b)

  requeue_all-Keeps :
      (id moved : ℕ) (chats : List Conversation) → Keeps a k (requeue_all mongo id moved chats)
  unfolding requeue_all
  requeue_all-Keeps id moved [] = Stays-pure moved
  requeue_all-Keeps id moved (c ∷ chats) =
      Triple-weaken (λ db b. zero_slot b) (λ r db b. b)
        (Triple-bind (reassign-Books mongo laws a k c.id (some id) none)
          (λ r.
            Triple-bind (requeue_one-Keeps id moved r) (λ moved'. requeue_all-Keeps id moved' chats)
              (λ e db b. b))
          (λ e db b. b))

  pub requeue_chats-Keeps : (id : ℕ) → Keeps a k (requeue_chats mongo id)
  unfolding requeue_chats list_open_assigned_to
  requeue_chats-Keeps id = Stays-bind (read-Books mongo laws a k _) (λ chats.
      Stays-bind (requeue_all-Keeps id 0 chats) (λ moved.
        Stays-if (ltb 0 moved) (Stays-bind drain-Keeps (λ _. Stays-pure moved)) (Stays-pure moved)))
