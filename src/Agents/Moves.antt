-- ===== src/Agents/Moves.antt =====
-- src/modules/agents/services/assignment.service.ts: moving, closing and requeueing conversations, and
-- what runs on its own: the queue's drain and the rebalance.
use chat_app_backend.Prelude.{
  ℕ, ◌+◌, Bool, true, false, Option, none, some, List, [], ◌∷◌, ltb, same_id, is_some,
  if◌then◌else◌,
}
use chat_app_backend.Access.{Role, agent_assign, has_permission, is_user}
use chat_app_backend.Documents.{Conversation, AgentAvailability, online, busy, offline, is_offline}
use chat_app_backend.Errors.{http, forbidden, Result, ok}
use chat_app_backend.Realtime.Events.{
  manual, requeue, auto_assign, requeue_agent_chats, drain_queue,
}
use chat_app_backend.Realtime.Events
use chat_app_backend.Mongo.{Mongo}
use chat_app_backend.Server.{World, M, pure, throw, ◌>>=◌, ◌>>◌, start, try_catch}
use chat_app_backend.Chat.Conversations.{Requester}
use chat_app_backend.Chat.Assigning.{
  reassign, reopen_if_closed, list_queue, list_open_assigned_to, list_open_assigned_outside,
  count_open_by_agent,
}
use chat_app_backend.Chat.Assigning
use chat_app_backend.Agents.Service.{
  reserve_slot, release_slot, is_agent_id, agent_not_found, get_status,
}
use chat_app_backend.Agents.Assignment.{
  Assigned, no_agent, assignment_changed, may_close, closes, announce, require_open,
  require_open_or_reopen, assign_now, claim_conversation,
}

abbrev pub is_no_agent : Assigned → Bool
is_no_agent no_agent = true
is_no_agent _ = false

module _ (mongo : Mongo) where
  -- A step that is taken only with an agent: `if (agentId) await …`
  unfoldable pub reserve_if : Option ℕ → M (Unit {0})
  reserve_if none = pure tt
  reserve_if (some id) = reserve_slot mongo id true >> pure tt

  unfoldable pub release_if : Option ℕ → M (Unit {0})
  release_if none = pure tt
  release_if (some id) = release_slot mongo id

  unfoldable pub require_agent_id : Option ℕ → M (Unit {0})
  require_agent_id none = pure tt
  require_agent_id (some id) = do
    known ← is_agent_id mongo id
    if known then pure tt else throw agent_not_found

  unfoldable pub announce_move : Conversation → Option ℕ → Option ℕ → M Conversation
  announce_move moved from none = do
    announce mongo moved from requeue
    start (auto_assign moved.id)
    pure moved
  announce_move moved from (some id) = announce mongo moved from manual >> pure moved

  unfoldable pub settle_move : Option ℕ → Option ℕ → Option Conversation → M Conversation
  unfolding release_if announce_move
  settle_move from to none = release_if to >> throw assignment_changed
  settle_move from to (some moved) = release_if from >> announce_move moved from to

  unfoldable pub move : ℕ → Option ℕ → Option ℕ → M Conversation
  unfolding require_agent_id reserve_if settle_move
  move conversation_id from to = do
    require_agent_id to
    reserve_if to
    result ← reassign mongo conversation_id from to
    settle_move from to result

  unfoldable pub transfer : ℕ → Option ℕ → M Conversation
  unfolding move
  transfer conversation_id to = do
    current ← require_open mongo conversation_id
    if same_id current.assigned_agent_id to
        then pure current
        else move conversation_id current.assigned_agent_id to

  unfoldable pub settle_close : Option ℕ → Option Conversation → M (Unit {0})
  unfolding release_if
  settle_close assignee none = pure tt
  settle_close assignee (some before) = do
    release_if assignee
    announce mongo (closes before) assignee Events.closed
    start drain_queue

  -- What `close` does once it has read the conversation as `current`.
  unfoldable pub close_read : ℕ → Requester → Conversation → M (Unit {0})
  unfolding settle_close
  close_read conversation_id actor current =
      if may_close actor current.assigned_agent_id
      then Assigning.close mongo conversation_id >>= settle_close current.assigned_agent_id
      else throw
          (http (forbidden "Only the assigned agent or an admin can close this conversation"))

  unfoldable pub close : ℕ → Requester → M (Unit {0})
  close conversation_id actor =
      require_open mongo conversation_id >>= close_read conversation_id actor

  unfoldable pub guard_assigned : ℕ → Requester → Conversation → M (Unit {0})
  guard_assigned conversation_id staff current =
      if same_id current.assigned_agent_id (some staff.id)
      then pure tt
      else if is_some current.assigned_agent_id
      then throw (http (forbidden "This conversation is assigned to another agent"))
      else claim_conversation mongo conversation_id staff >> pure tt

  unfoldable pub staff_reply_guard : ℕ → Requester → M (Unit {0})
  unfolding guard_assigned
  staff_reply_guard conversation_id staff =
      if has_permission staff.role agent_assign
      then pure tt
      else require_open_or_reopen mongo conversation_id >>= guard_assigned conversation_id staff

  unfoldable pub on_message_created : ℕ → Role → M (Unit {0})
  on_message_created conversation_id sender_role =
      if is_user sender_role
      then try_catch
          (reopen_if_closed mongo conversation_id >> assign_now mongo conversation_id >> pure tt)
          (λ error. pure tt)
      else pure tt

  unfoldable pub drain_all : List Conversation → M (Unit {0})
  drain_all [] = pure tt
  drain_all (c ∷ queue) = do
    result ← assign_now mongo c.id
    if is_no_agent result then pure tt else drain_all queue

  unfoldable pub drained : Result (Unit {0}) × World → Result (Unit {0}) × World
  drained (r, w) = (ok tt, record w { draining = false })

  unfoldable pub drain : M (Unit {0})
  unfolding drain_all drained
  drain w =
      if w.draining
      then (ok tt, w)
      else drained ((list_queue mongo 50 >>= drain_all) (record w { draining = true }))

  unfoldable pub requeue_one : ℕ → ℕ → Option Conversation → M ℕ
  requeue_one agent_id moved none = pure moved
  requeue_one agent_id moved (some c) = do
    release_slot mongo agent_id
    announce mongo c (some agent_id) requeue
    pure (moved + 1)

  unfoldable pub requeue_all : ℕ → ℕ → List Conversation → M ℕ
  unfolding requeue_one
  requeue_all agent_id moved [] = pure moved
  requeue_all agent_id moved (c ∷ chats) = do
    result ← reassign mongo c.id (some agent_id) none
    moved' ← requeue_one agent_id moved result
    requeue_all agent_id moved' chats

  unfoldable pub requeue_chats : ℕ → M ℕ
  unfolding requeue_all
  requeue_chats agent_id = do
    chats ← list_open_assigned_to mongo agent_id
    moved ← requeue_all agent_id 0 chats
    if ltb 0 moved then drain >> pure moved else pure moved

  -- The task that `requeue_agent_chats` stands for: the agent is still offline by choice.
  unfoldable pub requeue_if_offline : ℕ → M (Unit {0})
  requeue_if_offline agent_id =
      try_catch
        (do
          current ← get_status mongo agent_id
          if is_offline current.availability then requeue_chats agent_id >> pure tt else pure tt)
        (λ error. pure tt)

  unfoldable pub on_agent_status_change : ℕ → AgentAvailability → M (Unit {0})
  on_agent_status_change agent_id online = start drain_queue
  on_agent_status_change agent_id offline = start (requeue_agent_chats agent_id)
  on_agent_status_change agent_id busy = pure tt
