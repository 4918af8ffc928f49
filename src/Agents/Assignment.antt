-- ===== src/Agents/Assignment.antt =====
-- src/modules/agents/services/assignment.service.ts: which agent gets which conversation. The promise
-- chain of `autoAssign`, which makes the assignments of one conversation on one server wait for each
-- other, is left out: the turns between two accesses allow more than it does.
use chat_app_backend.Prelude.{
  ℕ, ◌+◌, Bool, true, false, not, ◌&&◌, ◌||◌, Option, none, some, List, [], ◌∷◌, ◌==◌, ltb, same_id,
  is_none, is_some, if◌then◌else◌,
}
use chat_app_backend.Access.{is_admin, is_agent}
use chat_app_backend.Documents.{Conversation, closed, is_opened, is_closed, PresenceSnapshot}
use chat_app_backend.Errors.{Failure, http, forbidden, conflict}
use chat_app_backend.Realtime.Rooms.{Room, staff}
use chat_app_backend.Realtime.Rooms
use chat_app_backend.Realtime.Events.{
  AssignReason, auto, claim, conversation_assigned, broadcast_status,
}
use chat_app_backend.Mongo.{Mongo}
use chat_app_backend.Server.{M, pure, throw, ◌>>=◌, ◌>>◌, emit, start}
use chat_app_backend.Chat.Conversations.{Requester, conversation_not_found, find_by_id}
use chat_app_backend.Chat.Assigning.{assign_if_unassigned, reopen_if_closed}
use chat_app_backend.Users.Service.{PublicUser, find_public_by_id}
use chat_app_backend.Agents.Ranking.{rank}
use chat_app_backend.Agents.Service.{
  AgentCandidate, list_agents, reserve_slot, release_slot, presence_snapshot,
}

abbrev pub offline_requeue_after_ms : ℕ
offline_requeue_after_ms = 60_000

-- What `autoAssign` resolves with.
pub data Assigned : Type 0 where
  assigned no_agent skipped : Assigned

abbrev pub already_assigned : Failure
already_assigned = http (conflict "ALREADY_ASSIGNED" "Another agent already has this conversation")

abbrev pub conversation_closed : Failure
conversation_closed = http (conflict "CONVERSATION_CLOSED" "Conversation is closed")

abbrev pub assignment_changed : Failure
assignment_changed =
    http (conflict "ASSIGNMENT_CHANGED" "The assignment changed meanwhile; reload and try again")

-- The ids to refresh on the dashboards, each once.
abbrev pub load_changed : Option ℕ → Option ℕ → List ℕ
load_changed none none = []
load_changed none (some b) = b ∷ []
load_changed (some a) none = a ∷ []
load_changed (some a) (some b) = if a == b then a ∷ [] else a ∷ b ∷ []

unfoldable pub broadcast_all : List ℕ → M (Unit {0})
broadcast_all [] = pure tt
broadcast_all (id ∷ ids) = start (broadcast_status id) >> broadcast_all ids

-- `conversation.assignedAgentId?.toString() ?? null`, compared with an actor's id.
abbrev pub closes : Conversation → Conversation
closes c = record c { status = closed; assigned_agent_id = none }

-- Admins may close any conversation, agents their own.
abbrev pub may_close : Requester → Option ℕ → Bool
may_close actor assignee = is_admin actor.role || same_id assignee (some actor.id)

-- Disconnected for longer than a minute, or never seen.
unfoldable pub gone_too_long : PresenceSnapshot → ℕ → Bool
gone_too_long state now =
    not state.online
    && elim state.last_seen [ none ↦ true | some at ↦ ltb (at + offline_requeue_after_ms) now ]

module _ (mongo : Mongo) where
  unfoldable pub agent_of : Option ℕ → M (Option PublicUser)
  agent_of none = pure none
  agent_of (some id) = find_public_by_id mongo id

  unfoldable pub announce : Conversation → Option ℕ → AssignReason → M (Unit {0})
  unfolding agent_of broadcast_all
  announce conversation previous_agent_id reason = do
    found ← agent_of conversation.assigned_agent_id
    emit (staff ∷ Rooms.user conversation.customer_id ∷ Rooms.conversation conversation.id ∷ []) (
        conversation_assigned (record {
          conversation_id = conversation.id;
          agent_id = conversation.assigned_agent_id;
          agent_name = elim found [ none ↦ none | some u ↦ some u.name ];
          status = conversation.status;
          reason = reason;
        }))
    broadcast_all (load_changed conversation.assigned_agent_id previous_agent_id)

  unfoldable pub require_found : Option Conversation → M Conversation
  require_found none = throw conversation_not_found
  require_found (some c) = if is_closed c.status then throw conversation_closed else pure c

  unfoldable pub require_open : ℕ → M Conversation
  unfolding require_found
  require_open conversation_id = find_by_id mongo conversation_id >>= require_found

  unfoldable pub require_open_or_reopen : ℕ → M Conversation
  require_open_or_reopen conversation_id =
      reopen_if_closed mongo conversation_id >> require_open conversation_id

  unfoldable pub candidates_for : Conversation → M (List AgentCandidate)
  candidates_for conversation = do
    agents ← list_agents mongo
    presence ← presence_snapshot mongo
    pure (rank presence conversation.topic agents)

  -- What follows the attempt to assign: the loser of the race gives its slot back.
  unfoldable pub settle_assignment : ℕ → Option Conversation → M Assigned
  settle_assignment agent_id none = release_slot mongo agent_id >> pure skipped
  settle_assignment agent_id (some c) = announce c none auto >> pure assigned

  unfoldable pub try_candidates : ℕ → List AgentCandidate → M Assigned
  unfolding settle_assignment
  try_candidates conversation_id [] = pure no_agent
  try_candidates conversation_id (a ∷ candidates) = do
    reserved ← reserve_slot mongo a.user.id false
    if reserved
        then assign_if_unassigned mongo conversation_id a.user.id >>= settle_assignment a.user.id
        else try_candidates conversation_id candidates

  unfoldable pub assign_found : ℕ → Option Conversation → M Assigned
  assign_found conversation_id none = pure skipped
  assign_found conversation_id (some c) =
      if is_opened c.status && is_none c.assigned_agent_id
      then candidates_for c >>= try_candidates conversation_id
      else pure skipped

  unfoldable pub assign_now : ℕ → M Assigned
  unfolding assign_found
  assign_now conversation_id = find_by_id mongo conversation_id >>= assign_found conversation_id

  unfoldable pub settle_claim : ℕ → Option Conversation → M Conversation
  settle_claim agent_id none = release_slot mongo agent_id >> throw already_assigned
  settle_claim agent_id (some c) = announce c none claim >> pure c

  unfoldable pub claim_slot : ℕ → ℕ → M Conversation
  unfolding settle_claim
  claim_slot conversation_id agent_id = do
    reserve_slot mongo agent_id true
    result ← assign_if_unassigned mongo conversation_id agent_id
    settle_claim agent_id result

  unfoldable pub claim_open : ℕ → ℕ → Conversation → M Conversation
  unfolding claim_slot
  claim_open conversation_id agent_id current =
      if same_id current.assigned_agent_id (some agent_id)
      then pure current
      else if is_some current.assigned_agent_id
      then throw already_assigned
      else claim_slot conversation_id agent_id

  unfoldable pub claim_conversation : ℕ → Requester → M Conversation
  unfolding claim_open
  claim_conversation conversation_id actor =
      if is_agent actor.role
      then require_open conversation_id >>= claim_open conversation_id actor.id
      else throw (http (forbidden "Only agents can claim conversations"))
