-- ===== src/Agents/Rebalance.antt =====
-- src/modules/agents/services/assignment.service.ts, `rebalance`: the repair that one server runs
-- every 30 seconds.
use chat_app_backend.Prelude.{
  ℕ, Bool, true, ◌||◌, Option, none, some, List, [], ◌∷◌, map, if◌then◌else◌,
}
use chat_app_backend.Documents.{Conversation, PresenceSnapshot, is_offline}
use chat_app_backend.Realtime.Events.{requeue}
use chat_app_backend.Mongo.{Mongo}
use chat_app_backend.Server.{M, pure, ◌>>=◌, ◌>>◌, current_time, try_catch}
use chat_app_backend.Chat.Assigning.{reassign, list_open_assigned_outside, count_open_by_agent}
use chat_app_backend.Agents.Service.{
  AgentCandidate, list_agents, presence_snapshot, sync_active_chats,
}
use chat_app_backend.Agents.Assignment.{gone_too_long, announce}
use chat_app_backend.Agents.Moves.{drain, requeue_chats}

module _ (mongo : Mongo) where
  unfoldable pub requeue_gone : (ℕ → PresenceSnapshot) → ℕ → List AgentCandidate → M (Unit {0})
  requeue_gone presence now [] = pure tt
  requeue_gone presence now (a ∷ agents) = do
    if is_offline a.profile.availability || gone_too_long (presence a.user.id) now
        then requeue_chats mongo a.user.id >> pure tt
        else pure tt
    requeue_gone presence now agents

  unfoldable pub announce_orphan : Option ℕ → Option Conversation → M (Unit {0})
  announce_orphan previous none = pure tt
  announce_orphan previous (some c) = announce mongo c previous requeue

  unfoldable pub requeue_orphans : List Conversation → M (Unit {0})
  unfolding announce_orphan
  requeue_orphans [] = pure tt
  requeue_orphans (c ∷ orphans) = do
    result ← reassign mongo c.id c.assigned_agent_id none
    announce_orphan c.assigned_agent_id result
    requeue_orphans orphans

  unfoldable pub repair : M (Unit {0})
  unfolding requeue_gone requeue_orphans
  repair = do
    agents ← list_agents mongo
    let agent_ids = map (λ (a : AgentCandidate). a.user.id) agents
    counts ← count_open_by_agent mongo agent_ids
    sync_active_chats mongo counts
    presence ← presence_snapshot mongo
    now ← current_time
    requeue_gone presence now agents
    orphans ← list_open_assigned_outside mongo agent_ids
    requeue_orphans orphans
    drain mongo

  -- `got_lock` is Redis's answer to `SET … NX`; without Redis the lock is not asked for.
  unfoldable pub rebalance : Bool → M Bool → M (Unit {0})
  unfolding repair
  rebalance redis_ready got_lock =
      try_catch
        (do free ← if redis_ready then got_lock else pure true; if free then repair else pure tt)
        (λ error. pure tt)
