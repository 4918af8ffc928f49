-- ===== src/Agents/Ranking.antt =====
-- src/modules/agents/services/assignment.service.ts, `candidatesFor`: who may take a conversation, the
-- best candidate first.
pub mod Order
pub mod Skills
pub mod Fitness
use chat_app_backend.Prelude.{
  ℕ, Bool, true, false, not, ◌&&◌, none, some, List, [], ◌∷◌, ◌==◌, ltb, leb, any, filterb, sort,
  if◌then◌else◌,
}
use chat_app_backend.Documents.{
  ConversationTopic, general, billing, technical, sales, AgentProfile, PresenceSnapshot, is_online,
}
use chat_app_backend.Agents.Service.{AgentCandidate}

abbrev pub same_topic : ConversationTopic → ConversationTopic → Bool
same_topic general general = true
same_topic billing billing = true
same_topic technical technical = true
same_topic sales sales = true
same_topic _ _ = false

-- 0 for an agent with the skill, 1 for any other.
unfoldable pub skill_score : ConversationTopic → AgentProfile → ℕ
skill_score topic p =
    if not (same_topic topic general) && any (same_topic topic) p.skills then 0 else 1

abbrev pub assigned_time : AgentProfile → ℕ
assigned_time p = elim p.last_assigned_at [ none ↦ 0 | some at ↦ at ]

-- The comparison of the sort: skill, then load, then who waited longest. True where the source's
-- result is not positive.
unfoldable pub not_after : ConversationTopic → AgentProfile → AgentProfile → Bool
unfolding skill_score
not_after topic p q =
    if skill_score topic p == skill_score topic q
    then (if p.active_chats == q.active_chats
        then leb (assigned_time p) (assigned_time q)
        else ltb p.active_chats q.active_chats)
    else ltb (skill_score topic p) (skill_score topic q)

unfoldable pub is_available : (ℕ → PresenceSnapshot) → AgentCandidate → Bool
is_available presence a =
    (presence a.user.id).online
    && (is_online a.profile.availability
        && ltb a.profile.active_chats a.profile.max_concurrent_chats)

-- `Array.prototype.sort` is stable: a candidate stays behind those before it that are as good.
unfoldable pub rank :
    (ℕ → PresenceSnapshot) → ConversationTopic → List AgentCandidate → List AgentCandidate
unfolding is_available not_after
rank presence topic agents =
    sort (λ a b. not_after topic a.profile b.profile) (filterb (is_available presence) agents)
