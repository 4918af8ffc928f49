-- ===== src/Agents/Service.antt =====
-- src/modules/agents/services/agents.service.ts and agents.mapper.ts. Stored profiles are complete,
-- so `normalizeProfile` leaves them as they are.
use chat_app_backend.Prelude.{
  ℕ, ◌+◌, ◌-◌, Bool, false, not, ◌&&◌, Option, none, some, List, [], ◌∷◌, map, ◌==◌, ltb, any,
  is_some, if◌then◌else◌,
}
use chat_app_backend.Access.{is_agent}
use chat_app_backend.Documents.{
  AgentProfile, AgentAvailability, offline, ConversationTopic, PresenceSnapshot, is_approved,
}
use chat_app_backend.Errors.{Failure, http, not_found, unavailable}
use chat_app_backend.Realtime.Rooms.{staff}
use chat_app_backend.Realtime.Events.{agent_status}
use chat_app_backend.Mongo.{Mongo}
use chat_app_backend.Server.{Db, M, pure, throw, ◌>>=◌, ◌>>◌, access, emit}
use chat_app_backend.Users.Service.{PublicUser, find_public_by_id, list_active_agents}

pub record AgentCandidate : Type 0 where
  pub user : PublicUser
  pub profile : AgentProfile

pub record AgentStatusResponse : Type 0 where
  pub agent_id : ℕ
  pub name : ℕ
  pub email : ℕ
  pub availability : AgentAvailability
  pub connected : Bool
  pub status : AgentAvailability
  pub active_chats : ℕ
  pub max_concurrent_chats : ℕ
  pub skills : List ConversationTopic
  pub last_seen : Option ℕ

unfoldable pub to_agent_status : PublicUser → AgentProfile → PresenceSnapshot → AgentStatusResponse
to_agent_status u profile presence = record {
  agent_id = u.id;
  name = u.name;
  email = u.email;
  availability = profile.availability;
  connected = presence.online;
  status = if presence.online then profile.availability else offline;
  active_chats = profile.active_chats;
  max_concurrent_chats = profile.max_concurrent_chats;
  skills = profile.skills;
  last_seen = presence.last_seen;
}

abbrev pub default_max_chats : ℕ
default_max_chats = 5

unfoldable pub profile_defaults : ℕ → AgentProfile
profile_defaults agent_id = record {
  user_id = agent_id;
  availability = offline;
  skills = [];
  max_concurrent_chats = default_max_chats;
  active_chats = 0;
  last_assigned_at = none;
}

abbrev pub agent_not_found : Failure
agent_not_found = http (not_found "AGENT_NOT_FOUND" "Agent not found")

-- A lookup in the `Map` of profiles; the `!` of the source throws a TypeError where it misses.
unfoldable pub profile_of : ℕ → List AgentProfile → M AgentProfile
profile_of agent_id [] = throw unavailable
profile_of agent_id (p ∷ ps) = if p.user_id == agent_id then pure p else profile_of agent_id ps

-- `UpdateAgentSettingsDto`: what is left out stays.
pub record UpdateAgentSettings : Type 0 where
  pub skills : Option (List ConversationTopic)
  pub max_concurrent_chats : Option ℕ

abbrev or_else : {A : Type 0} → A → Option A → A
or_else a none = a
or_else a (some b) = b

abbrev pub with_settings : UpdateAgentSettings → AgentProfile → AgentProfile
with_settings settings p = record p {
  skills = or_else p.skills settings.skills;
  max_concurrent_chats = or_else p.max_concurrent_chats settings.max_concurrent_chats;
}

abbrev pub is_active_agent : Option PublicUser → Bool
is_active_agent none = false
is_active_agent (some u) = is_agent u.role && is_approved u.status

-- `activeChats: { $lt: limit }`, unless the slot is forced.
abbrev pub has_room : ℕ → Bool → ℕ → AgentProfile → Bool
has_room agent_id force limit p =
    if force then p.user_id == agent_id else p.user_id == agent_id && ltb p.active_chats limit

abbrev pub add_chat : ℕ → AgentProfile → AgentProfile
add_chat now p = record p { active_chats = p.active_chats + 1; last_assigned_at = some now }

module _ (mongo : Mongo) where
  unfoldable pub update_profile :
      (AgentProfile → Bool) → (AgentProfile → AgentProfile) → Db → Db × Bool
  update_profile p u db =
      let r = mongo.update_one AgentProfile p u db.profiles in
      (record db { profiles = r.0 }, is_some r.1)

  unfoldable pub upsert_profile : ℕ → (AgentProfile → AgentProfile) → AgentProfile → Db → Db
  upsert_profile agent_id u new db = record db {
    profiles = mongo.upsert_one AgentProfile (λ p. p.user_id == agent_id) u new db.profiles;
  }

  -- The bulk write: each upsert is atomic by itself.
  unfoldable pub create_missing : List ℕ → M (Unit {0})
  unfolding upsert_profile
  create_missing [] = pure tt
  create_missing (id ∷ ids) =
      access (λ now db. (upsert_profile id (λ p. p) (profile_defaults id) db, tt))
      >> create_missing ids

  unfoldable pub ensure_profiles : List ℕ → M (List AgentProfile)
  unfolding create_missing
  ensure_profiles agent_ids = do
    create_missing agent_ids
    access λ now db. (db, mongo.find AgentProfile (λ p. any (◌==◌ p.user_id) agent_ids) db.profiles)

  unfoldable pub pair_up : List AgentProfile → List PublicUser → M (List AgentCandidate)
  pair_up profiles [] = pure []
  pair_up profiles (u ∷ us) = do
    profile ← profile_of u.id profiles
    rest ← pair_up profiles us
    pure (record { user = u; profile = profile } ∷ rest)

  unfoldable pub list_agents : M (List AgentCandidate)
  unfolding pair_up
  list_agents = do
    agents ← list_active_agents mongo
    profiles ← ensure_profiles (map (λ u. u.id) agents)
    pair_up profiles agents

  -- `presence.snapshot`: see `Presence`.
  unfoldable pub presence_snapshot : M (ℕ → PresenceSnapshot)
  presence_snapshot = access λ now db. (db, db.presence)

  unfoldable pub list_statuses : M (List AgentStatusResponse)
  list_statuses = do
    agents ← list_agents
    presence ← presence_snapshot
    pure (map (λ a. to_agent_status a.user a.profile (presence a.user.id)) agents)

  unfoldable pub require_agent : Option PublicUser → M PublicUser
  require_agent none = throw agent_not_found
  require_agent (some u) = if is_active_agent (some u) then pure u else throw agent_not_found

  unfoldable pub get_status : ℕ → M AgentStatusResponse
  unfolding require_agent
  get_status agent_id = do
    found ← find_public_by_id mongo agent_id
    u ← require_agent found
    profiles ← ensure_profiles (agent_id ∷ [])
    profile ← profile_of agent_id profiles
    presence ← presence_snapshot
    pure (to_agent_status u profile (presence agent_id))

  unfoldable pub is_agent_id : ℕ → M Bool
  is_agent_id user_id = do found ← find_public_by_id mongo user_id; pure (is_active_agent found)

  unfoldable pub broadcast_status : ℕ → M AgentStatusResponse
  broadcast_status agent_id = do
    status ← get_status agent_id
    emit (staff ∷ []) (agent_status agent_id status.status)
    pure status

  -- `notify` is what the listeners of `onStatusChange` do. The upsert that loses the insert race is repeated as a plain update: one access either way.
  unfoldable pub set_availability :
      (ℕ → AgentAvailability → M (Unit {0})) → ℕ → AgentAvailability → M AgentStatusResponse
  unfolding upsert_profile
  set_availability notify agent_id availability = do
    access λ now db. (
      upsert_profile agent_id (λ p. record p { availability = availability })
          (record (profile_defaults agent_id) { availability = availability }) db,
      tt,
    )
    status ← broadcast_status agent_id
    notify agent_id status.status
    pure status

  unfoldable pub update_settings :
      (ℕ → AgentAvailability → M (Unit {0})) → ℕ → UpdateAgentSettings → M AgentStatusResponse
  unfolding update_profile
  update_settings notify agent_id settings = do
    get_status agent_id
    access λ now. update_profile (λ p. p.user_id == agent_id) (with_settings settings)
    status ← broadcast_status agent_id
    notify agent_id status.status
    pure status

  unfoldable pub take_slot : ℕ → Bool → ℕ → M Bool
  unfolding update_profile
  take_slot agent_id force limit =
      access λ now. update_profile (has_room agent_id force limit) (add_chat now)

  unfoldable pub reserve_slot : ℕ → Bool → M Bool
  reserve_slot agent_id force = do
    profiles ← ensure_profiles (agent_id ∷ [])
    profile ← profile_of agent_id profiles
    take_slot agent_id force profile.max_concurrent_chats

  unfoldable pub release_slot : ℕ → M (Unit {0})
  unfolding update_profile
  release_slot agent_id = access λ now db. (
    (update_profile (λ p. p.user_id == agent_id && ltb 0 p.active_chats)
        (λ p. record p { active_chats = p.active_chats - 1 }) db).0,
    tt,
  )

  unfoldable pub sync_active_chats : List (ℕ × ℕ) → M (Unit {0})
  unfolding update_profile
  sync_active_chats [] = pure tt
  sync_active_chats ((agent_id, count) ∷ counts) =
      access (λ now.
        update_profile (λ p. p.user_id == agent_id && not (p.active_chats == count))
          (λ p. record p { active_chats = count }))
      >> sync_active_chats counts
