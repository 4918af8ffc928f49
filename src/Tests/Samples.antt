-- ===== src/Tests/Samples.antt =====
-- A small database: two agents, of whom 7 has one of the two open conversations.
use chat_app_backend.Prelude.{ℕ, true, false, Option, none, some, [], ◌∷◌}
use chat_app_backend.Access.{Role, agent, admin}
use chat_app_backend.Documents.{User, approved, Conversation, billing, opened, AgentProfile, online}
use chat_app_backend.Presence.Leases.Settling.{fresh}
use chat_app_backend.Server.{Db, Turn}
use chat_app_backend.Chat.Conversations.{Requester}

abbrev pub person : ℕ → Role → User
person id role = record {
  id = id;
  name = id;
  email = id;
  password_hash = 0;
  role = role;
  status = approved;
  created_at = id;
}

abbrev pub thread : ℕ → ℕ → Option ℕ → Conversation
thread id customer_id agent_id = record {
  id = id;
  customer_id = customer_id;
  assigned_agent_id = agent_id;
  status = opened;
  topic = billing;
  assigned_at = none;
  last_message_at = some id;
  last_message_preview = none;
  created_at = id;
}

abbrev pub desk : ℕ → ℕ → AgentProfile
desk id chats = record {
  user_id = id;
  availability = online;
  skills = billing ∷ [];
  max_concurrent_chats = 2;
  active_chats = chats;
  last_assigned_at = none;
}

-- Agent 7 has conversation 1; conversation 2 waits; agent 8 is free.
abbrev pub office : Db
office = record {
  users =
      person 1 admin
      ∷ person 7 agent
      ∷ person 8 agent
      ∷ person 20 Role.user
      ∷ person 21 Role.user
      ∷ [];
  conversations = thread 1 20 (some 7) ∷ thread 2 21 none ∷ [];
  profiles = desk 7 1 ∷ desk 8 0 ∷ [];
  messages = [];
  presence = λ id. record { online = true; last_seen = none };
  versions = λ id. 0;
  pages = λ key. none;
  sockets = [];
  hits = λ key. 0;
  hits_until = λ key. none;
  sessions = 70 ∷ 71 ∷ [];
  leases = fresh;
  grace_timers = [];
  devices = [];
  queue = [];
  counters = λ key. 0;
  broadcast_lock = 0;
  reports = λ query. none;
  writers = λ id. 0;
  in_flight = λ id. 0;
}

abbrev pub agent_seven : Requester
agent_seven = record { id = 7; role = agent }

-- Before an access somebody's presence changes.
abbrev pub blink : Turn
blink = record {
  others = λ db. record db { presence = λ id. record { online = false; last_seen = some 5 } };
  elapsed = 10;
  fails = false;
}
