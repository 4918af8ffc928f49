-- ===== src/Agents/Books.antt =====
-- The books of the routing: each agent's counter of active chats against the conversations that the
-- agent has. What the single accesses do to them.
pub mod Accesses
pub mod Handlers
pub mod Moving
pub mod Requests
pub mod Closing
pub mod Shut
use chat_app_backend.Prelude.{
  ℕ, zero, suc, ◌+◌, ◌-◌, ◌<◌, ◌≤◌, ◌≡◌, refl, ◌≢◌, inl, inr, Bool, true, false, not, ◌&&◌, Option,
  none, some, List, [], ◌∷◌, ◌==◌, ltb, same_id, if◌then◌else◌, count, total, one_if, arith,
  is_none, is_some, eq_of_==,
}
use chat_app_backend.Documents.{AgentProfile, Conversation, opened, closed, is_opened, is_closed}
use chat_app_backend.Errors.{Result, ok, err}
use chat_app_backend.Mongo.{Mongo, IsDocumented}
use chat_app_backend.Mongo.Facts.{Updates-cases, Changed}
use chat_app_backend.Mongo.{Updates}
use chat_app_backend.Server.{Db, Turn, M, World}
use chat_app_backend.Server.Triples.{Triple, IsStable, Triple-access}
use chat_app_backend.Chat.Assigning.{is_open_of, assign_if_unassigned, reassign, with_agent}
use chat_app_backend.Agents.Service.{release_slot, take_slot, has_room, add_chat}

abbrev pub slot_of : ℕ → AgentProfile → ℕ
slot_of a p = if p.user_id == a then p.active_chats else 0

-- What the counters of an agent add up to, and how many open conversations the agent has.
abbrev pub slots : ℕ → Db → ℕ
slots a db = total (slot_of a) db.profiles

abbrev pub open_chats : ℕ → Db → ℕ
open_chats a db = count (is_open_of a) db.conversations

abbrev pub is_held : Conversation → Bool
is_held c = not (is_opened c.status) && is_some c.assigned_agent_id

-- The counter of agent `a` is the number of the agent's open conversations, the slots that other
-- requests hold in flight, and `k` slots that this request holds.
pub record Books (a k : ℕ) (db : Db) : Type 0 where
  pub balance : slots a db ≡ open_chats a db + db.in_flight a + k
  -- A closed conversation has no agent, so that reopening it gives nobody a chat.
  pub free : count is_held db.conversations ≡ 0

pub record HasProfile (a : ℕ) (db : Db) : Type 0 where
  pub exists : 0 < count (λ p. p.user_id == a) db.profiles

-- Other requests that keep the books do not fail this one's calls, and remove no profile.
pub record IsCalm (t : Turn) : Type 0 where
  pub succeeds : t.fails ≡ false
  pub keeps_books : (a k : ℕ) (db : Db) → Books a k db → Books a k (t.others db)
  pub keeps_profiles : (a : ℕ) (db : Db) → HasProfile a db → HasProfile a (t.others db)

pub Books-stable : (a k : ℕ) → IsStable IsCalm (Books a k)
Books-stable a k = record {
  succeeds = λ t c. c.succeeds;
  keeps = λ t db c b. c.keeps_books a k db b;
}

-- Without a profile whose counter can fall, the counters of the agent are all 0.
slots-zero :
    (a : ℕ) (ps : List AgentProfile)
    → count (λ p. p.user_id == a && ltb 0 p.active_chats) ps ≡ 0
    → total (slot_of a) ps ≡ 0
slots-zero a [] h = refl
slots-zero a (p ∷ ps) h = ground (arith, slots-zero a ps)

-- The updates of the source, with their queries.
abbrev frees : ℕ → AgentProfile → Bool
frees id p = p.user_id == id && ltb 0 p.active_chats

abbrev free_slot : AgentProfile → AgentProfile
free_slot p = record p { active_chats = p.active_chats - 1 }

abbrev unassigned : ℕ → Conversation → Bool
unassigned id c = c.id == id && (is_none c.assigned_agent_id && is_opened c.status)

abbrev assigned_to : ℕ → Option ℕ → Conversation → Bool
assigned_to id agent_id c =
    c.id == id && (same_id c.assigned_agent_id agent_id && is_opened c.status)

module _ (a k : ℕ) {db : Db} where
  free-Books :
      (id : ℕ) {ps : List AgentProfile} {r : Option AgentProfile}
      → Updates (frees id) free_slot db.profiles ps r
      → Books a (k + one_if (id == a)) db
      → Books a k (record db { profiles = ps })
  free-Books id {ps} u b = elim (Updates-cases u) [
    | inl (n, e, _) ↦ record {
      balance = rw e (ground (arith, slots-zero id db.profiles, b.balance));
      free = b.free;
    }
    | inr (d, c) ↦ record {
      balance = ground (arith, c.sums (slot_of a), c.matched, b.balance, eq_of_== d.user_id id);
      free = b.free;
    }
  ]

  add-Books :
      (id now limit : ℕ) (force : Bool) {ps : List AgentProfile} {r : Option AgentProfile}
      → Updates (has_room id force limit) (add_chat now) db.profiles ps r
      → Books a k db
      → Books a (k + one_if (is_some r && id == a)) (record db { profiles = ps })
  add-Books id now limit force {ps} u b = elim (Updates-cases u) [
    | inl (n, e, z) ↦ record { balance = rw (e, z) (omega (arith, b.balance)); free = b.free }
    | inr (d, c) ↦ record {
      balance = rw c.result (ground (arith, c.sums (slot_of a), c.matched, b.balance));
      free = b.free;
    }
  ]

  assign-Books :
      (id agent_id now : ℕ) {cs : List Conversation} {r : Option Conversation}
      → Updates (unassigned id) (with_agent (some agent_id) now) db.conversations cs r
      → Books a (k + one_if (agent_id == a)) db
      → Books a (k + one_if (is_none r && agent_id == a)) (record db { conversations = cs })
  assign-Books id agent_id now {cs} u b = elim (Updates-cases u) [
    | inl (n, e, z) ↦ record { balance = rw (e, z) b.balance; free = rw e b.free }
    | inr (d, c) ↦ record {
      balance = rw c.result (ground (arith, c.counts (is_open_of a), c.matched, b.balance));
      free = ground (arith, c.counts is_held, c.matched, b.free);
    }
  ]

  move-Books :
      (id : ℕ) (from to : Option ℕ) (now : ℕ) {cs : List Conversation} {r : Option Conversation}
      → Updates (assigned_to id from) (with_agent to now) db.conversations cs r
      → Books a (k + one_if (same_id to (some a))) db
      → Books a
          (k + one_if (if is_some r then same_id from (some a) else same_id to (some a)))
          (record db { conversations = cs })
  move-Books id from to now {cs} u b = elim (Updates-cases u) [
    | inl (n, e, z) ↦ record { balance = rw (e, z) b.balance; free = rw e b.free }
    | inr (d, c) ↦ record {
      balance = rw c.result (ground (arith, c.counts (is_open_of a), c.matched, b.balance));
      free = ground (arith, c.counts is_held, c.matched, b.free);
    }
  ]

  -- A conversation that is reopened was nobody's.
  pub reopen-Books :
      (id : ℕ) {cs : List Conversation} {r : Option Conversation}
      → Updates
          (λ c. c.id == id && is_closed c.status)
          (λ c. record c { status = opened })
          db.conversations
          cs
          r
      → Books a k db
      → Books a k (record db { conversations = cs })
  reopen-Books id {cs} u b = elim (Updates-cases u) [
    | inl (n, e, _) ↦ record { balance = rw e b.balance; free = rw e b.free }
    | inr (d, c) ↦ record {
      balance =
          ground (arith, c.counts (is_open_of a), c.counts is_held, c.matched, b.balance, b.free);
      free = ground (arith, c.counts is_held, c.matched, b.free);
    }
  ]

  pub close-Books :
      (id : ℕ) (d : Conversation) {cs : List Conversation} {r : Option Conversation}
      → Changed
          (λ c. c.id == id && is_opened c.status)
          (λ c. record c { status = closed; assigned_agent_id = none; assigned_at = none })
          db.conversations
          cs
          r
          d
      → Books a k db
      → Books a
          (k + one_if (same_id d.assigned_agent_id (some a)))
          (record db { conversations = cs })
  close-Books id d c b = record {
    balance = ground (arith, c.counts (is_open_of a), c.matched, b.balance);
    free = ground (arith, c.counts is_held, c.matched, b.free);
  }
