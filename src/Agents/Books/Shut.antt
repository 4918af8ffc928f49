-- ===== src/Agents/Books/Shut.antt =====
-- `AssignmentService.close`: what follows the write that closes a conversation leaves it closed.
use chat_app_backend.Prelude.{
  ℕ, ◌≤◌, ◌≡◌, ◌&&◌, Option, none, some, List, [], ◌∷◌, ◌==◌, count, All, arith, is_none,
}
use chat_app_backend.Documents.{Conversation, is_opened, is_closed}
use chat_app_backend.Documents
use chat_app_backend.Realtime.Events.{AssignReason}
use chat_app_backend.Realtime.Events
use chat_app_backend.Mongo.{Mongo}
use chat_app_backend.Mongo.Facts.{Changed}
use chat_app_backend.Server.{Db, Turn, access}
use chat_app_backend.Server.Triples.{
  Stays, Stays-pure, Stays-bind, Triple-access, Triple-emit, Triple-start,
}
use chat_app_backend.Users.Service.{find_public_by_id}
use chat_app_backend.Agents.Service.{release_slot, update_profile}
use chat_app_backend.Agents.Assignment.{announce, agent_of, broadcast_all, load_changed, closes}
use chat_app_backend.Agents.Moves.{release_if, settle_close}

-- Conversation `id` is stored as closed and as nobody's, and nowhere as open.
pub record Shut (id : ℕ) (db : Db) : Type 0 where
  pub none_open : count (λ c. c.id == id && is_opened c.status) db.conversations ≡ 0
  pub one_closed :
      1
      ≤ count
          (λ c. c.id == id && (is_closed c.status && is_none c.assigned_agent_id))
          db.conversations

pub closed-Shut :
    (id : ℕ) {db : Db} {cs : List Conversation} {r : Option Conversation} (d : Conversation)
    → Changed
        (λ c. c.id == id && is_opened c.status)
        (λ c. record c { status = Documents.closed; assigned_agent_id = none; assigned_at = none })
        db.conversations
        cs
        r
        d
    → count (λ c. c.id == id && is_opened c.status) db.conversations ≡ 1
    → Shut id (record db { conversations = cs })
closed-Shut id d c one = record {
  none_open = ground (arith, c.counts (λ c. c.id == id && is_opened c.status), c.matched, one);
  one_closed = ground (
    arith,
    c.counts (λ c. c.id == id && (is_closed c.status && is_none c.assigned_agent_id)),
    c.matched,
  );
}

-- No turn at all.
abbrev pub Never : Turn → Type 0
Never t = ⊥

pub All-Never : (C : Turn → Type 0) (ts : List Turn) → All Never ts → All C ts
All-Never C [] h = tt
All-Never C (t ∷ ts) h = absurd h.0

module _ (mongo : Mongo) (id : ℕ) where
  access-Shut :
      {A : Type 0} (f : ℕ → Db → Db × A)
      → ((now : ℕ) (db : Db) → Shut id db → Shut id (f now db).0)
      → Stays Never (Shut id) (access f)
  access-Shut f h =
      Triple-access f (record { succeeds = λ t c. absurd c; keeps = λ t db c. absurd c }) h

  release_if-Shut : (o : Option ℕ) → Stays Never (Shut id) (release_if mongo o)
  unfolding release_if release_slot update_profile
  release_if-Shut none = Stays-pure tt
  release_if-Shut (some a) =
      access-Shut _ (λ now db h. record { none_open = h.none_open; one_closed = h.one_closed })

  announce-Shut :
      (c : Conversation) (previous : Option ℕ) (reason : AssignReason)
      → Stays Never (Shut id) (announce mongo c previous reason)
  unfolding announce agent_of find_public_by_id
  announce-Shut c previous reason =
      Stays-bind (agent c.assigned_agent_id) (λ found.
        Stays-bind (Triple-emit _ _) (λ _. all (load_changed c.assigned_agent_id previous)))
    where
      agent : (o : Option ℕ) → Stays Never (Shut id) (agent_of mongo o)
      agent none = Stays-pure none
      agent (some i) = access-Shut _ (λ now db h. h)

      all : (ids : List ℕ) → Stays Never (Shut id) (broadcast_all ids)
      all [] = Stays-pure tt
      all (i ∷ ids) = Stays-bind (Triple-start _) (λ _. all ids)

  pub settle_close-Shut :
      (o : Option ℕ) (r : Option Conversation) → Stays Never (Shut id) (settle_close mongo o r)
  unfolding settle_close
  settle_close-Shut o none = Stays-pure tt
  settle_close-Shut o (some before) =
      Stays-bind (release_if-Shut o)
        (λ _. Stays-bind (announce-Shut (closes before) o Events.closed) (λ _. Triple-start _))
