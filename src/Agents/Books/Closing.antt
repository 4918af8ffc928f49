-- ===== src/Agents/Books/Closing.antt =====
-- `AssignmentService.close`: it gives back the slot of the agent that it read before it closes.
use chat_app_backend.Prelude.{
  ℕ, ◌+◌, ◌≡◌, refl, true, false, not, ◌&&◌, Option, none, some, List, [], ◌∷◌, ◌==◌, same_id,
  count, one_if, All, arith, inl, inr, Bool-cases, eq_of_==, ==_refl,
}
use chat_app_backend.Documents.{Conversation, is_opened, is_closed}
use chat_app_backend.Documents
use chat_app_backend.Errors.{Result, ok, err}
use chat_app_backend.Realtime.Events.{AssignReason}
use chat_app_backend.Realtime.Events
use chat_app_backend.Mongo.{Mongo, IsDocumented, Updates}
use chat_app_backend.Mongo.Facts.{Updates-cases}
use chat_app_backend.Server.{Db, World, Turn, quiet}
use chat_app_backend.Server.Triples.{
  Stays-pure, Stays-bind, Triple, IsStable, Triple-access, Triple-bind, Triple-start, Triple-weaken,
  Ends-next,
}
use chat_app_backend.Chat.Conversations.{Requester, update_conversation}
use chat_app_backend.Chat.Assigning
use chat_app_backend.Agents.Assignment.{may_close, closes}
use chat_app_backend.Agents.Moves.{settle_close, close_read}
use chat_app_backend.Agents.Books.{Books, IsCalm, close-Books}
use chat_app_backend.Agents.Books.Shut.{Shut, closed-Shut, settle_close-Shut, Never, All-Never}
use chat_app_backend.Agents.Books.Handlers.{announce-Keeps}
use chat_app_backend.Agents.Books.Accesses.{zero_slot}
use chat_app_backend.Agents.Books.Moving.{release_if-Books}

-- No open conversation `id` has another holder than `o`.
pub record HeldBy (id : ℕ) (o : Option ℕ) (db : Db) : Type 0 where
  pub held :
      count
        (λ c. c.id == id && (is_opened c.status && not (same_id c.assigned_agent_id o)))
        db.conversations
      ≡ 0

-- Calm turns that leave the holder of conversation `id` alone.
pub record IsUndisturbed (id : ℕ) (o : Option ℕ) (t : Turn) : Type 0 where
  pub calm : IsCalm t
  pub keeps_holder : (db : Db) → HeldBy id o db → HeldBy id o (t.others db)

pub record Holding (a k id : ℕ) (o : Option ℕ) (db : Db) : Type 0 where
  pub books : Books a k db
  pub holder : HeldBy id o db

Holding-stable : (a k id : ℕ) (o : Option ℕ) → IsStable (IsUndisturbed id o) (Holding a k id o)
Holding-stable a k id o = record {
  succeeds = λ t c. c.calm.succeeds;
  keeps = λ t db c h. record {
    books = c.calm.keeps_books a k db h.books;
    holder = c.keeps_holder db h.holder;
  };
}

-- A document that matches is none of those that a count of 0 excludes.
abbrev Closed : ℕ → ℕ → Option ℕ → Result (Option Conversation) → Db → Type 0
Closed a k o (ok none) db = Books a k db
Closed a k o (ok (some c)) db = Books a (k + one_if (same_id o (some a))) db
Closed a k o (err e) db = Books a k db

same_id-agree : (x o y : Option ℕ) → same_id x o ≡ true → same_id x y ≡ same_id o y
same_id-agree none none y h = refl
same_id-agree none (some n) y h = cc
same_id-agree (some m) none y h = cc
same_id-agree (some m) (some n) y h = rw (eq_of_== m n h)

module _ (a k id : ℕ) (o : Option ℕ) {db : Db} where
  close-Closed :
      {cs : List Conversation} (r : Option Conversation)
      → Updates
          (λ c. c.id == id && is_opened c.status)
          (λ c. record c {
            status = Documents.closed;
            assigned_agent_id = none;
            assigned_at = none;
          })
          db.conversations
          cs
          r
      → Holding a k id o db
      → Closed a k o (ok r) (record db { conversations = cs })
  close-Closed r u h = elim (Updates-cases u) [
    | inl (n, e, z) ↦ rw (z, e) h.books
    | inr (d, c) ↦
        let mine : same_id d.assigned_agent_id o ≡ true = ground (
          arith,
          c.counts (λ c. c.id == id && (is_opened c.status && not (same_id c.assigned_agent_id o))),
          c.matched,
          h.holder.held,
        ) in
        rw (c.result, ← same_id-agree d.assigned_agent_id o (some a) mine)
          (close-Books a k id d c h.books)
  ]

module _ (mongo : Mongo) (laws : IsDocumented mongo) (a k : ℕ) where
  access-Closed :
      (id : ℕ) (o : Option ℕ) {C : Turn → Type 0}
      → IsStable C (Holding a k id o)
      → Triple C (Holding a k id o) (Assigning.close mongo id) (Closed a k o)
  unfolding Assigning.close update_conversation
  access-Closed id o stable = Triple-access _ stable (λ now db h.
      close-Closed a k id o _ (laws.update_one-Updates Conversation _ _ db.conversations) h)

  -- The slot that is given back is that of the agent who had the conversation.
  settle_close-Books :
      (o : Option ℕ) (r : Option Conversation)
      → Triple IsCalm (Closed a k o (ok r)) (settle_close mongo o r) (λ r db. Books a k db)
  unfolding settle_close
  settle_close-Books o none = Stays-pure tt
  settle_close-Books o (some before) =
      Triple-bind (release_if-Books mongo laws a k o)
        (λ _.
          Stays-bind (announce-Keeps mongo laws a k (closes before) o Events.closed)
            (λ _. Triple-start _))
        (λ e db b. b)

  -- The slot that is given back is another agent's: that of `a` stays taken.
  settle_close-leaks :
      (o : Option ℕ) (c : Conversation)
      → same_id o (some a) ≡ false
      → Triple IsCalm (Books a k) (settle_close mongo o (some c)) (λ r db. Books a k db)
  unfolding settle_close
  settle_close-leaks o c other =
      Triple-bind
        (Triple-weaken (λ db b. rw other (zero_slot b)) (λ r db b. b)
          (release_if-Books mongo laws a k o))
        (λ _.
          Stays-bind (announce-Keeps mongo laws a k (closes c) o Events.closed)
            (λ _. Triple-start _))
        (λ e db b. b)

All-IsCalm : (id : ℕ) (o : Option ℕ) (ts : List Turn) → All (IsUndisturbed id o) ts → All IsCalm ts
All-IsCalm id o [] h = tt
All-IsCalm id o (t ∷ ts) h = (h.0.calm, All-IsCalm id o ts h.1)

-- Take what `close` does after it has read the conversation. If from then on nobody but the agent
-- that it read, or nobody where it read none, holds the conversation while it is open, the other
-- requests keep the books and no access fails, then the counters of all agents that equalled their
-- open conversations and slots in flight do so afterwards.
pub close_read-Books :
    (mongo : Mongo) (laws : IsDocumented mongo) (a id : ℕ) (actor : Requester)
    (current : Conversation) (w : World)
    → All (IsUndisturbed id current.assigned_agent_id) w.turns
    → HeldBy id current.assigned_agent_id w.db
    → Books a 0 w.db
    → Books a 0 (close_read mongo id actor current w).1.db
unfolding close_read
close_read-Books mongo laws a id actor current w turns held books =
    elim (Bool-cases (may_close actor current.assigned_agent_id)) [
      | inl e ↦
          rw e
            (Ends-next (All-IsCalm id o) (settle_close-Books mongo laws a 0 o) (λ e db b. b) _
              ((access-Closed mongo laws a 0 id o (Holding-stable a 0 id o)).runs w turns
                (record { books = books; holder = held }))).holds
      | inr e ↦ rw e books
    ]
  where
    o : Option ℕ
    o = current.assigned_agent_id

-- A stale close finds an open conversation of `a` and frees it.
abbrev Freed : ℕ → ℕ → Result (Option Conversation) → Db → Type 0
Freed a id (ok none) db = ⊥
Freed a id (ok (some c)) db = Books a 1 db × Shut id db
Freed a id (err e) db = ⊥

record Stale (a id : ℕ) (db : Db) : Type 0 where
  holding : Holding a 0 id (some a) db
  is_open : count (λ c. c.id == id && is_opened c.status) db.conversations ≡ 1

close-Freed :
    (a id : ℕ) {db : Db} {cs : List Conversation} (r : Option Conversation)
    → Updates
        (λ c. c.id == id && is_opened c.status)
        (λ c. record c { status = Documents.closed; assigned_agent_id = none; assigned_at = none })
        db.conversations
        cs
        r
    → Stale a id db
    → Freed a id (ok r) (record db { conversations = cs })
close-Freed a id r u h = elim (Updates-cases u) [
  | inl (n, e, z) ↦ absurd (omega (arith, h.is_open, n))
  | inr (d, c) ↦
      let held = close-Closed a 0 id (some a) r u h.holding in
      let one : Closed a 0 (some a) (ok (some d)) _ = rw c.result at held in
      rw c.result (
        record { balance = ground (arith, one.balance, ==_refl a); free = one.free },
        closed-Shut id d c h.is_open,
      )
]

close-Stale :
    (mongo : Mongo) (laws : IsDocumented mongo) (a id : ℕ)
    → Triple Never (Stale a id) (Assigning.close mongo id) (Freed a id)
unfolding Assigning.close update_conversation
close-Stale mongo laws a id =
    Triple-access _ (record { succeeds = λ t c. absurd c; keeps = λ t db c. absurd c })
      (λ now db h. close-Freed a id _ (laws.update_one-Updates Conversation _ _ db.conversations) h)

settle-Freed :
    (mongo : Mongo) (laws : IsDocumented mongo) (a id : ℕ) (o : Option ℕ)
    → same_id o (some a) ≡ false
    → (r : Option Conversation)
    → Triple Never (Freed a id (ok r)) (settle_close mongo o r) (λ r db. Books a 1 db × Shut id db)
settle-Freed mongo laws a id o other none = record { runs = λ w c b. absurd b }
settle-Freed mongo laws a id o other (some c) = record {
  runs = λ w turns (b, s).
      let shut = (settle_close-Shut mongo id o (some c)).runs w turns s in
      record {
        rest = shut.rest;
        holds = (
          ((settle_close-leaks mongo laws a 1 o c other).runs w (All-Never IsCalm w.turns turns)
              b).holds,
          shut.holds,
        );
      };
}

-- The fault: if between the read and the close the one open conversation `id` has come to agent `a`, whom
-- `close` did not read as its holder, and the actor may close by what was read, then with nobody else
-- running the conversation is stored as closed and nobody's and nowhere as open, and the counter of
-- `a` stays one above the open conversations and the slots in flight, although the books of `a` were
-- in order.
pub close_read-leaks :
    (mongo : Mongo) (laws : IsDocumented mongo) (a id : ℕ) (actor : Requester)
    (current : Conversation) (db : Db) (now : ℕ)
    → may_close actor current.assigned_agent_id ≡ true
    → same_id current.assigned_agent_id (some a) ≡ false
    → HeldBy id (some a) db
    → count (λ c. c.id == id && is_opened c.status) db.conversations ≡ 1
    → Books a 0 db
    → Books a 1 (close_read mongo id actor current (quiet db now)).1.db
      × Shut id (close_read mongo id actor current (quiet db now)).1.db
unfolding close_read
close_read-leaks mongo laws a id actor current db now may other held is_open books =
    let stale : Stale a id db = record {
      holding = record { books = books; holder = held };
      is_open = is_open;
    } in
    rw may
      (Ends-next (λ ts h. h) (settle-Freed mongo laws a id current.assigned_agent_id other)
        (λ e db b. absurd b) _ ((close-Stale mongo laws a id).runs (quiet db now) tt stale)).holds
