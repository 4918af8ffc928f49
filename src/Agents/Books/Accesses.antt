-- ===== src/Agents/Books/Accesses.antt =====
-- The accesses of the routing as triples on the books.
use chat_app_backend.Prelude.{
  ℕ, ◌+◌, ◌≡◌, refl, ap, Bool, true, false, ◌&&◌, Option, none, some, List, [], ◌∷◌, ◌==◌, same_id,
  if◌then◌else◌, total, one_if, arith, is_none, is_some, ==_refl, count-append, total-append,
  Bool-cases, inl, inr,
}
use mathlib.Core.Option
use chat_app_backend.Documents.{AgentProfile, Conversation}
use chat_app_backend.Errors.{Result, ok, err}
use chat_app_backend.Mongo.{Mongo, IsDocumented, Updates, Upserts, existing, inserted}
use chat_app_backend.Mongo.Facts.{Updates-cases}
use chat_app_backend.Server.{Db, access}
use chat_app_backend.Server.Triples.{
  Triple, IsStable, Triple-access, Triple-pure, Triple-throw, Triple-bind,
}
use chat_app_backend.Chat.Assigning.{assign_if_unassigned, reassign}
use chat_app_backend.Agents.Service.{
  release_slot, take_slot, reserve_slot, ensure_profiles, profile_of, profile_defaults,
  create_missing, upsert_profile, has_room, add_chat, update_profile,
}
use chat_app_backend.Agents.Books.{
  slot_of, Books, HasProfile, IsCalm, Books-stable, free-Books, add-Books, assign-Books, move-Books,
}

-- The books and a profile of `id`.
pub record Ready (a k id : ℕ) (db : Db) : Type 0 where
  pub books : Books a k db
  pub profile : HasProfile id db

Ready-stable : (a k id : ℕ) → IsStable IsCalm (Ready a k id)
Ready-stable a k id = record {
  succeeds = λ t c. c.succeeds;
  keeps = λ t db c r. record {
    books = c.keeps_books a k db r.books;
    profile = c.keeps_profiles id db r.profile;
  };
}

module _ (a k id : ℕ) {db : Db} {ps : List AgentProfile} where
  -- A new profile has no active chats, so the upsert keeps the books.
  upsert-Ready :
      Upserts (λ p. p.user_id == id) (λ p. p) (profile_defaults id) db.profiles ps
      → Books a k db
      → Ready a k id (record db { profiles = ps })
  unfolding profile_defaults
  upsert-Ready (existing xs ys e s m t) b = record {
    books = record { balance = rw (t, ← s) b.balance; free = b.free };
    profile = record {
      exists = rw t (ground (arith, count-append (λ p. p.user_id == id) xs (e ∷ ys)));
    };
  }
  upsert-Ready (inserted xs ys n s t) b = record {
    books = record {
      balance = rw t (
          ground (
            arith,
            b.balance,
            total-append (slot_of a) xs ys,
            total-append (slot_of a) xs (profile_defaults id ∷ ys),
            ap (total (slot_of a)) s,
          ));
      free = b.free;
    };
    profile = record {
      exists = rw t (
          ground
            (arith, ==_refl id, count-append (λ p. p.user_id == id) xs (profile_defaults id ∷ ys)));
    };
  }

pub profile_of-keeps :
    {P : Db → Type 0} (id : ℕ) (ps : List AgentProfile)
    → Triple IsCalm P (profile_of id ps) (λ r db. P db)
unfolding profile_of
profile_of-keeps id [] = Triple-throw _ (λ db r. r)
profile_of-keeps id (p ∷ ps) = elim (Bool-cases (p.user_id == id)) [
  | inl e ↦ rw e (Triple-pure p (λ db r. r))
  | inr e ↦ rw e (profile_of-keeps id ps)
]

-- What a reservation of `id` leaves: a forced one always takes the slot.
abbrev pub Reserved : ℕ → ℕ → ℕ → Bool → Result Bool → Db → Type 0
Reserved a k id force (ok b) db = Books a (k + one_if (b && id == a)) db × (force ≡ true → b ≡ true)
Reserved a k id force (err e) db = Books a k db

pub no_slot : {a k : ℕ} {db : Db} → Books a (k + 0) db → Books a k db
no_slot b = record { balance = omega (arith, b.balance); free = b.free }

pub zero_slot : {a k : ℕ} {db : Db} → Books a k db → Books a (k + 0) db
zero_slot b = record { balance = omega (arith, b.balance); free = b.free }

pub forced_slot :
    (a k id : ℕ) (b : Bool) {db : Db}
    → Reserved a k id true (ok b) db
    → Books a (k + one_if (id == a)) db
forced_slot a k id true r = r.0
forced_slot a k id false r = cc (r.1 refl)

-- A forced reservation finds the profile.
forced-taken :
    (id now limit : ℕ) (force : Bool) {db : Db} {ps : List AgentProfile} {r : Option AgentProfile}
    → Updates (has_room id force limit) (add_chat now) db.profiles ps r
    → HasProfile id db
    → force ≡ true
    → is_some r ≡ true
forced-taken id now limit false u h e = cc
forced-taken id now limit true {db} u h e = elim (Updates-cases u) [
  | inl (n, _, _) ↦ absurd (omega (arith, h.exists))
  | inr (d, c) ↦ rw c.result
]

-- What an attempt to assign to `agent_id` leaves: a miss leaves the slot with this request.
abbrev pub Attempted : ℕ → ℕ → ℕ → Result (Option Conversation) → Db → Type 0
Attempted a k agent_id (ok r) db = Books a (k + one_if (is_none r && agent_id == a)) db
Attempted a k agent_id (err e) db = Books a k db

-- What a move between two holders leaves: the slot of the old holder, or of the new one on a miss.
abbrev pub Moved : ℕ → ℕ → Option ℕ → Option ℕ → Result (Option Conversation) → Db → Type 0
Moved a k from to (ok none) db = Books a (k + one_if (same_id to (some a))) db
Moved a k from to (ok (some c)) db = Books a (k + one_if (same_id from (some a))) db
Moved a k from to (err e) db = Books a k db

map-Attempted :
    (a k agent_id : ℕ) (u : Conversation → Conversation) (r : Option Conversation) (db : Db)
    → Books a (k + one_if (is_none r && agent_id == a)) db
    → Attempted a k agent_id (ok (Option.map u r)) db
map-Attempted a k agent_id u none db b = b
map-Attempted a k agent_id u (some c) db b = b

map-Moved :
    (a k : ℕ) (from to : Option ℕ) (u : Conversation → Conversation) (r : Option Conversation)
    (db : Db)
    → Books a (k + one_if (if is_some r then same_id from (some a) else same_id to (some a))) db
    → Moved a k from to (ok (Option.map u r)) db
map-Moved a k from to u none db b = b
map-Moved a k from to u (some c) db b = b

module _ (mongo : Mongo) (laws : IsDocumented mongo) (a k : ℕ) where
  -- A slot that this request holds is given back.
  pub release_slot-Books :
      (id : ℕ)
      → Triple IsCalm
          (Books a (k + one_if (id == a)))
          (release_slot mongo id)
          (λ r db. Books a k db)
  unfolding release_slot
  release_slot-Books id =
      Triple-access _ (Books-stable a _)
        (λ now db b. free-Books a k id (laws.update_one-Updates AgentProfile _ _ db.profiles) b)

  pub assign_if_unassigned-Books :
      (id agent_id : ℕ)
      → Triple IsCalm
          (Books a (k + one_if (agent_id == a)))
          (assign_if_unassigned mongo id agent_id)
          (Attempted a k agent_id)
  unfolding assign_if_unassigned
  assign_if_unassigned-Books id agent_id = Triple-access _ (Books-stable a _) (λ now db b.
      map-Attempted a k agent_id _ _ _ (
        assign-Books a k id agent_id now (laws.update_one-Updates Conversation _ _ db.conversations)
          b))

  pub reassign-Books :
      (id : ℕ) (from to : Option ℕ)
      → Triple IsCalm
          (Books a (k + one_if (same_id to (some a))))
          (reassign mongo id from to)
          (Moved a k from to)
  unfolding reassign
  reassign-Books id from to = Triple-access _ (Books-stable a _) (λ now db b.
      map-Moved a k from to _ _ _ (
        move-Books a k id from to now (laws.update_one-Updates Conversation _ _ db.conversations)
          b))

  -- A read changes nothing.
  pub read-Books :
      {A : Type 0} (f : ℕ → Db → A)
      → Triple IsCalm (Books a k) (access (λ now db. (db, f now db))) (λ r db. Books a k db)
  read-Books f = Triple-access _ (Books-stable a k) (λ now db b. b)

  read-Ready :
      {A : Type 0} (id : ℕ) (f : ℕ → Db → A)
      → Triple IsCalm (Ready a k id) (access (λ now db. (db, f now db))) (λ r db. Ready a k id db)
  read-Ready id f = Triple-access _ (Ready-stable a k id) (λ now db b. b)

  pub upsert_one-Books :
      (id : ℕ)
      → Triple IsCalm
          (Books a k)
          (access (λ now db. (upsert_profile mongo id (λ p. p) (profile_defaults id) db, tt)))
          (λ r db. Books a k db)
  unfolding upsert_profile
  upsert_one-Books id = Triple-access _ (Books-stable a k) (λ now db b.
      (upsert-Ready a k id (laws.upsert_one-Upserts AgentProfile _ _ _ db.profiles) b).books)

  create_missing-Ready :
      (id : ℕ)
      → Triple IsCalm (Books a k) (create_missing mongo (id ∷ [])) (λ r db. Ready a k id db)
  unfolding create_missing
  create_missing-Ready id =
      Triple-bind
        (Triple-access {Q = λ r db. Ready a k id db} _ (Books-stable a k) (λ now db b.
          upsert-Ready a k id (laws.upsert_one-Upserts AgentProfile _ _ _ db.profiles) b))
        (λ _. Triple-pure tt (λ db r. r)) (λ e db r. r)

  take_slot-Reserved :
      (id limit : ℕ) (force : Bool)
      → Triple IsCalm (Ready a k id) (take_slot mongo id force limit) (Reserved a k id force)
  unfolding take_slot update_profile
  take_slot-Reserved id limit force = Triple-access _ (Ready-stable a k id) (λ now db r.
      let done = laws.update_one-Updates AgentProfile _ _ db.profiles in
      (
        add-Books a k id now limit force done r.books,
        forced-taken id now limit force done r.profile,
      ))

  pub reserve_slot-Reserved :
      (id : ℕ) (force : Bool)
      → Triple IsCalm (Books a k) (reserve_slot mongo id force) (Reserved a k id force)
  unfolding reserve_slot ensure_profiles
  reserve_slot-Reserved id force =
      Triple-bind (Triple-bind (create_missing-Ready id) (λ _. read-Ready id _) (λ e db r. r))
        (λ profiles.
          Triple-bind (profile_of-keeps id profiles)
            (λ profile. take_slot-Reserved id profile.max_concurrent_chats force)
            (λ e db r. r.books))
        (λ e db r. r.books)
