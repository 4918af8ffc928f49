-- ===== src/Chat/Messages/Races.antt =====
-- Requests that race to store the same message store it once.
use chat_app_backend.Prelude.{
  ℕ, ◌+◌, ◌≤◌, ◌≡◌, refl, ap, ◌∙◌, subst, Bool, true, false, ◌&&◌, ◌||◌, Option, none, some, List,
  [], ◌∷◌, any, count, count-append, one_if, ◌==◌, ==_refl, ==_comm, eq_of_==, Bool-cases, inl, inr,
  arith,
}
use chat_app_backend.Documents.{Message}
use chat_app_backend.Errors.{
  Failure, http, duplicate_key, unavailable, unrecoverable, thrown, Result, ok, err,
}
use chat_app_backend.Mongo.{Mongo, IsDocumented, Inserts, refused, stored}
use chat_app_backend.Mongo.Facts.{found-stored}
use chat_app_backend.Redis.{Redis}
use chat_app_backend.Server.{Db, Turn, M, pure, access}
use chat_app_backend.Server.Triples.{
  Stays, Stays-bind, Stays-pure, Stays-if, Stays-try, Triple, Triple-attempt, Triple-pure,
  Triple-throw, Triple-bind, Triple-try, Triple-use, Triple-current_time,
}
use chat_app_backend.Chat.Pages.{to_message_response}
use chat_app_backend.Chat.Cache.{is_ready, invalidate, bump}
use chat_app_backend.Chat.Conversations.{or_throw, touch_last_message, update_conversation}
use chat_app_backend.Chat.Messages.{
  CreateMessageInput, Created, create, create_new, already_saved, insert_message, inserted,
  find_saved, new_message, same_message,
}

abbrev pub keyed : ℕ → ℕ → Message → Bool
keyed c k m = m.conversation_id == c && m.client_message_id == k

-- No two messages of a conversation have the same client id.
abbrev pub Sole : Db → Type 0
Sole db = (c k : ℕ) → count (keyed c k) db.messages ≤ 1

-- Other requests store no message twice; accesses may fail.
pub record IsSole (t : Turn) : Type 0 where
  pub keeps : (db : Db) → Sole db → Sole (t.others db)

keyed_comm : (m d : Message) → keyed m.conversation_id m.client_message_id d ≡ same_message m d
keyed_comm m d =
    rw
      (==_comm d.conversation_id m.conversation_id, ==_comm d.client_message_id m.client_message_id)
      refl

none_same :
    (m : Message) (ds : List Message)
    → any (same_message m) ds ≡ false
    → count (keyed m.conversation_id m.client_message_id) ds ≡ 0
none_same m [] h = refl
none_same m (d ∷ ds) h =
    let (f, g) = neither (same_message m d) (any (same_message m) ds) h in
    omega (arith, none_same m ds g, ap one_if (keyed_comm m d ∙ f))
  where
    neither : (a b : Bool) → (a || b) ≡ false → (a ≡ false) × (b ≡ false)
    neither true b h = cc
    neither false b h = (refl, h)

both : (a b : Bool) → (a && b) ≡ true → (a ≡ true) × (b ≡ true)
both true b h = (refl, h)
both false b h = cc

abbrev or_else : {A : Type 0} → A → Option A → A
or_else a none = a
or_else a (some b) = b

insert-Sole :
    (m : Message) (db : Db) (o : Option (List Message))
    → Inserts same_message m db.messages o
    → Sole db
    → Sole (inserted db m o).0
unfolding inserted
insert-Sole m db none i h c k = h c k
insert-Sole m db (some ms) (refused e r) h c k = elim (clash r) [ ]
  where
    clash : some ms ≡ none → ⊥
    clash e = cc
insert-Sole m db (some ms) (stored xs ys n s r) h c k =
    let before : count (keyed c k) db.messages ≡ count (keyed c k) xs + count (keyed c k) ys =
      ap (count (keyed c k)) s ∙ count-append (keyed c k) xs ys in
    let after : count (keyed c k) ms ≡ count (keyed c k) xs + count (keyed c k) (m ∷ ys) =
      ap (count (keyed c k)) (ap (or_else ms) r) ∙ count-append (keyed c k) xs (m ∷ ys) in
    elim (Bool-cases (keyed c k m)) [
      | inl e ↦ omega (arith, before, after, none_yet e, ap one_if e)
      | inr e ↦ omega (arith, before, after, h c k, ap one_if e)
    ]
  where
    none_yet : keyed c k m ≡ true → count (keyed c k) db.messages ≡ 0
    none_yet e =
        let (f, g) = both (m.conversation_id == c) (m.client_message_id == k) e in
        subst (λ x. count (keyed x k) db.messages ≡ 0) (eq_of_== m.conversation_id c f)
          (subst (λ y. count (keyed m.conversation_id y) db.messages ≡ 0)
            (eq_of_== m.client_message_id k g) (none_same m db.messages n))

module _ (mongo : Mongo) (manual : IsDocumented mongo) (redis : Redis) (ready : ℕ → Bool)
    (input : CreateMessageInput) where
  abbrev Kept : {A : Type 0} → M A → Type 0
  Kept m = Stays IsSole Sole m

  access-Sole :
      {A : Type 0} (f : ℕ → Db → Db × A)
      → ((now : ℕ) (db : Db) → Sole db → Sole (f now db).0)
      → Kept (access f)
  access-Sole f h = Triple-attempt f (λ t db c. c.keeps db) h (λ db p. p)

  -- The message that is returned is the one asked for.
  abbrev IsAsked : Result Message → Db → Type 0
  IsAsked (ok m) db = Sole db × (keyed input.conversation_id input.client_message_id m ≡ true)
  IsAsked (err e) db = Sole db

  abbrev IsAskedIfAny : Result (Option Message) → Db → Type 0
  IsAskedIfAny (ok (some m)) db =
      Sole db × (keyed input.conversation_id input.client_message_id m ≡ true)
  IsAskedIfAny (ok none) db = Sole db
  IsAskedIfAny (err e) db = Sole db

  abbrev pub IsAnswered : Result Created → Db → Type 0
  IsAnswered (ok r) db =
      Sole db
      × ((r.message.conversation_id == input.conversation_id
            && r.message.client_message_id == input.client_message_id)
          ≡ true)
  IsAnswered (err e) db = Sole db

  or_throw-IsAsked :
      (e : Failure) (o : Option Message)
      → Triple IsSole (IsAskedIfAny (ok o)) (or_throw e o) IsAsked
  unfolding or_throw
  or_throw-IsAsked e none = Triple-throw e (λ db p. p)
  or_throw-IsAsked e (some m) = Triple-pure m (λ db p. p)

  insert_message-IsAsked :
      (id : ℕ) → Triple IsSole Sole (insert_message mongo redis ready id input) IsAsked
  unfolding insert_message inserted
  insert_message-IsAsked id =
      Triple-bind {R = IsAskedIfAny}
        (Triple-attempt _ (λ t db c. c.keeps db)
          (λ now db h.
            made now db
              (mongo.insert_one Message same_message (new_message id input now) db.messages)
              (manual.insert_one-Inserts Message same_message (new_message id input now)
                db.messages)
              h)
          (λ db p. p))
        (λ o. or_throw-IsAsked duplicate_key o) (λ e db p. p)
    where
      made :
          (now : ℕ) (db : Db) (o : Option (List Message))
          → Inserts same_message (new_message id input now) db.messages o
          → Sole db
          → IsAskedIfAny
              (ok (inserted db (new_message id input now) o).1)
              (inserted db (new_message id input now) o).0
      made now db none i h = h
      made now db (some ms) i h = (
        insert-Sole (new_message id input now) db (some ms) i h,
        rw (==_refl input.conversation_id, ==_refl input.client_message_id) refl,
      )

  find_saved-IsAsked : Triple IsSole Sole (find_saved mongo redis ready input) IsAskedIfAny
  unfolding find_saved
  find_saved-IsAsked =
      Triple-attempt _ (λ t db c. c.keeps db)
        (λ now db h.
          found db
            (mongo.find_one Message (keyed input.conversation_id input.client_message_id)
              db.messages)
            refl h)
        (λ db p. p)
    where
      found :
          (db : Db) (o : Option Message)
          → mongo.find_one Message (keyed input.conversation_id input.client_message_id) db.messages
            ≡ o
          → Sole db
          → IsAskedIfAny (ok o) db
      found db none e h = h
      found db (some m) e h =
          let (xs, (ys, (s, f))) =
            found-stored m
              (manual.find_one-Finds Message (keyed input.conversation_id input.client_message_id)
                db.messages)
              e in
          (h, f)

  invalidate-Sole : (c : ℕ) → Kept (invalidate redis ready c)
  unfolding invalidate is_ready bump
  invalidate-Sole c = Stays-bind (Stays-bind Triple-current_time (λ now. Stays-pure _)) (λ up.
      Stays-if up (Stays-try (access-Sole _ (λ now db h. h)) (λ e. Stays-pure tt)) (Stays-pure tt))

  answered :
      (m : Message) (created : Bool)
      → keyed input.conversation_id input.client_message_id m ≡ true
      → Triple IsSole Sole
          (pure (record { message = to_message_response m; created = created }))
          IsAnswered
  unfolding to_message_response
  answered m created h = Triple-pure _ (λ db p. (p, h))

  create_new-IsAnswered :
      (id : ℕ) → Triple IsSole Sole (create_new mongo redis ready id input) IsAnswered
  unfolding create_new touch_last_message update_conversation
  create_new-IsAnswered id =
      Triple-bind {R = IsAsked} (insert_message-IsAsked id)
        (λ m.
          Triple-use (λ db p. p.0) (λ db p. p.1)
            (λ h.
              Triple-bind {R = λ r db. Sole db} (access-Sole _ (λ now db p. p))
                (λ _.
                  Triple-bind {R = λ r db. Sole db} (invalidate-Sole input.conversation_id)
                    (λ _. answered m true h) (λ e db p. p))
                (λ e db p. p)))
        (λ e db p. p)

  already_saved-IsAnswered :
      (e : Failure) → Triple IsSole Sole (already_saved mongo redis ready input e) IsAnswered
  unfolding already_saved
  already_saved-IsAnswered duplicate_key =
      Triple-bind {R = IsAskedIfAny} find_saved-IsAsked
        (λ o.
          Triple-bind {R = IsAsked} (or_throw-IsAsked duplicate_key o)
            (λ m. Triple-use (λ db p. p.0) (λ db p. p.1) (answered m false)) (λ e db p. p))
        (λ e db p. p)
  already_saved-IsAnswered unavailable = Triple-throw _ (λ db p. p)
  already_saved-IsAnswered unrecoverable = Triple-throw _ (λ db p. p)
  already_saved-IsAnswered thrown = Triple-throw _ (λ db p. p)
  already_saved-IsAnswered (http e) = Triple-throw _ (λ db p. p)

  -- If no two messages of a conversation have the same client id, then none have after `create`, and a message that it answers with
  -- is one of the conversation and client id asked for. Before each access other requests may change anything, as by storing the same message first, as long as they store
  -- none twice, and any access may fail.
  pub create-IsAnswered :
      (id : ℕ) → Triple IsSole Sole (create mongo redis ready id input) IsAnswered
  unfolding create
  create-IsAnswered id =
      Triple-try {R = λ r db. IsAnswered r db} (create_new-IsAnswered id) already_saved-IsAnswered
        (λ r db p. p)
