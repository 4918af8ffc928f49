-- ===== src/Chat/Conversations/Threads.antt =====
-- A customer has one thread, whoever races to make it.
use chat_app_backend.Prelude.{
  ℕ, ◌+◌, ◌≤◌, ◌≡◌, refl, ap, ◌∙◌, subst, Bool, true, false, ◌||◌, Option, none, some, List, [],
  ◌∷◌, any, count, count-append, one_if, ◌==◌, ==_refl, ==_comm, eq_of_==, Bool-cases, inl, inr,
  arith,
}
use chat_app_backend.Documents.{Conversation}
use chat_app_backend.Errors.{Failure, duplicate_key, Result, ok, err}
use chat_app_backend.Mongo.{Mongo, IsDocumented, Inserts, refused, stored}
use chat_app_backend.Mongo.Facts.{found-stored}
use chat_app_backend.Server.{Db, Turn}
use chat_app_backend.Server.Triples.{Triple, Triple-attempt, Triple-pure, Triple-throw, Triple-bind}
use chat_app_backend.Chat.Conversations.{
  same_customer, new_conversation, or_throw, find_of_customer, inserted, insert_conversation,
  created_or_winner, existing_or_created, get_or_create_for_customer,
}

abbrev pub belongs : ℕ → Conversation → Bool
belongs customer_id c = c.customer_id == customer_id

-- No customer has two threads.
abbrev pub Single : Db → Type 0
Single db = (customer_id : ℕ) → count (belongs customer_id) db.conversations ≤ 1

-- Other requests make no second thread; accesses may fail.
pub record IsSingle (t : Turn) : Type 0 where
  pub keeps : (db : Db) → Single db → Single (t.others db)

none_same :
    (c : Conversation) (ds : List Conversation)
    → any (same_customer c) ds ≡ false
    → count (belongs c.customer_id) ds ≡ 0
none_same c [] h = refl
none_same c (d ∷ ds) h =
    let (f, g) = neither (c.customer_id == d.customer_id) (any (same_customer c) ds) h in
    omega (arith, none_same c ds g, ap one_if (==_comm d.customer_id c.customer_id ∙ f))
  where
    neither : (a b : Bool) → (a || b) ≡ false → (a ≡ false) × (b ≡ false)
    neither true b h = cc
    neither false b h = (refl, h)

abbrev or_else : {A : Type 0} → A → Option A → A
or_else a none = a
or_else a (some b) = b

module _ (mongo : Mongo) (manual : IsDocumented mongo) where
  insert-Single :
      (c : Conversation) (db : Db) (o : Option (List Conversation))
      → Inserts same_customer c db.conversations o
      → Single db
      → Single (inserted mongo db c o).0
  unfolding inserted
  insert-Single c db none i h k = h k
  insert-Single c db (some cs) (refused e r) h k = elim (clash r) [ ]
    where
      clash : some cs ≡ none → ⊥
      clash e = cc
  insert-Single c db (some cs) (stored xs ys n s r) h k =
      let before : count (belongs k) db.conversations
          ≡ count (belongs k) xs + count (belongs k) ys =
        ap (count (belongs k)) s ∙ count-append (belongs k) xs ys in
      let after : count (belongs k) cs ≡ count (belongs k) xs + count (belongs k) (c ∷ ys) =
        ap (count (belongs k)) (ap (or_else cs) r) ∙ count-append (belongs k) xs (c ∷ ys) in
      elim (Bool-cases (belongs k c)) [
        | inl e ↦
            let none_yet : count (belongs k) db.conversations ≡ 0 =
              subst (λ x. count (belongs x) db.conversations ≡ 0) (eq_of_== c.customer_id k e)
                (none_same c db.conversations n) in
            omega (arith, before, after, none_yet, ap one_if e)
        | inr e ↦ omega (arith, before, after, h k, ap one_if e)
      ]

  -- The thread that is returned is the customer's.
  abbrev pub IsOwn : ℕ → Result Conversation → Db → Type 0
  IsOwn customer_id (ok c) db = Single db × ((c.customer_id == customer_id) ≡ true)
  IsOwn customer_id (err e) db = Single db

  abbrev IsOwnIfAny : ℕ → Result (Option Conversation) → Db → Type 0
  IsOwnIfAny customer_id (ok (some c)) db = Single db × ((c.customer_id == customer_id) ≡ true)
  IsOwnIfAny customer_id (ok none) db = Single db
  IsOwnIfAny customer_id (err e) db = Single db

  find-IsOwnIfAny :
      (customer_id : ℕ)
      → Triple IsSingle Single (find_of_customer mongo customer_id) (IsOwnIfAny customer_id)
  unfolding find_of_customer
  find-IsOwnIfAny customer_id =
      Triple-attempt _ (λ t db c. c.keeps db)
        (λ now db h.
          found db (mongo.find_one Conversation (belongs customer_id) db.conversations) refl h)
        (λ db p. p)
    where
      found :
          (db : Db) (o : Option Conversation)
          → mongo.find_one Conversation (belongs customer_id) db.conversations ≡ o
          → Single db
          → IsOwnIfAny customer_id (ok o) db
      found db none e h = h
      found db (some c) e h =
          let (xs, (ys, (s, m))) =
            found-stored c
              (manual.find_one-Finds Conversation (belongs customer_id) db.conversations) e in
          (h, m)

  insert-IsOwnIfAny :
      (id customer_id : ℕ)
      → Triple IsSingle Single (insert_conversation mongo id customer_id) (IsOwnIfAny customer_id)
  unfolding insert_conversation inserted
  insert-IsOwnIfAny id customer_id =
      Triple-attempt _ (λ t db c. c.keeps db)
        (λ now db h.
          made now db
            (mongo.insert_one Conversation same_customer (new_conversation id customer_id now)
              db.conversations)
            (manual.insert_one-Inserts Conversation same_customer
              (new_conversation id customer_id now) db.conversations)
            h)
        (λ db p. p)
    where
      made :
          (now : ℕ) (db : Db) (o : Option (List Conversation))
          → Inserts same_customer (new_conversation id customer_id now) db.conversations o
          → Single db
          → IsOwnIfAny customer_id
              (ok (inserted mongo db (new_conversation id customer_id now) o).1)
              (inserted mongo db (new_conversation id customer_id now) o).0
      made now db none i h = h
      made now db (some cs) i h = (
        insert-Single (new_conversation id customer_id now) db (some cs) i h,
        ==_refl customer_id,
      )

  or_throw-IsOwn :
      (customer_id : ℕ) (e : Failure) (o : Option Conversation)
      → Triple IsSingle (IsOwnIfAny customer_id (ok o)) (or_throw e o) (IsOwn customer_id)
  unfolding or_throw
  or_throw-IsOwn customer_id e none = Triple-throw e (λ db p. p)
  or_throw-IsOwn customer_id e (some c) = Triple-pure c (λ db p. p)

  -- If no customer has two threads, then none has after `getOrCreateForCustomer` of any customer, and a thread that it returns is
  -- that customer's. Before each access other requests may change anything, as by making the thread first, as long as they make no second thread, and any access
  -- may fail.
  pub get_or_create_for_customer-IsOwn :
      (id customer_id : ℕ)
      → Triple IsSingle Single (get_or_create_for_customer mongo id customer_id) (IsOwn customer_id)
  unfolding get_or_create_for_customer existing_or_created created_or_winner
  get_or_create_for_customer-IsOwn id customer_id =
      Triple-bind {R = IsOwnIfAny customer_id} (find-IsOwnIfAny customer_id) first (λ e db p. p)
    where
      winner :
          (o : Option Conversation)
          → Triple IsSingle
              (IsOwnIfAny customer_id (ok o))
              (created_or_winner mongo customer_id o)
              (IsOwn customer_id)
      winner (some c) = Triple-pure c (λ db p. p)
      winner none =
          Triple-bind {R = IsOwnIfAny customer_id} (find-IsOwnIfAny customer_id)
            (or_throw-IsOwn customer_id duplicate_key) (λ e db p. p)

      first :
          (o : Option Conversation)
          → Triple IsSingle
              (IsOwnIfAny customer_id (ok o))
              (existing_or_created mongo id customer_id o)
              (IsOwn customer_id)
      first (some c) = Triple-pure c (λ db p. p)
      first none =
          Triple-bind {R = IsOwnIfAny customer_id} (insert-IsOwnIfAny id customer_id) winner
            (λ e db p. p)
