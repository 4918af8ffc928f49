-- ===== src/Chat/Messages/Coherence/Writing.antt =====
-- The calls on one conversation keep the cache in agreement with its messages.
use chat_app_backend.Prelude.{
  ℕ, ◌+◌, ◌≡◌, ◌≢◌, refl, ap, Bool, true, false, not, Option, none, some, List, [], ◌∷◌, map, ◌==◌,
  is_some, one_if, count, if◌then◌else◌, arith, inl, inr, Bool-cases, eq_of_==,
}
use chat_app_backend.Documents.{Message}
use chat_app_backend.Errors.{
  Result, ok, err, Failure, http, duplicate_key, unavailable, unrecoverable, thrown,
}
use chat_app_backend.Mongo.{Mongo, IsDocumented, update_if}
use chat_app_backend.Redis.{Redis, IsRedis}
use chat_app_backend.Server.{Db, pure, Turn, current_time}
use chat_app_backend.Server.Triples.{
  Stays, Stays-pure, Stays-bind, Stays-throw, Triple, Triple-access, Triple-bind, Triple-pure,
  Triple-throw, Triple-try, Triple-current_time,
}
use chat_app_backend.Chat.Side.{ChatSide, ConversationRef}
use chat_app_backend.Chat.Cache.{invalidate, is_ready, bump}
use chat_app_backend.Chat.Conversations.{or_throw, touch_last_message, update_conversation}
use chat_app_backend.Chat.Messages.{
  CreateMessageInput, create, create_new, already_saved, insert_message, inserted, new_message,
  find_saved, update_messages, mark_delivered_to, changed_rows, deliver_at, page_of,
}
use chat_app_backend.Chat.Messages.Coherence.{Coherent, Coherent-stable, IsHonest, written, bumped}
use chat_app_backend.Chat.Messages.Coherence.Reading.{read-Good}

map-none :
    {D : Type 0} (p : D → Bool) (u : D → D) (ds : List D)
    → count p ds ≡ 0
    → map (update_if p u) ds ≡ ds
map-none p u [] h = refl
map-none p u (d ∷ ds) h = elim (Bool-cases (p d)) [
  | inl e ↦ elim (some_match (rw e at h)) [ ]
  | inr e ↦ rw e (ap (λ rest. d ∷ rest) (map-none p u ds (omega (arith, rw e at h))))
]
  where
    some_match : 1 + count p ds ≢ 0
    some_match h = omega (arith, h)

module _ (mongo : Mongo) (laws : IsDocumented mongo) (redis : Redis) (redis_laws : IsRedis redis)
    (ready : ℕ → Bool) (up : (now : ℕ) → ready now ≡ true) (c : ℕ) where
  abbrev Fine : ℕ → Db → Type 0
  Fine k db = Coherent mongo redis ready c k db

  abbrev Honestly : Turn → Type 0
  Honestly t = IsHonest mongo redis ready c t

  abbrev After : {A : Type 0} → ℕ → Result A → Db → Type 0
  After k (ok a) db = Fine k db
  After k (err e) db = Fine 0 db

  bump-Fine : (k : ℕ) → Triple Honestly (Fine k) (bump redis ready c) (λ r db. Fine 0 db)
  unfolding bump
  bump-Fine k =
      Triple-access _ (Coherent-stable mongo redis ready c k)
        (λ now db h. bumped mongo redis ready c redis_laws k db h)

  invalidate-Fine :
      (k : ℕ) → Triple Honestly (Fine k) (invalidate redis ready c) (λ r db. Fine 0 db)
  unfolding invalidate is_ready current_time
  invalidate-Fine k = record {
    runs = λ w turns h. rw (up w.now) (
        (Triple-try {R = λ r db. Fine 0 db} (bump-Fine k) (λ e. Stays-pure tt) (λ a db g. g)).runs w
          turns h);
  }

  inserted-Fine :
      (m : Message) (db : Db) (o : Option (List Message))
      → Fine 0 db
      → Fine (one_if (is_some (inserted db m o).1)) (inserted db m o).0
  unfolding inserted
  inserted-Fine m db none h = h
  inserted-Fine m db (some ms) h = written mongo redis ready c db ms h

  insert_message-Fine :
      (new : ℕ) (input : CreateMessageInput)
      → Triple Honestly (Fine 0) (insert_message mongo redis ready new input) (After 1)
  unfolding insert_message or_throw
  insert_message-Fine new input =
      Triple-bind {R = λ r db. elim r [ ok o ↦ Fine (one_if (is_some o)) db | err e ↦ Fine 0 db ]}
        (Triple-access _ (Coherent-stable mongo redis ready c 0)
          (λ now db h. inserted-Fine (new_message new input now) db _ h))
        of (λ e db h. h)
    where
      of :
          (o : Option Message)
          → Triple Honestly (Fine (one_if (is_some o))) (or_throw duplicate_key o) (After 1)
      of none = Triple-throw _ (λ db h. h)
      of (some m) = Triple-pure m (λ db h. h)

  touch-Fine :
      (id : ℕ) (text : List ℕ) (at : ℕ)
      → Triple Honestly (Fine 1) (touch_last_message mongo id text at) (After 1)
  unfolding touch_last_message update_conversation page_of
  touch-Fine id text at = Triple-access _ (Coherent-stable mongo redis ready c 1) (λ now db h.
      record {
        cached = λ v l page e. record {
          known = (h.cached v l page e).known;
          current = (h.cached v l page e).current;
        };
      })

  pub create-Fine :
      (new : ℕ) (input : CreateMessageInput)
      → input.conversation_id ≡ c
      → Stays Honestly (Fine 0) (create mongo redis ready new input)
  unfolding create create_new find_saved already_saved or_throw
  create-Fine new input at =
      Triple-try {R = λ r db. Fine 0 db}
        (Triple-bind (insert_message-Fine new input)
          (λ m.
            Triple-bind (touch-Fine input.conversation_id input.text m.created_at)
              (λ _.
                Triple-bind {R = λ r db. Fine 0 db} (rw at (invalidate-Fine 1)) (λ _. Stays-pure _)
                  (λ e db h. h))
              (λ e db h. h))
          (λ e db h. h))
        saved (λ a db h. h)
    where
      known : {A : Type 0} (e : Failure) (o : Option A) → Stays Honestly (Fine 0) (or_throw e o)
      known e none = Stays-throw _
      known e (some a) = Stays-pure a

      saved : (e : Failure) → Stays Honestly (Fine 0) (already_saved mongo redis ready input e)
      saved duplicate_key =
          Stays-bind (read-Good mongo redis redis_laws ready c _)
            (λ o. Stays-bind (known _ o) (λ m. Stays-pure _))
      saved unavailable = Stays-throw _
      saved unrecoverable = Stays-throw _
      saved thrown = Stays-throw _
      saved (http e) = Stays-throw _

  update_messages-Fine :
      (p : Message → Bool) (u : Message → Message)
      → Triple Honestly
          (Fine 0)
          (update_messages mongo redis ready p u)
          (λ r db. elim r [ ok n ↦ Fine (one_if (not (n == 0))) db | err e ↦ Fine 0 db ])
  unfolding update_messages
  update_messages-Fine p u = Triple-access _ (Coherent-stable mongo redis ready c 0) (λ now db h.
      elim (Bool-cases (count p db.messages == 0)) [
        | inl e ↦ rw e (
            rw (laws.update_many_lem Message p u db.messages)
              (rw (map-none p u db.messages (eq_of_== _ 0 e)) h))
        | inr e ↦ rw e (written mongo redis ready c db _ h)
      ])

  pub mark_delivered_to-Fine :
      (customer_id : ℕ) (side : ChatSide)
      → Stays Honestly
          (Fine 0)
          (mark_delivered_to mongo redis ready (record { id = c; customer_id = customer_id }) side)
  unfolding mark_delivered_to changed_rows
  mark_delivered_to-Fine customer_id side = Stays-bind Triple-current_time (λ at.
      Triple-bind (update_messages-Fine _ (deliver_at at)) (λ n. rest at (n == 0)) (λ e db h. h))
    where
      conversation : ConversationRef
      conversation = record { id = c; customer_id = customer_id }

      rest :
          (at : ℕ) (nothing : Bool)
          → Triple Honestly
              (Fine (one_if (not nothing)))
              (if nothing then pure [] else changed_rows mongo redis ready conversation at)
              (λ r db. Fine 0 db)
      rest at true = Triple-pure [] (λ db h. h)
      rest at false =
          Triple-bind (invalidate-Fine 1)
            (λ _. Stays-bind (read-Good mongo redis redis_laws ready c _) (λ rows. Stays-pure _))
            (λ e db h. h)
