-- ===== src/Chat/Conversations/Visibility.antt =====
-- Which threads a requester gets to see.
use chat_app_backend.Prelude.{
  ℕ, ◌≡◌, ◌⊎◌, ◌||◌, refl, true, List, ◌∷◌, ◌++◌, ◌==◌, inl, inr, Bool-cases, Option-cases,
  eq_of_==,
}
use chat_app_backend.Access.{has_permission, chat_read_any}
use chat_app_backend.Documents.{Conversation}
use chat_app_backend.Errors.{ok, err}
use chat_app_backend.Mongo.{Mongo, IsDocumented}
use chat_app_backend.Mongo.Facts.{found-stored}
use chat_app_backend.Server.{Db, quiet, access}
use chat_app_backend.Chat.Conversations.{
  Requester, can_access, get_for_requester, find_by_id, conversation_not_found,
}

-- The thread `c` that was returned: stored, the one that was asked for, and of the requester, unless the role may read all.
pub record Shown (id : ℕ) (requester : Requester) (conversations : List Conversation)
    (c : Conversation) : Type 0 where
  pub before : List Conversation
  pub after : List Conversation
  pub is_stored : conversations ≡ before ++ c ∷ after
  pub asked_for : c.id ≡ id
  pub visible :
      (has_permission requester.role chat_read_any || c.customer_id == requester.id) ≡ true

module _ (mongo : Mongo) (laws : IsDocumented mongo) where
  -- Asked for the thread `id`, with nothing that interrupts it, `getForRequester` returns a stored
  -- thread with that id, whose customer the requester is unless the role may read every thread, or
  -- fails with the one error that stands for a missing thread, which a thread of somebody else gets
  -- too.
  pub get_for_requester-Shown :
      (id : ℕ) (requester : Requester) (db : Db) (now : ℕ)
      → ((c : Conversation) × (((get_for_requester mongo id requester (quiet db now)).0 ≡ ok c)
            × Shown id requester db.conversations c))
        ⊎ ((get_for_requester mongo id requester (quiet db now)).0 ≡ err conversation_not_found)
  unfolding get_for_requester find_by_id can_access access
  get_for_requester-Shown id requester db now =
      elim (Option-cases (mongo.find_one Conversation (λ c. c.id == id) db.conversations)) [
        | inl e ↦ inr (rw e refl)
        | inr (c, e) ↦ elim (Bool-cases (can_access c requester)) [
          | inr f ↦ inr (rw (e, f) refl)
          | inl t ↦
              let (xs, (ys, (st, ma))) =
                found-stored c (laws.find_one-Finds Conversation (λ c. c.id == id) db.conversations)
                  e in
              inl (
                c,
                (
                  rw (e, t) refl,
                  record {
                    before = xs;
                    after = ys;
                    is_stored = st;
                    asked_for = eq_of_== c.id id ma;
                    visible = t;
                  },
                ),
              )
        ]
      ]
