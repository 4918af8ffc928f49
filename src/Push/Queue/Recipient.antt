-- ===== src/Push/Queue/Recipient.antt =====
-- Whom a message is for, and who is looking at its thread.
use chat_app_backend.Prelude.{
  ℕ, ◌≡◌, ◌≢◌, ◌⊎◌, refl, ap, sym, ◌∙◌, Bool, true, false, ◌&&◌, ◌||◌, Option, none, some, List, [],
  ◌∷◌, any, All, Bool-cases, inl, inr, ◌==◌, ==_refl, or_true,
}
use chat_app_backend.Documents.{Conversation}
use chat_app_backend.Mongo.{Mongo}
use chat_app_backend.Realtime.Sockets.{SocketState}
use chat_app_backend.Chat.Rooms.{has}
use chat_app_backend.Push.Crypto.{Crypto, WebPushSubscription}
use chat_app_backend.Push.Jobs.{MessageJob, PushPayload}
use chat_app_backend.Push.Sender.{Answer}
use chat_app_backend.Push.Queue.{BullMq, unless_sender, recipient_of, is_looking}

-- For a customer's message the agent of the thread, if there is one; for any other its customer.
abbrev pub IsOtherSide : MessageJob → Conversation → ℕ → Type 0
IsOtherSide message c id =
    ((message.sender_is_customer ≡ true) × (c.assigned_agent_id ≡ some id))
    ⊎ ((message.sender_is_customer ≡ false) × (c.customer_id ≡ id))

abbrev pub IsAmong : ℕ → List ℕ → Type 0
IsAmong c [] = ⊥
IsAmong c (d ∷ ds) = (d ≡ c) ⊎ IsAmong c ds

-- The socket is the user's and is in the room of the conversation.
abbrev pub IsViewer : ℕ → ℕ → SocketState → Type 0
IsViewer conversation_id user_id s = IsAmong conversation_id s.conversations × (s.user.id ≡ user_id)

any-IsAmong : (c : ℕ) (ds : List ℕ) → IsAmong c ds → any (λ d. d == c) ds ≡ true
any-IsAmong c [] h = absurd h
any-IsAmong c (d ∷ ds) (inl e) = rw (e, ==_refl c) refl
any-IsAmong c (d ∷ ds) (inr h) = rw (any-IsAmong c ds h) (or_true (d == c))

module _ (mongo : Mongo) (crypto : Crypto) (bull_mq : BullMq)
    (answers : WebPushSubscription → PushPayload → ℕ → Answer) where
  unless_sender-cases :
      (message : MessageJob) (o : Option ℕ) (id : ℕ)
      → unless_sender mongo crypto bull_mq answers true message o ≡ some id
      → (o ≡ some id) × (id ≢ message.sender_id)
  unfolding unless_sender
  unless_sender-cases message none id h = cc
  unless_sender-cases message (some r) id h = elim (Bool-cases (r == message.sender_id)) [
    | inl e ↦ let k : none ≡ some id = rw e at h in cc
    | inr e ↦
        let k : some r ≡ some id = rw e at h in
        (k, λ same. differs (sym (same_beq r (ap (or_zero) k ∙ same)) ∙ e))
  ]
    where
      or_zero : Option ℕ → ℕ
      or_zero none = 0
      or_zero (some n) = n

      same_beq : (n : ℕ) → n ≡ message.sender_id → (n == message.sender_id) ≡ true
      same_beq n e = rw e (==_refl message.sender_id)

      differs : true ≢ false
      differs e = cc

  pub recipient_of-other_side :
      (message : MessageJob) (c : Conversation) (id : ℕ)
      → recipient_of mongo crypto bull_mq answers true message c ≡ some id
      → IsOtherSide message c id × (id ≢ message.sender_id)
  unfolding recipient_of
  recipient_of-other_side message c id h = elim (Bool-cases message.sender_is_customer) [
    | inl e ↦
        let (o, n) = unless_sender-cases message c.assigned_agent_id id (rw e at h) in
        (inl (e, o), n)
    | inr e ↦
        let (o, n) = unless_sender-cases message (some c.customer_id) id (rw e at h) in
        (inr (e, cc), n)
  ]

  pub not_viewing :
      (c id : ℕ) (sockets : List SocketState)
      → any (is_looking mongo crypto bull_mq answers true c id) sockets ≡ false
      → All (λ (s : SocketState). ¬ (IsViewer c id s)) sockets
  unfolding is_looking
  not_viewing c id [] h = tt
  not_viewing c id (s ∷ sockets) h =
      let (k, rest) = neither (has c s.conversations && s.user.id == id) _ h in
      ((λ v. looks v k), not_viewing c id sockets rest)
    where
      neither : (b d : Bool) → (b || d) ≡ false → (b ≡ false) × (d ≡ false)
      neither true d h = cc
      neither false d h = (refl, h)

      looks : IsViewer c id s → (has c s.conversations && s.user.id == id) ≡ false → ⊥
      looks (a, e) k = differs (sym (rw (any-IsAmong c s.conversations a, e, ==_refl id) refl) ∙ k)
        where
          differs : true ≢ false
          differs e = cc
