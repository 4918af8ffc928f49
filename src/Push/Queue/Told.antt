-- ===== src/Push/Queue/Told.antt =====
-- Every device of a recipient who is not looking gets its delivery.
use chat_app_backend.Prelude.{
  ℕ, ◌≤◌, ◌≡◌, ◌≢◌, refl, ap, sym, ◌∙◌, subst, Bool, true, false, ◌&&◌, ◌||◌, Option, none, some,
  List, [], ◌∷◌, any, map, count, one_if, All, if◌then◌else◌, Bool-cases, inl, inr, arith, ◌==◌,
  eq_of_==,
}
use chat_app_backend.Errors.{Result, ok, err}
use chat_app_backend.Documents.{Conversation}
use chat_app_backend.Mongo.{Mongo, IsDocumented}
use chat_app_backend.Server.{Db, pure}
use chat_app_backend.Server.Triples.{
  Triple, Triple-pure, Triple-throw, Triple-bind, Triple-attempt, Triple-use,
}
use chat_app_backend.Chat.Conversations
use chat_app_backend.Chat.Rooms.{has}
use chat_app_backend.Realtime.Sockets.{SocketState}
use chat_app_backend.Push.Crypto.{Crypto, WebPushSubscription, decrypt}
use chat_app_backend.Push.Jobs.{Device, MessageJob, PushPayload, deliver}
use chat_app_backend.Push.Sender.{Answer}
use chat_app_backend.Push.Subscriptions.{
  StoredSubscription, is_of, parse, stored, stored_or_throw, unwrap, unwrap_each, list_for_user,
}
use chat_app_backend.Push.Queue.{
  BullMq, IsBullMq, add_jobs, add_deliveries, notify_devices, is_viewing, notify_recipient,
  fan_out_in, fan_out, unless_sender, recipient_of, payload_of, is_looking,
}
use chat_app_backend.Push.Queue.Recipient.{IsOtherSide, IsAmong, IsViewer}
use chat_app_backend.Push.Queue.Due.{IsIdle, IsDue, any_of_count}
use chat_app_backend.Push.Queue.Keys.{is_delivery, add_bulk-delivery}
use chat_app_backend.Push.Queue.Unique.{any-delivery}

IsAmong-any : (c : ℕ) (ds : List ℕ) → any (λ d. d == c) ds ≡ true → IsAmong c ds
IsAmong-any c [] h = cc
IsAmong-any c (d ∷ ds) h = elim (Bool-cases (d == c)) [
  | inl e ↦ inl (eq_of_== d c e)
  | inr e ↦ inr (IsAmong-any c ds (rw e at h))
]

both : (b c : Bool) → (b && c) ≡ true → (b ≡ true) × (c ≡ true)
both true c h = (refl, h)
both false c h = cc

abbrev or_else : {A : Type 0} → A → Option A → A
or_else a none = a
or_else a (some b) = b

none≢some : {A : Type 0} {a : A} → none ≢ some a
none≢some e = cc

count_any : {A : Type 0} (p : A → Bool) (xs : List A) → any p xs ≡ true → 1 ≤ count p xs
count_any p [] h = cc
count_any p (x ∷ xs) h = elim (Bool-cases (p x)) [
  | inl e ↦ omega (arith, ap one_if e)
  | inr e ↦ omega (arith, count_any p xs (rw e at h))
]

module _ (mongo : Mongo) (crypto : Crypto) (bull_mq : BullMq)
    (answers : WebPushSubscription → PushPayload → ℕ → Answer) (message : MessageJob) where
  recipient_of-some :
      (c : Conversation) (id : ℕ)
      → IsOtherSide message c id
      → id ≢ message.sender_id
      → recipient_of mongo crypto bull_mq answers true message c ≡ some id
  unfolding recipient_of unless_sender
  recipient_of-some c id side n = elim (Bool-cases (id == message.sender_id)) [
    | inl e ↦ absurd (n (eq_of_== id message.sender_id e))
    | inr e ↦ elim side [ inl (b, h) ↦ rw (b, h, e) refl | inr (b, h) ↦ rw (b, h, e) refl ]
  ]

  not_looking :
      (id : ℕ) (sockets : List SocketState)
      → All (λ (s : SocketState). ¬ (IsViewer message.conversation_id id s)) sockets
      → any (is_looking mongo crypto bull_mq answers true message.conversation_id id) sockets
        ≡ false
  unfolding is_looking
  not_looking id [] h = refl
  not_looking id (s ∷ sockets) (n, h) =
      elim (Bool-cases (has message.conversation_id s.conversations && s.user.id == id)) [
        | inl e ↦
            let (a, b) = both (has message.conversation_id s.conversations) (s.user.id == id) e in
            absurd
              (n (IsAmong-any message.conversation_id s.conversations a, eq_of_== s.user.id id b))
        | inr e ↦ rw e (not_looking id sockets h)
      ]

  module _ (before : Db) (manual : IsDocumented mongo) (queue_manual : IsBullMq bull_mq)
      (id : ℕ) where
    abbrev Same : Db → Type 0
    Same db = db ≡ before

    abbrev pub Told : Result (Unit {0}) → Db → Type 0
    Told (ok _) db = 1 ≤ count (is_delivery id message.message_id) db.queue
    Told (err e) db = Unit

    add_deliveries-Told :
        (devices : List StoredSubscription)
        → any (λ (s : StoredSubscription). s.id == id) devices ≡ true
        → Triple IsIdle Same (add_deliveries mongo crypto bull_mq answers true message devices) Told
    unfolding add_deliveries add_jobs
    add_deliveries-Told [] h = cc
    add_deliveries-Told (device ∷ devices) h =
        Triple-attempt _ (λ t db c p. c.keeps db ∙ p)
          (λ now db p.
            add_bulk-delivery bull_mq queue_manual
              (map (λ d. deliver d.id (payload_of mongo crypto bull_mq answers true message))
                (device ∷ devices))
              db.queue id message.message_id
              (any-delivery mongo crypto bull_mq answers true queue_manual message id
                (device ∷ devices) h))
          (λ db p. tt)

    abbrev Unwrapped : Bool → Result (List StoredSubscription) → Db → Type 0
    Unwrapped b (ok devices) db =
        Same db × (any (λ (s : StoredSubscription). s.id == id) devices ≡ b)
    Unwrapped b (err e) db = Unit

    abbrev OneUnwrapped : ℕ → Result StoredSubscription → Db → Type 0
    OneUnwrapped row_id (ok s) db = Same db × (s.id ≡ row_id)
    OneUnwrapped row_id (err e) db = Unit

    unwrap-Told :
        (row : Device) → Triple IsIdle Same (unwrap mongo crypto row) (OneUnwrapped row.id)
    unfolding unwrap stored_or_throw stored
    unwrap-Told row = from (parse mongo crypto (decrypt crypto row.encrypted_subscription))
      where
        from :
            (o : Option WebPushSubscription)
            → Triple IsIdle Same (stored_or_throw mongo crypto row o) (OneUnwrapped row.id)
        from none = Triple-throw _ (λ db p. tt)
        from (some subscription) = Triple-pure _ (λ db p. (p, refl))

    unwrap_each-Told :
        (rows : List Device)
        → Triple IsIdle Same
            (unwrap_each mongo crypto rows)
            (Unwrapped (any (λ (row : Device). row.id == id) rows))
    unfolding unwrap_each
    unwrap_each-Told [] = Triple-pure [] (λ db p. (p, refl))
    unwrap_each-Told (row ∷ rows) =
        Triple-bind {R = OneUnwrapped row.id} (unwrap-Told row)
          (λ s.
            Triple-use (λ db p. p.0) (λ db p. p.1)
              (λ e.
                Triple-bind {R = Unwrapped (any (λ (row : Device). row.id == id) rows)}
                  (unwrap_each-Told rows)
                  (λ ss. Triple-pure _ (λ db p. (
                    p.0,
                    ap (λ n. n == id || any (λ (s : StoredSubscription). s.id == id) ss) e
                        ∙ ap (λ b. row.id == id || b) p.1,
                  )))
                  (λ e db p. tt)))
          (λ e db p. tt)

    abbrev Read : Result (List Device) → Db → Type 0
    Read (ok rows) db = Same db × (any (λ (row : Device). row.id == id) rows ≡ true)
    Read (err e) db = Unit

    notify_devices-Told :
        (recipient : ℕ)
        → any (λ (d : Device). d.user_id == recipient && d.id == id) before.devices ≡ true
        → Triple IsIdle Same
            (notify_devices mongo crypto bull_mq answers true message recipient)
            Told
    unfolding notify_devices list_for_user
    notify_devices-Told recipient own =
        Triple-bind {R = Unwrapped true}
          (Triple-bind {R = Read}
            (Triple-attempt _ (λ t db c p. c.keeps db ∙ p) (λ now db p. (p, rw p own_row))
              (λ db p. tt))
            (λ rows.
              Triple-use (λ db p. p.0) (λ db p. p.1)
                (λ h.
                  subst (λ b. Triple IsIdle Same (unwrap_each mongo crypto rows) (Unwrapped b)) h
                    (unwrap_each-Told rows)))
            (λ e db p. tt))
          (λ devices. Triple-use (λ db p. p.0) (λ db p. p.1) (add_deliveries-Told devices))
          (λ e db p. tt)
      where
        own_row :
            any
              (λ (row : Device). row.id == id)
              (mongo.find Device (is_of recipient) before.devices)
            ≡ true
        own_row =
            any_of_count (λ (row : Device). row.id == id)
              (mongo.find Device (is_of recipient) before.devices)
              (omega (
                arith,
                manual.count-find Device (is_of recipient) (λ row. row.id == id) before.devices,
                count_any (λ (d : Device). d.user_id == recipient && d.id == id) before.devices own,
              ))

    abbrev Viewing : Result Bool → Db → Type 0
    Viewing (ok b) db = Same db × (b ≡ false)
    Viewing (err e) db = Unit

    abbrev ReadThread : Result (Option Conversation) → Db → Type 0
    ReadThread (ok o) db =
        Same db
        × (mongo.find_one Conversation (λ k. k.id == message.conversation_id) before.conversations
            ≡ o)
    ReadThread (err e) db = Unit

    -- If a message job that the queue runs returns, every device of the recipient has a delivery of this message in
    -- the queue, where the recipient is the other side of a stored thread, is not the sender, and has no
    -- socket in the thread's room. The others change nothing meanwhile.
    pub fan_out-Told :
        IsDue mongo crypto bull_mq answers message before id
        → Triple IsIdle (λ db. db ≡ before) (fan_out mongo crypto bull_mq answers true message) Told
    unfolding fan_out fan_out_in notify_recipient is_viewing Conversations.find_by_id
    fan_out-Told due =
        Triple-bind {R = ReadThread}
          (Triple-attempt _ (λ t db c p. c.keeps db ∙ p)
            (λ now db p. (
              p,
              ap
                  (λ (d : Db).
                    mongo.find_one Conversation (λ k. k.id == message.conversation_id)
                      d.conversations)
                  (sym p),
            ))
            (λ db p. tt))
          (λ o. Triple-use (λ db p. p.0) (λ db p. p.1) (after o)) (λ e db p. tt)
      where
        viewed :
            (b : Bool)
            → b ≡ false
            → Triple IsIdle Same
                (if b
                  then pure tt
                  else notify_devices mongo crypto bull_mq answers true message due.recipient)
                Told
        viewed true e = cc
        viewed false e = notify_devices-Told due.recipient due.is_own

        notified :
            Triple IsIdle Same
              (notify_recipient mongo crypto bull_mq answers true message (some due.recipient))
              Told
        notified =
            Triple-bind {R = Viewing}
              (Triple-attempt _ (λ t db c p. c.keeps db ∙ p)
                (λ now db p. (p, rw p (not_looking due.recipient before.sockets due.not_looking)))
                (λ db p. tt))
              (λ b. Triple-use (λ db p. p.0) (λ db p. p.1) (viewed b)) (λ e db p. tt)

        after :
            (o : Option Conversation)
            → mongo.find_one Conversation
                (λ k. k.id == message.conversation_id)
                before.conversations
              ≡ o
            → Triple IsIdle Same (fan_out_in mongo crypto bull_mq answers true message o) Told
        after none e = absurd (none≢some (sym e ∙ due.stored_thread))
        after (some c) e =
            let same : c ≡ due.thread = ap (or_else c) (sym e ∙ due.stored_thread) in
            subst
              (λ o.
                Triple IsIdle Same (notify_recipient mongo crypto bull_mq answers true message o)
                  Told)
              (sym (
                ap (recipient_of mongo crypto bull_mq answers true message) same
                ∙ recipient_of-some due.thread due.recipient due.other_side due.not_sender))
              notified
