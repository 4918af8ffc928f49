-- ===== src/Push/Queue/Due.antt =====
-- Who is notified of a message.
use chat_app_backend.Prelude.{
  ℕ, ◌≤◌, ◌≡◌, ◌≢◌, refl, ap, sym, ◌∙◌, Bool, true, false, ◌&&◌, Option, none, some, List, [], ◌∷◌,
  ◌++◌, any, map, count, one_if, All, All-append, if◌then◌else◌, Bool-cases, inl, inr, arith, ◌==◌,
  ==_refl,
}
use mathlib.Core.List.{append_assoc}
use chat_app_backend.Errors.{unavailable, Result, ok, err}
use chat_app_backend.Documents.{Conversation}
use chat_app_backend.Mongo.{Mongo, IsDocumented}
use chat_app_backend.Server.{Db, Turn, pure, access}
use chat_app_backend.Server.Triples.{
  Triple, Triple-pure, Triple-throw, Triple-bind, Triple-attempt, Triple-use,
}
use chat_app_backend.Chat.Conversations
use chat_app_backend.Push.Crypto.{Crypto, WebPushSubscription, decrypt}
use chat_app_backend.Push.Jobs.{Device, MessageJob, PushPayload, Job, notify, deliver}
use chat_app_backend.Push.Sender.{Answer}
use chat_app_backend.Push.Subscriptions.{
  StoredSubscription, is_of, parse, stored, stored_or_throw, unwrap, unwrap_each, list_for_user,
}
use chat_app_backend.Realtime.Sockets.{SocketState}
use chat_app_backend.Push.Queue.Recipient.{
  IsOtherSide, IsViewer, recipient_of-other_side, not_viewing,
}
use chat_app_backend.Push.Queue.{
  same_job, BullMq, IsBullMq, add_bulk, add_jobs, add_deliveries, notify_devices, is_viewing,
  notify_recipient, fan_out_in, fan_out, recipient_of, payload_of, is_looking,
}

pub any_of_count : {A : Type 0} (p : A → Bool) (xs : List A) → 1 ≤ count p xs → any p xs ≡ true
any_of_count p [] h = ground (arith, h)
any_of_count p (x ∷ xs) h = elim (Bool-cases (p x)) [
  | inl e ↦ rw e refl
  | inr e ↦ rw e (any_of_count p xs (omega (arith, h, ap one_if e)))
]

-- What is found is stored.
All-stored :
    (p : Device → Bool) (rows devices : List Device)
    → ((q : Device → Bool) → count q rows ≤ count (λ d. p d && q d) devices)
    → All (λ row. any (λ d. p d && d.id == row.id) devices ≡ true) rows
All-stored p [] devices h = tt
All-stored p (row ∷ rows) devices h = (
  any_of_count (λ d. p d && d.id == row.id) devices
      (omega (arith, h (λ d. d.id == row.id), ap one_if (==_refl row.id))),
  All-stored p rows devices (λ q. omega (arith, h q)),
)

-- The others change nothing meanwhile; accesses may fail and take time.
pub record IsIdle (t : Turn) : Type 0 where
  pub keeps : (db : Db) → t.others db ≡ db

module _ (mongo : Mongo) (crypto : Crypto) (bull_mq : BullMq)
    (answers : WebPushSubscription → PushPayload → ℕ → Answer) (message : MessageJob)
    (before : Db) where
  -- The device `id` is one of the recipient's, who is not looking at the thread.
  pub record IsDue (id : ℕ) : Type 0 where
    pub thread : Conversation
    pub recipient : ℕ
    pub stored_thread :
        mongo.find_one Conversation (λ c. c.id == message.conversation_id) before.conversations
        ≡ some thread
    pub other_side : IsOtherSide message thread recipient
    pub not_sender : recipient ≢ message.sender_id
    pub not_looking :
        All (λ (s : SocketState). ¬ (IsViewer message.conversation_id recipient s)) before.sockets
    pub is_own : any (λ d. d.user_id == recipient && d.id == id) before.devices ≡ true

  abbrev pub IsDelivery : Job → Type 0
  IsDelivery (notify m delay) = ⊥
  IsDelivery (deliver id payload) =
      IsDue id
      × (payload ≡ record {
        title = message.sender_name;
        body = message.text;
        conversation_id = message.conversation_id;
        message_id = message.message_id;
      })

  -- The queue has what it had and jobs for devices that are due.
  pub record Extended (db : Db) : Type 0 where
    pub added : List Job
    pub queue_is : db.queue ≡ added ++ before.queue
    pub due : All IsDelivery added

  abbrev Same : Db → Type 0
  Same db = db ≡ before

  module _ (manual : IsDocumented mongo) (queue_manual : IsBullMq bull_mq) where
    begin-Extended : (db : Db) → Same db → Extended db
    begin-Extended db e = record { added = []; queue_is = ap (λ (d : Db). d.queue) e; due = tt }

    add_bulk-Extended :
        (jobs queue : List Job)
        → All IsDelivery jobs
        → (added : List Job) × ((add_bulk bull_mq jobs queue ≡ added ++ queue)
            × All IsDelivery added)
    add_bulk-Extended [] queue h = ([], (refl, tt))
    add_bulk-Extended (job ∷ jobs) queue (h, hs) = elim (Bool-cases (any (same_job job) queue)) [
      | inl e ↦ rw (queue_manual.add_lem job queue, e) (add_bulk-Extended jobs queue hs)
      | inr e ↦
          rw (queue_manual.add_lem job queue, e) (grown (add_bulk-Extended jobs (job ∷ queue) hs))
    ]
      where
        grown :
            (added : List Job) × ((add_bulk bull_mq jobs (job ∷ queue) ≡ added ++ job ∷ queue)
                × All IsDelivery added)
            → (added : List Job) × ((add_bulk bull_mq jobs (job ∷ queue) ≡ added ++ queue)
                × All IsDelivery added)
        grown (added, (e, a)) = (
          added ++ job ∷ [],
          (
            e ∙ sym (append_assoc added (job ∷ []) queue),
            All-append IsDelivery added (job ∷ []) a (h, tt),
          ),
        )

    still :
        {A : Type 0} {Q : Result A → Db → Type 0} (f : ℕ → Db → Db × A)
        → ((now : ℕ) (db : Db) → Same db → Q (ok (f now db).1) (f now db).0)
        → ((db : Db) → Same db → Q (err unavailable) db)
        → Triple IsIdle Same (access f) Q
    still f h lost = Triple-attempt f (λ t db c p. c.keeps db ∙ p) h lost

    abbrev AllDue : Result (List StoredSubscription) → Db → Type 0
    AllDue (ok devices) db = Same db × All (λ d. IsDue d.id) devices
    AllDue (err e) db = Same db

    abbrev OneDue : Result StoredSubscription → Db → Type 0
    OneDue (ok device) db = Same db × IsDue device.id
    OneDue (err e) db = Same db

    unwrap-Due : (row : Device) → IsDue row.id → Triple IsIdle Same (unwrap mongo crypto row) OneDue
    unfolding unwrap stored_or_throw stored
    unwrap-Due row h = from (parse mongo crypto (decrypt crypto row.encrypted_subscription))
      where
        from :
            (o : Option WebPushSubscription)
            → Triple IsIdle Same (stored_or_throw mongo crypto row o) OneDue
        from none = Triple-throw _ (λ db p. p)
        from (some subscription) = Triple-pure _ (λ db p. (p, h))

    unwrap_each-Due :
        (rows : List Device)
        → All (λ row. IsDue row.id) rows
        → Triple IsIdle Same (unwrap_each mongo crypto rows) AllDue
    unfolding unwrap_each
    unwrap_each-Due [] h = Triple-pure [] (λ db p. (p, tt))
    unwrap_each-Due (row ∷ rows) (h, hs) =
        Triple-bind {R = OneDue} (unwrap-Due row h)
          (λ s.
            Triple-use (λ db p. p.0) (λ db p. p.1)
              (λ d.
                Triple-bind {R = AllDue} (unwrap_each-Due rows hs)
                  (λ ss. Triple-pure _ (λ db p. (p.0, (d, p.1)))) (λ e db p. p)))
          (λ e db p. p)

    All-IsDelivery :
        (devices : List StoredSubscription)
        → All (λ d. IsDue d.id) devices
        → All IsDelivery
            (map (λ d. deliver d.id (payload_of mongo crypto bull_mq answers true message)) devices)
    unfolding payload_of
    All-IsDelivery [] h = tt
    All-IsDelivery (d ∷ ds) (h, hs) = ((h, refl), All-IsDelivery ds hs)

    add_jobs-Extended :
        (jobs : List Job)
        → All IsDelivery jobs
        → Triple IsIdle Same (add_jobs mongo crypto bull_mq answers true jobs) (λ r db. Extended db)
    unfolding add_jobs
    add_jobs-Extended jobs h =
        still _
          (λ now db e.
            let (added, (q, a)) = add_bulk-Extended jobs db.queue h in
            record { added = added; queue_is = q ∙ ap (λ (d : Db). added ++ d.queue) e; due = a })
          begin-Extended

    add_deliveries-Extended :
        (devices : List StoredSubscription)
        → All (λ d. IsDue d.id) devices
        → Triple IsIdle Same
            (add_deliveries mongo crypto bull_mq answers true message devices)
            (λ r db. Extended db)
    unfolding add_deliveries
    add_deliveries-Extended [] h = Triple-pure tt begin-Extended
    add_deliveries-Extended (device ∷ devices) h =
        add_jobs-Extended
          (map (λ d. deliver d.id (payload_of mongo crypto bull_mq answers true message))
            (device ∷ devices))
          (All-IsDelivery (device ∷ devices) h)

    abbrev RowsDue : Result (List Device) → Db → Type 0
    RowsDue (ok rows) db = Same db × All (λ row. IsDue row.id) rows
    RowsDue (err e) db = Same db

    module _ (c : Conversation)
        (stored_thread : mongo.find_one Conversation
            (λ k. k.id == message.conversation_id)
            before.conversations
          ≡ some c) where
      All-IsDue :
          (id : ℕ) (rows : List Device)
          → recipient_of mongo crypto bull_mq answers true message c ≡ some id
          → any
              (is_looking mongo crypto bull_mq answers true message.conversation_id id)
              before.sockets
            ≡ false
          → All (λ row. any (λ d. is_of id d && d.id == row.id) before.devices ≡ true) rows
          → All (λ row. IsDue row.id) rows
      All-IsDue id [] h k a = tt
      All-IsDue id (row ∷ rows) h k (a, rest) = (
        record {
          thread = c;
          recipient = id;
          stored_thread = stored_thread;
          other_side = (recipient_of-other_side mongo crypto bull_mq answers message c id h).0;
          not_sender = (recipient_of-other_side mongo crypto bull_mq answers message c id h).1;
          not_looking =
              not_viewing mongo crypto bull_mq answers message.conversation_id id before.sockets k;
          is_own = a;
        },
        All-IsDue id rows h k rest,
      )

      notify_devices-Extended :
          (id : ℕ)
          → recipient_of mongo crypto bull_mq answers true message c ≡ some id
          → any
              (is_looking mongo crypto bull_mq answers true message.conversation_id id)
              before.sockets
            ≡ false
          → Triple IsIdle Same
              (notify_devices mongo crypto bull_mq answers true message id)
              (λ r db. Extended db)
      unfolding notify_devices list_for_user
      notify_devices-Extended id h k =
          Triple-bind {R = AllDue}
            (Triple-bind {R = RowsDue} (still _ (λ now db e. (e, rows_due db e)) (λ db e. e))
              (λ rows. Triple-use (λ db p. p.0) (λ db p. p.1) (unwrap_each-Due rows)) (λ e db p. p))
            (λ devices. Triple-use (λ db p. p.0) (λ db p. p.1) (add_deliveries-Extended devices))
            (λ e db p. begin-Extended db p)
        where
          rows_due :
              (db : Db)
              → Same db
              → All (λ row. IsDue row.id) (mongo.find Device (is_of id) db.devices)
          rows_due db e = rw e (
              All-IsDue id (mongo.find Device (is_of id) before.devices) h k (
                All-stored (is_of id) (mongo.find Device (is_of id) before.devices) before.devices
                  (λ q. omega (arith, manual.count-find Device (is_of id) q before.devices))))

      abbrev IsWatched : ℕ → Result Bool → Db → Type 0
      IsWatched id (ok b) db =
          Same db
          × (any (is_looking mongo crypto bull_mq answers true message.conversation_id id)
                before.sockets
              ≡ b)
      IsWatched id (err e) db = Same db

      notify_recipient-Extended :
          (recipient : Option ℕ)
          → recipient_of mongo crypto bull_mq answers true message c ≡ recipient
          → Triple IsIdle Same
              (notify_recipient mongo crypto bull_mq answers true message recipient)
              (λ r db. Extended db)
      unfolding notify_recipient is_viewing
      notify_recipient-Extended none h = Triple-pure tt begin-Extended
      notify_recipient-Extended (some id) h =
          Triple-bind {R = IsWatched id}
            (still _
              (λ now db e. (
                e,
                ap
                    (λ (d : Db).
                      any (is_looking mongo crypto bull_mq answers true message.conversation_id id)
                        d.sockets)
                    (sym e),
              ))
              (λ db e. e))
            (λ b. Triple-use (λ db p. p.0) (λ db p. p.1) (after b)) (λ e db p. begin-Extended db p)
        where
          after :
              (b : Bool)
              → any
                  (is_looking mongo crypto bull_mq answers true message.conversation_id id)
                  before.sockets
                ≡ b
              → Triple IsIdle Same
                  (if b
                    then pure tt
                    else notify_devices mongo crypto bull_mq answers true message id)
                  (λ r db. Extended db)
          after true k = Triple-pure tt begin-Extended
          after false k = notify_devices-Extended id h k

    abbrev IsThread : Result (Option Conversation) → Db → Type 0
    IsThread (ok o) db =
        Same db
        × (mongo.find_one Conversation (λ k. k.id == message.conversation_id) before.conversations
            ≡ o)
    IsThread (err e) db = Same db

    -- A message job adds only jobs that deliver this message, with its sender's name and its text, to devices of
    -- its recipient: for a customer's message the agent of the thread, else its customer, and never the
    -- sender. It adds none where a socket of the recipient, on any server, is in the thread's room. The others change nothing meanwhile; any access may fail.
    pub fan_out-Extended :
        Triple IsIdle
          (λ db. db ≡ before)
          (fan_out mongo crypto bull_mq answers true message)
          (λ r db. Extended db)
    unfolding fan_out fan_out_in Conversations.find_by_id
    fan_out-Extended =
        Triple-bind {R = IsThread}
          (still _
            (λ now db e. (
              e,
              ap
                  (λ (d : Db).
                    mongo.find_one Conversation (λ k. k.id == message.conversation_id)
                      d.conversations)
                  (sym e),
            ))
            (λ db e. e))
          (λ o. Triple-use (λ db p. p.0) (λ db p. p.1) (after o)) (λ e db p. begin-Extended db p)
      where
        after :
            (o : Option Conversation)
            → mongo.find_one Conversation
                (λ k. k.id == message.conversation_id)
                before.conversations
              ≡ o
            → Triple IsIdle Same
                (fan_out_in mongo crypto bull_mq answers true message o)
                (λ r db. Extended db)
        after none e = Triple-pure tt begin-Extended
        after (some c) e =
            notify_recipient-Extended c e (recipient_of mongo crypto bull_mq answers true message c)
              refl
