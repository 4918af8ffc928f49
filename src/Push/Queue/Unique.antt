-- ===== src/Push/Queue/Unique.antt =====
-- No job is twice in the queue.
use chat_app_backend.Prelude.{
  ℕ, ◌≤◌, ◌≡◌, refl, Bool, true, false, List, [], ◌∷◌, any, map, take, count, All, if◌then◌else◌,
  Bool-cases, inl, inr, arith, ◌==◌, ==_refl, or_true,
}
use chat_app_backend.Mongo.{Mongo}
use chat_app_backend.Server.{Db, pure}
use chat_app_backend.Errors.{Result, ok}
use chat_app_backend.Server.Triples.{Triple, Triple-pure, Stays, Triple-attempt}
use chat_app_backend.Push.Crypto.{Crypto, WebPushSubscription}
use chat_app_backend.Push.Jobs.{MessageJob, PushPayload, Job, notify, deliver}
use chat_app_backend.Push.Sender.{Answer}
use chat_app_backend.Push.Subscriptions.{StoredSubscription}
use chat_app_backend.Push.Queue.Tidy.{IsTidy, run_job-Tidy}
use chat_app_backend.Push.Queue.Keys.{
  IsUnique, is_notice, is_delivery, add_bulk-IsUnique, add_bulk-notice, add_bulk-delivery,
}
use chat_app_backend.Push.Queue.{
  BullMq, IsBullMq, add_jobs, enqueue_for_message, add_deliveries, run_job, payload_of,
  preview_length, customer_message_delay_ms,
}

module _ (mongo : Mongo) (crypto : Crypto) (bull_mq : BullMq)
    (answers : WebPushSubscription → PushPayload → ℕ → Answer) (started : Bool)
    (manual : IsBullMq bull_mq) where
  -- With the queue started, a call that returns has put in the notice of the message, once.
  abbrev pub Noticed : Bool → MessageJob → Result (Unit {0}) → Db → Type 0
  Noticed true message (ok _) db =
      IsUnique db.queue × (count (is_notice message.message_id) db.queue ≡ 1)
  Noticed _ message r db = IsUnique db.queue

  -- So too the delivery of the message to each of the devices.
  abbrev pub Delivered : Bool → ℕ → List StoredSubscription → Result (Unit {0}) → Db → Type 0
  Delivered true m devices (ok _) db =
      IsUnique db.queue × All (λ d. count (is_delivery d.id m) db.queue ≡ 1) devices
  Delivered _ m devices r db = IsUnique db.queue

  exactly : (n : ℕ) → n ≤ 1 → 1 ≤ n → n ≡ 1
  exactly n h k = omega (arith, h, k)

  enqueue-Noticed :
      (message : MessageJob)
      → Triple IsTidy
          (λ db. IsUnique db.queue)
          (enqueue_for_message mongo crypto bull_mq answers started message)
          (Noticed started message)
  unfolding enqueue_for_message add_jobs
  enqueue-Noticed message = of started
    where
      job : Job
      job =
          notify (record message { text = take preview_length message.text })
            (if message.sender_is_customer then customer_message_delay_ms else 0)

      of :
          (b : Bool)
          → Triple IsTidy
              (λ db. IsUnique db.queue)
              (if b then add_jobs mongo crypto bull_mq answers started (job ∷ []) else pure tt)
              (Noticed b message)
      of true =
          Triple-attempt _ (λ t db c. c.keeps db)
            (λ now db h.
              let u = add_bulk-IsUnique bull_mq manual (job ∷ []) db.queue h in
              (
                u,
                exactly _ (u.notices message.message_id) (
                    add_bulk-notice bull_mq manual (job ∷ []) db.queue message.message_id
                      (rw (==_refl message.message_id) refl)),
              ))
            (λ db h. h)
      of false = Triple-pure tt (λ db h. h)

  pub any-delivery :
      (message : MessageJob) (d : ℕ) (devices : List StoredSubscription)
      → any (λ (s : StoredSubscription). s.id == d) devices ≡ true
      → any (is_delivery d message.message_id) (
          map (λ s. deliver s.id (payload_of mongo crypto bull_mq answers started message)) devices)
        ≡ true
  unfolding payload_of
  any-delivery message d [] h = cc
  any-delivery message d (s ∷ devices) h = elim (Bool-cases (s.id == d)) [
    | inl e ↦ rw (e, ==_refl message.message_id) refl
    | inr e ↦ rw e (any-delivery message d devices (rw e at h))
  ]

  -- Every device of a list is one of the list.
  All-listed :
      (P : StoredSubscription → Type 0) (devices : List StoredSubscription)
      → ((s : StoredSubscription)
          → any (λ (x : StoredSubscription). x.id == s.id) devices ≡ true
          → P s)
      → All P devices
  All-listed P [] f = tt
  All-listed P (s ∷ devices) f = (
    f s (rw (==_refl s.id) refl),
    All-listed P devices (λ x h. f x (rw h (or_true (s.id == x.id)))),
  )

  add_deliveries-Delivered :
      (message : MessageJob) (devices : List StoredSubscription)
      → Triple IsTidy
          (λ db. IsUnique db.queue)
          (add_deliveries mongo crypto bull_mq answers started message devices)
          (Delivered started message.message_id devices)
  unfolding add_deliveries add_jobs
  add_deliveries-Delivered message [] = none_left started
    where
      none_left :
          (b : Bool)
          → Triple IsTidy (λ db. IsUnique db.queue) (pure tt) (Delivered b message.message_id [])
      none_left true = Triple-pure tt (λ db h. (h, tt))
      none_left false = Triple-pure tt (λ db h. h)
  add_deliveries-Delivered message (device ∷ devices) = of started
    where
      jobs : List Job
      jobs =
          map (λ d. deliver d.id (payload_of mongo crypto bull_mq answers started message))
            (device ∷ devices)

      of :
          (b : Bool)
          → Triple IsTidy
              (λ db. IsUnique db.queue)
              (if b then add_jobs mongo crypto bull_mq answers started jobs else pure tt)
              (Delivered b message.message_id (device ∷ devices))
      of true =
          Triple-attempt _ (λ t db c. c.keeps db)
            (λ now db h.
              let u = add_bulk-IsUnique bull_mq manual jobs db.queue h in
              (
                u,
                All-listed _ (device ∷ devices) (λ s e.
                    exactly _ (u.deliveries s.id message.message_id) (
                      add_bulk-delivery bull_mq manual jobs db.queue s.id message.message_id
                        (any-delivery message s.id (device ∷ devices) e))),
              ))
            (λ db h. h)
      of false = Triple-pure tt (λ db h. h)

  -- Take a queue with at most one notice for each message and one delivery for each message and device. Queuing
  -- a message, adding its deliveries to any devices and running any job, as often as BullMQ repeats it and
  -- with any accesses failing, leave it so. With the queue started, queuing that returns leaves exactly one
  -- notice of the message, and adding deliveries that returns exactly one delivery of the message to each
  -- of the devices. Other requests and BullMQ itself must keep the queue so too.
  pub queue-IsUnique :
      (message : MessageJob) (devices : List StoredSubscription) (job : Job)
      → Triple IsTidy
          (λ db. IsUnique db.queue)
          (enqueue_for_message mongo crypto bull_mq answers started message)
          (Noticed started message)
        × (Triple IsTidy
              (λ db. IsUnique db.queue)
              (add_deliveries mongo crypto bull_mq answers started message devices)
              (Delivered started message.message_id devices)
            × Stays IsTidy
                (λ db. IsUnique db.queue)
                (run_job mongo crypto bull_mq answers started job))
  queue-IsUnique message devices job = (
    enqueue-Noticed message,
    (
      add_deliveries-Delivered message devices,
      run_job-Tidy mongo crypto bull_mq answers started manual job,
    ),
  )
