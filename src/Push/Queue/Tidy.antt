-- ===== src/Push/Queue/Tidy.antt =====
-- A job that runs puts no job twice into the queue.
use chat_app_backend.Prelude.{ℕ, Bool, false, Option, none, some, List, [], ◌∷◌, map}
use chat_app_backend.Documents.{Conversation}
use chat_app_backend.Mongo.{Mongo}
use chat_app_backend.Server.{Db, Turn, M, access}
use chat_app_backend.Server.Triples.{
  Stays, Stays-pure, Stays-throw, Stays-bind, Stays-if, Stays-try, Triple-attempt,
  Triple-current_time, Triple-start,
}
use chat_app_backend.Chat.Conversations
use chat_app_backend.Metrics.Figures.{PushOutcome}
use chat_app_backend.Metrics.Counters.{record_push}
use chat_app_backend.Push.Crypto.{Crypto, decrypt, WebPushSubscription}
use chat_app_backend.Push.Jobs.{Device, MessageJob, PushPayload, Job, notify, deliver}
use chat_app_backend.Push.Sender.{Answer, SendResult, gone, rejected, retry, send_web_push}
use chat_app_backend.Push.Subscriptions.{
  StoredSubscription, parse, stored_or_throw, unwrap, unwrap_each, unwrap_found, list_for_user,
  find_by_id, delete_by_id, change_device, mark_success,
}
use chat_app_backend.Push.Queue.Keys.{IsUnique, add_bulk-IsUnique}
use chat_app_backend.Push.Queue.{
  BullMq, IsBullMq, add_jobs, add_deliveries, notify_devices, is_viewing, notify_recipient,
  fan_out_in, fan_out, settle_delivery, deliver_to, attempt_delivery, run_job, is_past, payload_of,
}

-- Other requests and BullMQ itself put no job twice into the queue; accesses may fail.
pub record IsTidy (t : Turn) : Type 0 where
  pub keeps : (db : Db) → IsUnique db.queue → IsUnique (t.others db).queue

module _ (mongo : Mongo) (crypto : Crypto) (bull_mq : BullMq)
    (answers : WebPushSubscription → PushPayload → ℕ → Answer) (started : Bool)
    (manual : IsBullMq bull_mq) where
  abbrev pub Tidy : {A : Type 0} → M A → Type 0
  Tidy m = Stays IsTidy (λ db. IsUnique db.queue) m

  -- An access that leaves the queue alone.
  access-Tidy :
      {A : Type 0} (f : ℕ → Db → Db × A)
      → ((now : ℕ) (db : Db) → IsUnique db.queue → IsUnique (f now db).0.queue)
      → Tidy (access f)
  access-Tidy f h = Triple-attempt f (λ t db c. c.keeps db) h (λ db p. p)

  add_jobs-Tidy : (jobs : List Job) → Tidy (add_jobs mongo crypto bull_mq answers started jobs)
  unfolding add_jobs
  add_jobs-Tidy jobs = access-Tidy _ (λ now db h. add_bulk-IsUnique bull_mq manual jobs db.queue h)

  record_push-Tidy : (outcome : PushOutcome) → Tidy (record_push outcome)
  unfolding record_push
  record_push-Tidy outcome = Stays-bind Triple-current_time (λ now. Triple-start _)

  unwrap-Tidy : (row : Device) → Tidy (unwrap mongo crypto row)
  unfolding unwrap stored_or_throw
  unwrap-Tidy row = from (parse mongo crypto (decrypt crypto row.encrypted_subscription))
    where
      from : (o : Option WebPushSubscription) → Tidy (stored_or_throw mongo crypto row o)
      from none = Stays-throw _
      from (some subscription) = Stays-pure _

  unwrap_each-Tidy : (rows : List Device) → Tidy (unwrap_each mongo crypto rows)
  unfolding unwrap_each
  unwrap_each-Tidy [] = Stays-pure []
  unwrap_each-Tidy (row ∷ rows) =
      Stays-bind (unwrap-Tidy row) (λ s. Stays-bind (unwrap_each-Tidy rows) (λ ss. Stays-pure _))

  unwrap_found-Tidy : (o : Option Device) → Tidy (unwrap_found mongo crypto o)
  unfolding unwrap_found
  unwrap_found-Tidy none = Stays-pure none
  unwrap_found-Tidy (some row) = Stays-bind (unwrap-Tidy row) (λ s. Stays-pure _)

  add_deliveries-Tidy :
      (message : MessageJob) (devices : List StoredSubscription)
      → Tidy (add_deliveries mongo crypto bull_mq answers started message devices)
  unfolding add_deliveries payload_of
  add_deliveries-Tidy message [] = Stays-pure tt
  add_deliveries-Tidy message (device ∷ devices) =
      Stays-if started
        (add_jobs-Tidy (
          map (λ d. deliver d.id (payload_of mongo crypto bull_mq answers started message))
            (device ∷ devices)))
        (Stays-pure tt)

  notify_recipient-Tidy :
      (message : MessageJob) (recipient : Option ℕ)
      → Tidy (notify_recipient mongo crypto bull_mq answers started message recipient)
  unfolding notify_recipient is_viewing notify_devices list_for_user
  notify_recipient-Tidy message none = Stays-pure tt
  notify_recipient-Tidy message (some id) =
      Stays-bind (Stays-if started (access-Tidy _ (λ now db h. h)) (Stays-pure false)) (λ viewing.
        Stays-if viewing (Stays-pure tt) (
          Stays-bind (Stays-bind (access-Tidy _ (λ now db h. h)) unwrap_each-Tidy)
            (add_deliveries-Tidy message)))

  fan_out-Tidy :
      (message : MessageJob) → Tidy (fan_out mongo crypto bull_mq answers started message)
  unfolding fan_out fan_out_in Conversations.find_by_id
  fan_out-Tidy message = Stays-bind (access-Tidy _ (λ now db h. h)) found
    where
      found :
          (o : Option Conversation)
          → Tidy (fan_out_in mongo crypto bull_mq answers started message o)
      found none = Stays-pure tt
      found (some c) = notify_recipient-Tidy message _

  settle_delivery-Tidy :
      (id : ℕ) (r : SendResult) → Tidy (settle_delivery mongo crypto bull_mq answers started id r)
  unfolding settle_delivery delete_by_id mark_success change_device
  settle_delivery-Tidy id SendResult.sent =
      Stays-bind (record_push-Tidy _) (λ _. access-Tidy _ (λ now db h. h))
  settle_delivery-Tidy id (gone s) =
      Stays-bind (access-Tidy _ (λ now db h. h)) (λ _. record_push-Tidy _)
  settle_delivery-Tidy id (rejected s) = Stays-throw _
  settle_delivery-Tidy id (retry s) = Stays-throw _

  attempt_delivery-Tidy :
      (id : ℕ) (payload : PushPayload)
      → Tidy (attempt_delivery mongo crypto bull_mq answers started id payload)
  unfolding attempt_delivery deliver_to find_by_id send_web_push delete_by_id
  attempt_delivery-Tidy id payload =
      Stays-bind (Stays-bind (access-Tidy _ (λ now db h. h)) unwrap_found-Tidy) found
    where
      found :
          (o : Option StoredSubscription)
          → Tidy (deliver_to mongo crypto bull_mq answers started id payload o)
      found none = Stays-pure tt
      found (some device) = Stays-bind Triple-current_time (λ now.
          Stays-if (is_past device.expires_at now)
            (Stays-bind (access-Tidy _ (λ now db h. h)) (λ _. record_push-Tidy _))
            (Stays-bind (Stays-try (access-Tidy _ (λ now db h. h)) (λ e. Stays-pure _))
              (settle_delivery-Tidy id)))

  pub run_job-Tidy : (job : Job) → Tidy (run_job mongo crypto bull_mq answers started job)
  unfolding run_job
  run_job-Tidy (notify message delay) = fan_out-Tidy message
  run_job-Tidy (deliver id payload) = attempt_delivery-Tidy id payload
