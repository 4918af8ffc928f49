-- ===== src/Push/Queue.antt =====
-- src/modules/push/services/push-queue.service.ts: who is notified of a message, and one attempt at one
-- device. BullMQ is not part of the repository: what it does with a job that is added is a parameter,
-- and when it runs and repeats one is not modelled.
pub mod Unique
pub mod Due
pub mod Recipient
pub mod Keys
pub mod Tidy
pub mod Told
use chat_app_backend.Prelude.{
  ℕ, ◌≡◌, Bool, true, false, ◌&&◌, ◌||◌, Option, none, some, List, [], ◌∷◌, map, any, take, leb,
  ◌==◌, if◌then◌else◌,
}
use chat_app_backend.Documents.{Conversation}
use chat_app_backend.Errors.{Failure, unrecoverable, thrown}
use chat_app_backend.Mongo.{Mongo}
use chat_app_backend.Server.{M, pure, throw, ◌>>=◌, ◌>>◌, access, start, current_time}
use chat_app_backend.Realtime.Events.{device_failed}
use chat_app_backend.Realtime.Sockets.{SocketState}
use chat_app_backend.Chat.Conversations
use chat_app_backend.Chat.Rooms.{has}
use chat_app_backend.Metrics.Figures.{PushOutcome, failed, expired}
use chat_app_backend.Metrics.Counters.{record_push}
use chat_app_backend.Push.Crypto.{Crypto, WebPushSubscription}
use chat_app_backend.Push.Jobs.{Device, MessageJob, PushPayload, Job, notify, deliver}
use chat_app_backend.Push.Sender.{Answer, SendResult, gone, rejected, retry, send_web_push}
use chat_app_backend.Push.Subscriptions.{
  StoredSubscription, list_for_user, find_by_id, delete_by_id, mark_success,
}

-- The same `jobId`.
abbrev pub same_job : Job → Job → Bool
same_job (notify d _) (notify e _) = d.message_id == e.message_id
same_job (deliver id p) (deliver other q) = p.message_id == q.message_id && id == other
same_job _ _ = false

-- `queue.add`
pub record BullMq : Type 0 where
  pub add : Job → List Job → List Job

-- A job whose id the queue has already is ignored.
pub record IsBullMq (bull_mq : BullMq) : Type 0 where
  pub add_lem :
      (job : Job) (queue : List Job)
      → bull_mq.add job queue ≡ (if any (same_job job) queue then queue else job ∷ queue)

-- `queue.addBulk`
abbrev pub add_bulk : BullMq → List Job → List Job → List Job
add_bulk bull_mq [] queue = queue
add_bulk bull_mq (job ∷ jobs) queue = add_bulk bull_mq jobs (bull_mq.add job queue)

abbrev pub preview_length : ℕ
preview_length = 120

abbrev pub customer_message_delay_ms : ℕ
customer_message_delay_ms = 1500

abbrev pub is_past : Option ℕ → ℕ → Bool
is_past none now = false
is_past (some at) now = leb at now

module _ (mongo : Mongo) (crypto : Crypto) (bull_mq : BullMq)
    (answers : WebPushSubscription → PushPayload → ℕ → Answer)
    -- Whether the queue has been started.
    (started : Bool) where
  unfoldable pub add_jobs : List Job → M (Unit {0})
  add_jobs jobs = access λ now db. (record db { queue = add_bulk bull_mq jobs db.queue }, tt)

  unfoldable pub enqueue_for_message : MessageJob → M (Unit {0})
  unfolding add_jobs
  enqueue_for_message message =
      if started
      then add_jobs (
          notify (record message { text = take preview_length message.text })
            (if message.sender_is_customer then customer_message_delay_ms else 0)
          ∷ [])
      else pure tt

  -- Nobody is notified of his own message.
  unfoldable pub unless_sender : MessageJob → Option ℕ → Option ℕ
  unless_sender message none = none
  unless_sender message (some id) = if id == message.sender_id then none else some id

  -- No agent is notified of a message in a thread that nobody has.
  unfoldable pub recipient_of : MessageJob → Conversation → Option ℕ
  unfolding unless_sender
  recipient_of message c =
      unless_sender message
        (if message.sender_is_customer then c.assigned_agent_id else some c.customer_id)

  unfoldable pub is_looking : ℕ → ℕ → SocketState → Bool
  is_looking conversation_id user_id s = has conversation_id s.conversations && s.user.id == user_id

  unfoldable pub payload_of : MessageJob → PushPayload
  payload_of message = record {
    title = message.sender_name;
    body = message.text;
    conversation_id = message.conversation_id;
    message_id = message.message_id;
  }

  unfoldable pub add_deliveries : MessageJob → List StoredSubscription → M (Unit {0})
  unfolding add_jobs payload_of
  add_deliveries message [] = pure tt
  add_deliveries message (device ∷ devices) =
      if started
      then add_jobs (map (λ d. deliver d.id (payload_of message)) (device ∷ devices))
      else pure tt

  unfoldable pub notify_devices : MessageJob → ℕ → M (Unit {0})
  unfolding add_deliveries
  notify_devices message recipient_id = do
    devices ← list_for_user mongo crypto recipient_id
    add_deliveries message devices

  -- `if (this.io)`: it is set when the queue is.
  unfoldable pub is_viewing : MessageJob → ℕ → M Bool
  unfolding is_looking
  is_viewing message recipient_id =
      if started
      then access (λ now db. (db, any (is_looking message.conversation_id recipient_id) db.sockets))
      else pure false

  unfoldable pub notify_recipient : MessageJob → Option ℕ → M (Unit {0})
  unfolding notify_devices is_viewing
  notify_recipient message none = pure tt
  notify_recipient message (some recipient_id) = do
    viewing ← is_viewing message recipient_id
    if viewing then pure tt else notify_devices message recipient_id

  unfoldable pub fan_out_in : MessageJob → Option Conversation → M (Unit {0})
  unfolding notify_recipient
  fan_out_in message none = pure tt
  fan_out_in message (some c) = notify_recipient message (recipient_of message c)

  unfoldable pub fan_out : MessageJob → M (Unit {0})
  unfolding fan_out_in
  fan_out message = do
    c ← Conversations.find_by_id mongo message.conversation_id
    fan_out_in message c

  unfoldable pub settle_delivery : ℕ → SendResult → M (Unit {0})
  settle_delivery id SendResult.sent = record_push PushOutcome.sent >> mark_success mongo crypto id
  settle_delivery id (gone _) = delete_by_id mongo crypto id >> record_push expired
  settle_delivery id (rejected _) = throw unrecoverable
  settle_delivery id (retry _) = throw thrown

  unfoldable pub deliver_to : ℕ → PushPayload → Option StoredSubscription → M (Unit {0})
  unfolding settle_delivery
  deliver_to id payload none = pure tt
  deliver_to id payload (some device) = do
    now ← current_time
    if is_past device.expires_at now
        then delete_by_id mongo crypto id >> record_push expired
        else (send_web_push answers device.subscription payload >>= settle_delivery id)

  unfoldable pub attempt_delivery : ℕ → PushPayload → M (Unit {0})
  unfolding deliver_to
  attempt_delivery id payload = find_by_id mongo crypto id >>= deliver_to id payload

  -- `process`; a job of another name cannot be made.
  unfoldable pub run_job : Job → M (Unit {0})
  unfolding fan_out attempt_delivery
  run_job (notify message delay) = fan_out message
  run_job (deliver id payload) = attempt_delivery id payload

  abbrev pub is_unrecoverable : Failure → Bool
  is_unrecoverable unrecoverable = true
  is_unrecoverable error = false

  -- The handler of the worker's 'failed', after `attempts_made` of `attempts`.
  unfoldable pub on_failed : Job → ℕ → ℕ → Failure → M (Unit {0})
  on_failed (notify message delay) attempts_made attempts error = pure tt
  on_failed (deliver id payload) attempts_made attempts error =
      if leb attempts attempts_made || is_unrecoverable error
      then record_push failed >> start (device_failed id)
      else pure tt
