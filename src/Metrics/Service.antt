-- ===== src/Metrics/Service.antt =====
-- src/modules/metrics/metrics.service.ts: the figures of a dashboard and their broadcast, and
-- metrics.gateway.ts. The count of online users is the presence store's, the number of connections
-- Socket.IO's.
pub mod Series
use chat_app_backend.Prelude.{
  ℕ, zero, suc, ◌+◌, ◌-◌, ◌*◌, Bool, true, false, Option, none, some, List, [], ◌∷◌, map, count,
  total, if◌then◌else◌,
}
use chat_app_backend.Access.{has_permission, metrics_view}
use chat_app_backend.Documents.{AgentAvailability, online, busy, offline}
use chat_app_backend.Errors.{Failure, http, forbidden}
use chat_app_backend.Mongo.{Mongo}
use chat_app_backend.Server.{M, pure, throw, ◌>>=◌, ◌>>◌, access, emit, try_catch, current_time}
use chat_app_backend.Realtime.Rooms
use chat_app_backend.Realtime.Sockets.{SocketUser, SocketState}
use chat_app_backend.Realtime.Events.{metrics_update}
use chat_app_backend.Agents.Service.{AgentStatusResponse, list_statuses}
use chat_app_backend.Chat.Assigning.{count_open, count_queue}
use chat_app_backend.Chat.Rooms.{change_socket}
use chat_app_backend.Metrics.Figures.{
  PushOutcome, CounterKey, messages_in_minute, messages_on_day, pushes_on_day, SeriesPoint,
  AgentCounts, ConversationCounts, MessageCounts, PushCounts, MetricsSnapshot, MetricsUpdate,
}
use chat_app_backend.Metrics.Counters.{minute_key, day_key, CounterStore}

abbrev pub broadcast_every_ms : ℕ
broadcast_every_ms = 5000

-- The minutes of the times `now - (n - 1) * 60_000`, …, `now`.
unfoldable pub minutes_back : ℕ → ℕ → List ℕ
minutes_back now zero = []
minutes_back now (suc n) = minute_key (now - n * 60000) ∷ minutes_back now n

-- `values[i] ?? 0`
unfoldable pub series_of : List ℕ → List ℕ → List SeriesPoint
series_of [] values = []
series_of (minute ∷ minutes) [] = record { minute = minute; messages = 0 } ∷ series_of minutes []
series_of (minute ∷ minutes) (n ∷ values) =
    record { minute = minute; messages = n } ∷ series_of minutes values

abbrev pub last_messages : List SeriesPoint → ℕ
last_messages [] = 0
last_messages (p ∷ []) = p.messages
last_messages (p ∷ q ∷ points) = last_messages (q ∷ points)

abbrev pub nth_or_zero : ℕ → List ℕ → ℕ
nth_or_zero n [] = 0
nth_or_zero zero (v ∷ values) = v
nth_or_zero (suc n) (v ∷ values) = nth_or_zero n values

abbrev pub same_availability : AgentAvailability → AgentAvailability → Bool
same_availability online online = true
same_availability busy busy = true
same_availability offline offline = true
same_availability _ _ = false

abbrev pub having : AgentAvailability → List AgentStatusResponse → ℕ
having status statuses =
    count (λ (a : AgentStatusResponse). same_availability a.status status) statuses

abbrev pub metrics_forbidden : Failure
metrics_forbidden = http (forbidden "Metrics are for admins")

module _ (mongo : Mongo) (counters : CounterStore) (count_online : M ℕ) (clients_count : ℕ) where
  unfoldable pub messages_per_minute : ℕ → M (List SeriesPoint)
  messages_per_minute minutes = do
    now ← current_time
    let labels = minutes_back now minutes
    values ← counters.get_many (map messages_in_minute labels)
    pure (series_of labels values)

  -- The six reads, which run at the same time, stand one after another.
  unfoldable pub snapshot : M MetricsSnapshot
  snapshot = do
    started_at ← current_time
    let today = day_key started_at
    active_users ← count_online
    statuses ← list_statuses mongo
    opened ← count_open mongo
    waiting ← count_queue mongo
    series ← messages_per_minute 60
    day_counts ← counters.get_many (
        messages_on_day today
        ∷ pushes_on_day PushOutcome.sent today
        ∷ pushes_on_day PushOutcome.failed today
        ∷ pushes_on_day PushOutcome.expired today
        ∷ [])
    now ← current_time
    pure (record {
      timestamp = now;
      active_users = active_users;
      agents = record {
        online = having online statuses;
        busy = having busy statuses;
        offline = having offline statuses;
      };
      conversations = record { opened = opened; waiting_in_queue = waiting };
      messages = record {
        last_minute = last_messages series;
        last_hour = total (λ (p : SeriesPoint). p.messages) series;
        today = nth_or_zero 0 day_counts;
      };
      push = record {
        sent = nth_or_zero 1 day_counts;
        failed = nth_or_zero 2 day_counts;
        expired = nth_or_zero 3 day_counts;
      };
      connections_on_this_server = clients_count;
    })

  unfoldable pub update : M MetricsUpdate
  update = do
    figures ← snapshot
    series ← messages_per_minute 60
    pure (record { snapshot = figures; messages_per_minute = series })

  unfoldable pub send_update : Bool → M (Unit {0})
  send_update false = pure tt
  send_update true = do figures ← update; emit (Rooms.metrics ∷ []) (metrics_update figures)

  -- What the timer runs every five seconds once the service is started.
  unfoldable pub broadcast : M (Unit {0})
  broadcast =
      try_catch (counters.try_lock (broadcast_every_ms - 500) >>= send_update) (λ error. pure tt)

  unfoldable pub set_watching_metrics : ℕ → Bool → M (Unit {0})
  set_watching_metrics socket_id inside =
      access λ now db. (change_socket socket_id (λ s. record s { in_metrics = inside }) db, tt)

  -- The handlers of 'metrics:subscribe' and 'metrics:unsubscribe'.
  unfoldable pub subscribe : ℕ → SocketUser → M MetricsUpdate
  subscribe socket_id user =
      if has_permission user.role metrics_view
      then (set_watching_metrics socket_id true >> update)
      else throw metrics_forbidden

  unfoldable pub unsubscribe : ℕ → M (Unit {0})
  unsubscribe socket_id = set_watching_metrics socket_id false
