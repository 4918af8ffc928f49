-- ===== src/Metrics/Counters/Recordings.antt =====
-- What a counter tells after messages and pushes have been recorded.
use Prim.Native.Nat.{◌/◌}
use chat_app_backend.Prelude.{ℕ, Bool, false, List, [], ◌∷◌, ◌==◌}
use chat_app_backend.Redis.{Redis}
use chat_app_backend.Server.{Db, quiet}
use chat_app_backend.Metrics.Figures.{
  PushOutcome, sent, failed, expired, CounterKey, messages_in_minute, messages_on_day,
  pushes_on_day,
}
use chat_app_backend.Metrics.Counters.{CounterStore, bumped, day_key, record_push}
use chat_app_backend.Metrics.Counters.Stores.{IsCounterStore}
use chat_app_backend.Metrics.Service.Series.{run_tasks, record_at}

-- A message that is sent, or a push that ends, at a time.
pub data Recording : Type 0 where
  message_at : ℕ → Recording
  push_at : PushOutcome → ℕ → Recording

-- Whether a counter is about it: a message counts to its minute of 60 s and its day of 86400 s, a push to
-- its day and its outcome alone.
abbrev pub is_about : CounterKey → Recording → Bool
is_about (messages_in_minute m) (message_at t) = t / 60000 == m
is_about (messages_on_day d) (message_at t) = t / 86400000 == d
is_about (pushes_on_day sent d) (push_at sent t) = t / 86400000 == d
is_about (pushes_on_day failed d) (push_at failed t) = t / 86400000 == d
is_about (pushes_on_day expired d) (push_at expired t) = t / 86400000 == d
is_about _ _ = false

-- The service records it, and the increments that this starts run.
abbrev pub record_one : CounterStore → Recording → Db → Db
record_one store (message_at t) db = record_at store t db
record_one store (push_at outcome t) db =
    (run_tasks store (record_push outcome (quiet db t)).1.started (quiet db t)).1.db

abbrev pub record_all : CounterStore → List Recording → Db → Db
record_all store [] db = db
record_all store (r ∷ rs) db = record_all store rs (record_one store r db)

module _ (store : CounterStore) (lawful : IsCounterStore store) where
  abbrev pushed : PushOutcome → ℕ → Db → Db
  pushed outcome t db = record db {
    counters = bumped (pushes_on_day outcome (day_key t)) db.counters;
  }
