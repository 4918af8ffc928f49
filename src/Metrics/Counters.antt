-- ===== src/Metrics/Counters.antt =====
-- src/modules/metrics/metrics.service.ts: what is counted, and where. The increments are started and not
-- awaited. That Redis lets old counters run out is a change by others.
pub mod Stores
pub mod Recordings
use chat_app_backend.Prelude.{
  ℕ, ◌+◌, Bool, true, false, ◌&&◌, List, [], ◌∷◌, map, ◌==◌, if◌then◌else◌,
}
use Prim.Native.Nat.{◌/◌}
use chat_app_backend.Metrics.Figures.{
  PushOutcome, sent, failed, expired, CounterKey, messages_in_minute, messages_on_day,
  pushes_on_day,
}
use chat_app_backend.Realtime.Events.{increment}
use chat_app_backend.Redis.{Redis}
use chat_app_backend.Server.{M, pure, access, sync, ◌>>=◌, ◌>>◌, start, current_time}

-- The minute and the day (of UTC) of a time in milliseconds.
abbrev pub minute_key : ℕ → ℕ
minute_key date = date / 60000

abbrev pub day_key : ℕ → ℕ
day_key date = date / 86400000

-- The interface `CounterStore`.
pub record CounterStore : Type 1 where
  pub incr : CounterKey → M (Unit {0})
  pub get_many : List CounterKey → M (List ℕ)
  -- The lock of the broadcast, for so many milliseconds.
  pub try_lock : ℕ → M Bool

abbrev pub same_outcome : PushOutcome → PushOutcome → Bool
same_outcome sent sent = true
same_outcome failed failed = true
same_outcome expired expired = true
same_outcome _ _ = false

abbrev pub same_key : CounterKey → CounterKey → Bool
same_key (messages_in_minute m) (messages_in_minute n) = m == n
same_key (messages_on_day d) (messages_on_day e) = d == e
same_key (pushes_on_day o d) (pushes_on_day p e) = same_outcome o p && d == e
same_key _ _ = false

unfoldable pub redis_counters : Redis → CounterStore
redis_counters redis = record {
  incr = λ key.
      access
        λ now db. (record db { counters = redis.incr_in CounterKey same_key key db.counters }, tt);
  get_many = λ keys. elim keys [
    | [] ↦ pure []
    | key ∷ rest ↦ access (λ now db. (db, redis.mget CounterKey (key ∷ rest) db.counters))
  ];
  try_lock = λ px. access λ now db.
      let r = redis.set_nx now px db.broadcast_lock in (record db { broadcast_lock = r.0 }, r.1);
}

-- `this.values.set(key, (this.values.get(key) ?? 0) + 1)`
abbrev pub bumped : CounterKey → (CounterKey → ℕ) → CounterKey → ℕ
bumped key counters k = if same_key k key then counters k + 1 else counters k

unfoldable pub memory_counters : CounterStore
memory_counters = record {
  incr = λ key. sync λ db. (record db { counters = bumped key db.counters }, tt);
  get_many = λ keys. sync λ db. (db, map db.counters keys);
  try_lock = λ px. pure true;
}

unfoldable pub record_message : M (Unit {0})
record_message = do
  now ← current_time
  start (increment (messages_in_minute (minute_key now)))
  start (increment (messages_on_day (day_key now)))

unfoldable pub record_push : PushOutcome → M (Unit {0})
record_push outcome = do now ← current_time; start (increment (pushes_on_day outcome (day_key now)))
