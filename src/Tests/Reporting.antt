-- ===== src/Tests/Reporting.antt =====
-- Reports on a few messages.
use Prim.Native.Nat.{◌/◌}
use chat_app_backend.Prelude.{
  ℕ, ◌+◌, ◌≡◌, refl, arith, none, List, [], ◌∷◌, count, total, leb, if◌then◌else◌,
}
use chat_app_backend.Documents.{Message, sent}
use chat_app_backend.Errors.{ok}
use chat_app_backend.Mongo.Memory.{memory, memory-IsDocumented}
use chat_app_backend.Server.{Db, quiet}
use chat_app_backend.Metrics.Figures.{Analytics, AnalyticsQuery}
use chat_app_backend.Metrics.Analytics.{day_ms, get_count, per_slot, per_day, report, compute}
use chat_app_backend.Metrics.Analytics.Slots.{get_count-per_slot}
use chat_app_backend.Metrics.Analytics.Sums.{Offset, east, west, fixed_zone}
use chat_app_backend.Metrics.Windows.{in_last}
use chat_app_backend.Metrics.Analytics.Reading.{compute-Sums}
use chat_app_backend.Redis.{local, local-IsRedis}
use chat_app_backend.Server.{pure}
use chat_app_backend.Metrics.Figures.{SeriesPoint}
use chat_app_backend.Metrics.Windows.{in_last}
use chat_app_backend.Metrics.Counters.{minute_key, redis_counters}
use chat_app_backend.Metrics.Counters.Stores.{stores-IsCounterStore}
use chat_app_backend.Metrics.Counters.Recordings.{Recording, message_at, push_at}
use chat_app_backend.Metrics.Figures.{CounterKey, messages_in_minute, pushes_on_day, sent, failed}
use chat_app_backend.Metrics.Service.{messages_per_minute}
use chat_app_backend.Metrics.Service.Series.{record_each, messages_per_minute-total}
use chat_app_backend.Tests.Samples.{office}

abbrev written : ℕ → Message
written at = record {
  id = at;
  conversation_id = 1;
  sender_id = 20;
  client_message_id = at;
  text = [];
  status = sent;
  delivered_at = none;
  read_at = none;
  created_at = at;
}

abbrev busy_day : Db
busy_day = record office {
  messages = written 100000000 ∷ written 190000000 ∷ written 199000000 ∷ [];
}

abbrev one_day : AnalyticsQuery
one_day = record { days = 1; tz = 0 }

-- Nepal's offset, 5:45.
abbrev nepal : Offset
nepal = east 20700000

compute-Sums_example :
    (a : Analytics) × (((compute memory none
          (λ tz. fixed_zone nepal)
          (λ c. 0)
          one_day
          (quiet busy_day 200000000))
        ≡ (ok a, quiet busy_day 200000000))
      × ((a.total
            ≡ count
                (λ (m : Message).
                  in_last 1 (fixed_zone nepal 200000000) (fixed_zone nepal m.created_at))
                busy_day.messages)
          × (total (λ n. n) a.by_weekday
              ≡ count
                  (λ (m : Message).
                    in_last 1 (fixed_zone nepal 200000000) (fixed_zone nepal m.created_at))
                  busy_day.messages)))
compute-Sums_example =
    compute-Sums memory memory-IsDocumented none (λ c. 0) nepal 200000000 one_day busy_day
      (record { quarters = refl; within_day = omega arith }) (omega arith)

get_count-per_slot_example :
    get_count 2
      (per_day (λ time. time / 86400000) (per_slot (100000000 ∷ 190000000 ∷ 199000000 ∷ []) []) [])
    ≡ 2
get_count-per_slot_example =
    get_count-per_slot (λ time. time / 86400000) 2 (100000000 ∷ 190000000 ∷ 199000000 ∷ [])
      (λ time. omega arith)

-- New York in winter, 5 hours west: the message of the evening before is not of the day.
western_run :
    (report one_day
      (fixed_zone (west 18000000))
      200000000
      (per_day (fixed_zone (west 18000000)) (per_slot (100000000 ∷ 199000000 ∷ []) []) [])
      0
      0).total
    ≡ 1
unfolding report per_day per_slot
western_run = refl

-- A zone whose clocks go back an hour on day 10, which so has 25 hours.
abbrev autumn : ℕ → ℕ
autumn time = if leb 867600000 time then time / day_ms else (time + 3600000) / day_ms

-- Half an hour before midnight of that day it is listed twice, and its only message counted twice.
counted_twice :
    (report
      (record { days = 2; tz = 0 })
      autumn
      948600000
      (per_day autumn (per_slot (900000000 ∷ []) []) [])
      0
      0).total
    ≡ 2
unfolding report per_day per_slot
counted_twice = refl

-- A message, two pushes that were sent on two days and one that failed.
abbrev recordings : List Recording
recordings =
    message_at 60000 ∷ push_at sent 70000 ∷ push_at sent 90000000 ∷ push_at failed 80000 ∷ []

abbrev asked : List CounterKey
asked = pushes_on_day sent 0 ∷ messages_in_minute 1 ∷ pushes_on_day failed 0 ∷ []

-- One message was two minutes ago, two are of this minute, one is older.
abbrev recorded : Db
recorded = record_each (redis_counters local) (100000 ∷ 3510000 ∷ 3600000 ∷ 3610000 ∷ []) office

messages_per_minute-total_example :
    (series : List SeriesPoint) × ((messages_per_minute memory
          (redis_counters local)
          (pure 0)
          0
          10
          (quiet recorded 3620000)
        ≡ (ok series, quiet recorded 3620000))
      × (total (λ (p : SeriesPoint). p.messages) series
          ≡ count
              (λ time. in_last 10 (minute_key 3620000) (minute_key time))
              (100000 ∷ 3510000 ∷ 3600000 ∷ 3610000 ∷ [])))
messages_per_minute-total_example =
    messages_per_minute-total memory (redis_counters local)
      (stores-IsCounterStore local local-IsRedis).0 (pure 0) 0 10 3620000
      (100000 ∷ 3510000 ∷ 3600000 ∷ 3610000 ∷ []) office (omega arith) (λ m. refl)
