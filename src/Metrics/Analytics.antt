-- ===== src/Metrics/Analytics.antt =====
-- src/modules/metrics/analytics.service.ts. A calendar day is its number: what Intl makes of a time in a
-- zone, and `updatedAt`, which mongoose keeps, are parameters.
pub mod Slots
pub mod Sums
pub mod Reading
use Prim.Native.Nat.{◌/◌, ◌%◌}
use chat_app_backend.Prelude.{
  ℕ, zero, suc, ◌+◌, ◌-◌, ◌*◌, Bool, true, false, ◌&&◌, Option, none, some, List, [], ◌∷◌, map,
  take, drop, length, total, leb, ltb, ◌==◌, if◌then◌else◌,
}
use chat_app_backend.Documents.{Conversation, Message, ConversationStatus, is_closed}
use chat_app_backend.Mongo.{Mongo}
use chat_app_backend.Redis.{Redis}
use chat_app_backend.Server.{Db, M, pure, ◌>>=◌, ◌>>◌, access, try_catch, current_time}
use chat_app_backend.Metrics.Figures.{DailyPoint, Analytics, AnalyticsQuery}

abbrev pub day_ms : ℕ
day_ms = 86400000

abbrev pub slot_ms : ℕ
slot_ms = 900000

-- A `Map` of numbers, its entries in the order of insertion: `map.get(key) ?? 0`, and
-- `map.set(key, (map.get(key) ?? 0) + n)`.
abbrev pub get_count : ℕ → List (ℕ × ℕ) → ℕ
get_count key [] = 0
get_count key ((k, m) ∷ entries) = if k == key then m else get_count key entries

abbrev pub add_count : ℕ → ℕ → List (ℕ × ℕ) → List (ℕ × ℕ)
add_count key n [] = (key, n) ∷ []
add_count key n ((k, m) ∷ entries) =
    let rest = add_count key n entries in if k == key then (k, m + n) ∷ entries else (k, m) ∷ rest

unfoldable pub per_slot : List ℕ → List (ℕ × ℕ) → List (ℕ × ℕ)
per_slot [] counts = counts
per_slot (time ∷ times) counts = per_slot times (add_count (time / slot_ms) 1 counts)

unfoldable pub per_day : (ℕ → ℕ) → List (ℕ × ℕ) → List (ℕ × ℕ) → List (ℕ × ℕ)
per_day day_of [] counts = counts
per_day day_of ((slot, n) ∷ slots) counts =
    per_day day_of slots (add_count (day_of (slot * slot_ms)) n counts)

-- The days of the times `now - (n - 1) * DAY_MS`, …, `now`.
unfoldable pub labels_back : (ℕ → ℕ) → ℕ → ℕ → List ℕ
labels_back day_of now zero = []
labels_back day_of now (suc n) = day_of (now - n * day_ms) ∷ labels_back day_of now n

-- `counts.get(previousLabels[i] ?? '')`
unfoldable pub points : List (ℕ × ℕ) → List ℕ → List ℕ → List DailyPoint
points counts [] previous = []
points counts (date ∷ dates) [] =
    record { date = date; messages = get_count date counts; previous = 0 } ∷ points counts dates []
points counts (date ∷ dates) (p ∷ previous) =
    record { date = date; messages = get_count date counts; previous = get_count p counts }
    ∷ points counts dates previous

-- Day 0 of 1970 was a Thursday.
abbrev pub weekday : ℕ → ℕ
weekday day = (day + 4) % 7

abbrev pub add_at : ℕ → ℕ → List ℕ → List ℕ
add_at i n [] = []
add_at zero n (m ∷ ms) = (m + n) ∷ ms
add_at (suc i) n (m ∷ ms) = m ∷ add_at i n ms

unfoldable pub weekdays : List DailyPoint → List ℕ → List ℕ
weekdays [] sums = sums
weekdays (point ∷ points) sums = weekdays points (add_at (weekday point.date) point.messages sums)

abbrev pub first_or_zero : List ℕ → ℕ
first_or_zero [] = 0
first_or_zero (d ∷ days) = d

abbrev pub last_or_zero : List ℕ → ℕ
last_or_zero [] = 0
last_or_zero (d ∷ []) = d
last_or_zero (d ∷ e ∷ days) = last_or_zero (e ∷ days)

-- What `compute` returns, from the counts that it has read.
unfoldable pub report : AnalyticsQuery → (ℕ → ℕ) → ℕ → List (ℕ × ℕ) → ℕ → ℕ → Analytics
unfolding labels_back points weekdays
report query day_of now counts closed previous_closed =
    let labels = labels_back day_of now (query.days * 2) in
    let current = drop query.days labels in
    let daily = points counts current (take query.days labels) in
    record {
      days = query.days;
      time_zone = query.tz;
      from_day = first_or_zero current;
      to_day = last_or_zero current;
      total = total (λ (p : DailyPoint). p.messages) daily;
      previous_total = total (λ (p : DailyPoint). p.previous) daily;
      daily = daily;
      by_weekday = weekdays daily (0 ∷ 0 ∷ 0 ∷ 0 ∷ 0 ∷ 0 ∷ 0 ∷ []);
      closed = closed;
      previous_closed = previous_closed;
      generated_at = now;
    }

abbrev pub same_query : AnalyticsQuery → AnalyticsQuery → Bool
same_query q r = q.days == r.days && q.tz == r.tz

module _ (mongo : Mongo) (redis : Option Redis) (day_of : ℕ → ℕ → ℕ)
    (updated_at : Conversation → ℕ) where
  -- The cursor is read at once.
  unfoldable pub count_messages_per_day : ℕ → (ℕ → ℕ) → M (List (ℕ × ℕ))
  unfolding per_slot per_day
  count_messages_per_day since day = do
    rows ← access λ now db. (db, mongo.find Message (λ m. leb since m.created_at) db.messages)
    pure (per_day day (per_slot (map (λ (m : Message). m.created_at) rows) []) [])

  unfoldable pub count_closed : (ℕ → Bool) → M ℕ
  count_closed within = access λ now db. (
    db,
    length (
        mongo.find Conversation (λ c. is_closed c.status && within (updated_at c))
          db.conversations),
  )

  -- The three reads, which run at the same time, stand one after another.
  unfoldable pub compute : AnalyticsQuery → M Analytics
  unfolding report
  compute query = do
    now ← current_time
    let day = day_of query.tz
    let period_start = now - query.days * day_ms
    counts ← count_messages_per_day (now - (query.days * 2 + 1) * day_ms) day
    closed ← count_closed (λ at. leb period_start at)
    previous_closed ←
        count_closed (λ at. leb (period_start - query.days * day_ms) at && ltb at period_start)
    pure (report query day now counts closed previous_closed)

  unfoldable pub read_cache : Option Redis → AnalyticsQuery → M (Option Analytics)
  read_cache none query = pure none
  read_cache (some redis) query =
      try_catch (access λ now db. (db, db.reports query)) (λ error. pure none)

  unfoldable pub write_cache : Option Redis → AnalyticsQuery → Analytics → M (Unit {0})
  write_cache none query result = pure tt
  write_cache (some redis) query result =
      try_catch
        (access λ now db. (
          record db {
            reports = redis.set AnalyticsQuery Analytics same_query query result db.reports;
          },
          tt,
        ))
        (λ error. pure tt)

  unfoldable pub get_or_compute : AnalyticsQuery → Option Analytics → M Analytics
  get_or_compute query (some cached) = pure cached
  get_or_compute query none = do result ← compute query; write_cache redis query result; pure result

  unfoldable pub get : AnalyticsQuery → M Analytics
  unfolding get_or_compute
  get query = read_cache redis query >>= get_or_compute query
