-- ===== src/Metrics/Service/Series.antt =====
-- From recorded messages to the series of a dashboard.
use chat_app_backend.Prelude.{
  ℕ, zero, suc, ◌+◌, ◌-◌, ◌*◌, ◌≤◌, ◌≡◌, refl, ap, sym, ◌∙◌, List, [], ◌∷◌, map, count, total,
  one_if, ◌==◌, ==_comm, Bool-cases, inl, inr, arith,
}
use chat_app_backend.Errors.{Result, ok}
use chat_app_backend.Mongo.{Mongo}
use chat_app_backend.Server.{
  Db, World, M, pure, ◌>>◌, quiet, start, current_time, next, handle, try_catch,
}
use chat_app_backend.Realtime.Events.{Task, increment}
use chat_app_backend.Metrics.Figures.{CounterKey, messages_in_minute, messages_on_day, SeriesPoint}
use chat_app_backend.Metrics.Counters.{minute_key, day_key, CounterStore, bumped, record_message}
use chat_app_backend.Metrics.Counters.Stores.{IsCounterStore}
use chat_app_backend.Metrics.Windows.{in_last, count-none, count-suc}
use chat_app_backend.Metrics.Service.{minutes_back, series_of, messages_per_minute}

-- The increments that have been started run; one that fails is logged.
abbrev pub run_task : CounterStore → Task → M (Unit {0})
run_task store (increment key) = try_catch (store.incr key) (λ error. pure tt)
run_task store task = pure tt

abbrev pub run_tasks : CounterStore → List Task → M (Unit {0})
run_tasks store [] = pure tt
run_tasks store (task ∷ tasks) = run_task store task >> run_tasks store tasks

-- Messages at these times, each with the increments that it starts.
abbrev pub record_at : CounterStore → ℕ → Db → Db
record_at store time db =
    (run_tasks store (record_message (quiet db time)).1.started (quiet db time)).1.db

abbrev pub record_each : CounterStore → List ℕ → Db → Db
record_each store [] db = db
record_each store (time ∷ times) db = record_each store times (record_at store time db)

module _ (store : CounterStore) (lawful : IsCounterStore store) where
  abbrev pub counted : ℕ → Db → Db
  counted time db = record db {
    counters =
        bumped (messages_in_minute (minute_key time))
          (bumped (messages_on_day (day_key time)) db.counters);
  }

  pub run_increment :
      (key : CounterKey) (db : Db) (now : ℕ)
      → run_task store (increment key) (quiet db now)
        ≡ (ok tt, quiet (record db { counters = bumped key db.counters }) now)
  run_increment key db now = ap (handle (λ error. pure tt)) (lawful.incr_lem key db now)

  pub record_at-counted : (time : ℕ) (db : Db) → record_at store time db ≡ counted time db
  unfolding record_message start current_time
  record_at-counted time db =
      let day = messages_on_day (day_key time) in
      let minute = messages_in_minute (minute_key time) in
      ap (λ (r : Result (Unit {0}) × World). r.1.db)
        (ap (next (λ _. run_tasks store (increment minute ∷ []))) (run_increment day db time)
          ∙ ap (next (λ _. run_tasks store []))
              (run_increment minute (record db { counters = bumped day db.counters }) time))

  minute-counted :
      (minute time : ℕ) (db : Db)
      → (counted time db).counters (messages_in_minute minute)
        ≡ db.counters (messages_in_minute minute) + one_if (minute_key time == minute)
  minute-counted minute time db = elim (Bool-cases (minute == minute_key time)) [
    | inl e ↦ rw (==_comm (minute_key time) minute, e) refl
    | inr e ↦ rw (==_comm (minute_key time) minute, e) (omega arith)
  ]

  minute-record_each :
      (minute : ℕ) (times : List ℕ) (db : Db)
      → (record_each store times db).counters (messages_in_minute minute)
        ≡ db.counters (messages_in_minute minute) + count (λ time. minute_key time == minute) times
  minute-record_each minute [] db = omega arith
  minute-record_each minute (time ∷ times) db =
      ap (λ d. (record_each store times d).counters (messages_in_minute minute))
        (record_at-counted time db)
      ∙ omega
          (arith, minute-record_each minute times (counted time db), minute-counted minute time db)

minute_key-back : (now n : ℕ) → n * 60000 ≤ now → minute_key (now - n * 60000) + n ≡ minute_key now
minute_key-back now n h = omega (arith, h)

total-series_of :
    (counters : CounterKey → ℕ) (minutes : List ℕ)
    → total
        (λ (p : SeriesPoint). p.messages)
        (series_of minutes (map counters (map messages_in_minute minutes)))
      ≡ total (λ m. counters (messages_in_minute m)) minutes
unfolding series_of
total-series_of counters [] = refl
total-series_of counters (m ∷ minutes) = omega (arith, total-series_of counters minutes)

total-minutes_back :
    (now n : ℕ) (times : List ℕ) (value : ℕ → ℕ)
    → n * 60000 ≤ now
    → ((m : ℕ) → value m ≡ count (λ time. minute_key time == m) times)
    → total value (minutes_back now n)
      ≡ count (λ time. in_last n (minute_key now) (minute_key time)) times
unfolding minutes_back
total-minutes_back now zero times value h k = sym (count-none minute_key (minute_key now) times)
total-minutes_back now (suc n) times value h k = omega (
  arith,
  total-minutes_back now n times value (omega (arith, h)) k,
  k (minute_key (now - n * 60000)),
  count-suc minute_key n (minute_key now) (minute_key (now - n * 60000)) times
      (minute_key-back now n (omega (arith, h))),
)

module _ (mongo : Mongo) (store : CounterStore) (lawful : IsCounterStore store) (count_online : M ℕ)
    (clients_count : ℕ) where
  -- Messages are recorded at any times, on counters that are at zero, with either store and with nothing that interrupts. Then the
  -- series of the last `minutes` minutes adds up to the number of these messages in the minutes up to the current one.
  -- The clock must have run so long since 1970.
  pub messages_per_minute-total :
      (minutes now : ℕ) (times : List ℕ) (db : Db)
      → minutes * 60000 ≤ now
      → ((m : ℕ) → db.counters (messages_in_minute m) ≡ 0)
      → (series : List SeriesPoint) × ((messages_per_minute mongo store count_online clients_count
              minutes
              (quiet (record_each store times db) now)
            ≡ (ok series, quiet (record_each store times db) now))
          × (total (λ (p : SeriesPoint). p.messages) series
              ≡ count (λ time. in_last minutes (minute_key now) (minute_key time)) times))
  unfolding messages_per_minute current_time
  messages_per_minute-total minutes now times db h zeros =
      let after = record_each store times db in
      let labels = minutes_back now minutes in
      (
        series_of labels (map after.counters (map messages_in_minute labels)),
        (
          ap (next (λ values. pure (series_of labels values)))
              (lawful.get_many_lem (map messages_in_minute labels) after now),
          total-series_of after.counters labels
              ∙ total-minutes_back now minutes times (λ m. after.counters (messages_in_minute m)) h
                  (λ m. omega (arith, minute-record_each store lawful m times db, zeros m)),
        ),
      )
