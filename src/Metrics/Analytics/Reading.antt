-- ===== src/Metrics/Analytics/Reading.antt =====
-- The report that `compute` makes of the stored messages.
use chat_app_backend.Prelude.{
  ℕ, ◌+◌, ◌-◌, ◌*◌, ◌≤◌, ◌≡◌, refl, ◌∙◌, Bool, true, false, ◌&&◌, Option, List, [], ◌∷◌, map,
  count-map, ltb, length, count, total, leb, Bool-cases, inl, inr, arith,
}
use chat_app_backend.Documents.{Conversation, Message, is_closed}
use chat_app_backend.Errors.{ok}
use chat_app_backend.Mongo.{Mongo, IsDocumented}
use chat_app_backend.Redis.{Redis}
use chat_app_backend.Server.{Db, quiet, access, current_time}
use chat_app_backend.Metrics.Figures.{Analytics, AnalyticsQuery}
use chat_app_backend.Metrics.Analytics.{
  day_ms, per_slot, per_day, report, count_messages_per_day, count_closed, compute,
}
use chat_app_backend.Metrics.Analytics.Sums.{
  Offset, east, west, millis, fixed_zone, IsOffset, report-Sums,
}
use chat_app_backend.Metrics.Windows.{in_last}

and_false : (a : Bool) → (a && false) ≡ false
and_false true = refl
and_false false = refl

count-same :
    {A : Type 0} (p q : A → Bool) → ((x : A) → p x ≡ q x) → (xs : List A) → count p xs ≡ count q xs
count-same p q h [] = refl
count-same p q h (x ∷ xs) = rw (h x, count-same p q h xs) refl

-- A message of the period is read.
in_window :
    (days : ℕ) (offset : Offset) (now time : ℕ)
    → millis offset ≤ day_ms
    → (leb (now - (days * 2 + 1) * day_ms) time
        && in_last days (fixed_zone offset now) (fixed_zone offset time))
      ≡ in_last days (fixed_zone offset now) (fixed_zone offset time)
in_window days offset now time b =
    elim (Bool-cases (in_last days (fixed_zone offset now) (fixed_zone offset time))) [
      | inl e ↦ rw e (late offset b e)
      | inr e ↦ rw e (and_false (leb (now - (days * 2 + 1) * day_ms) time))
    ]
  where
    late :
        (o : Offset)
        → millis o ≤ day_ms
        → in_last days (fixed_zone o now) (fixed_zone o time) ≡ true
        → (leb (now - (days * 2 + 1) * day_ms) time && true) ≡ true
    late (east n) b e = ground (arith, e)
    late (west n) b e = ground (arith, b, e)

module _ (mongo : Mongo) (manual : IsDocumented mongo) (redis : Option Redis)
    (updated_at : Conversation → ℕ) (offset : Offset) (now : ℕ) where
  times_read : AnalyticsQuery → Db → List ℕ
  times_read query db =
      map (λ (m : Message). m.created_at)
        (mongo.find Message (λ m. leb (now - (query.days * 2 + 1) * day_ms) m.created_at)
          db.messages)

  abbrev closed_when : (ℕ → Bool) → Db → ℕ
  closed_when within db =
      length (
        mongo.find Conversation (λ c. is_closed c.status && within (updated_at c)) db.conversations)

  count-times_read :
      (query : AnalyticsQuery) (db : Db)
      → millis offset ≤ day_ms
      → count
          (λ time. in_last query.days (fixed_zone offset now) (fixed_zone offset time))
          (times_read query db)
        ≡ count
            (λ (m : Message).
              in_last query.days (fixed_zone offset now) (fixed_zone offset m.created_at))
            db.messages
  unfolding times_read
  count-times_read query db b =
      let since = now - (query.days * 2 + 1) * day_ms in
      let p : ℕ → Bool =
        λ time. in_last query.days (fixed_zone offset now) (fixed_zone offset time) in
      count-map p (λ (m : Message). m.created_at)
        (mongo.find Message (λ m. leb since m.created_at) db.messages)
      ∙ manual.count-find Message (λ m. leb since m.created_at) (λ m. p m.created_at) db.messages
      ∙ count-same (λ (m : Message). leb since m.created_at && p m.created_at)
          (λ (m : Message). p m.created_at) (λ m. in_window query.days offset now m.created_at b)
          db.messages

  -- In a zone that keeps one offset, east or west, a number of quarter hours and a day at most, and when the clock
  -- has run for two periods since 1970, a report that nothing interrupts has as its total the number of stored messages of the last `days` calendar days up to
  -- today, and its seven counts by weekday add up to the same.
  pub compute-Sums :
      (query : AnalyticsQuery) (db : Db)
      → IsOffset offset
      → query.days * 2 * day_ms ≤ now
      → (a : Analytics) × (((compute mongo redis
              (λ tz. fixed_zone offset)
              updated_at
              query
              (quiet db now))
            ≡ (ok a, quiet db now))
          × ((a.total
                ≡ count
                    (λ (m : Message).
                      in_last query.days (fixed_zone offset now) (fixed_zone offset m.created_at))
                    db.messages)
              × (total (λ n. n) a.by_weekday
                  ≡ count
                      (λ (m : Message).
                        in_last query.days (fixed_zone offset now) (fixed_zone offset m.created_at))
                      db.messages)))
  unfolding compute count_messages_per_day count_closed access times_read current_time
  compute-Sums query db h k =
      let start = now - query.days * day_ms in
      let closed = closed_when (λ at. leb start at) db in
      let previous = closed_when (λ at. leb (start - query.days * day_ms) at && ltb at start) db in
      let counts = per_day (fixed_zone offset) (per_slot (times_read query db) []) [] in
      let sums = report-Sums query offset now closed previous (times_read query db) h k in
      (
        report query (fixed_zone offset) now counts closed previous,
        (
          refl,
          (
            sums.0 ∙ count-times_read query db h.within_day,
            sums.1 ∙ count-times_read query db h.within_day,
          ),
        ),
      )
