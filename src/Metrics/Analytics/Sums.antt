-- ===== src/Metrics/Analytics/Sums.antt =====
-- What the sums of the report count, in a zone that keeps its offset.
use Prim.Native.Nat.{◌/◌, ◌%◌}
use chat_app_backend.Prelude.{
  ℕ, zero, suc, ◌+◌, ◌-◌, ◌*◌, ◌≤◌, ◌<◌, ◌≡◌, refl, ap, sym, ◌∙◌, subst, List, [], ◌∷◌, count,
  total, length, take, drop, ◌==◌, arith,
}
use chat_app_backend.Metrics.Windows.{in_last, count-none, count-suc}
use chat_app_backend.Metrics.Figures.{DailyPoint, AnalyticsQuery}
use chat_app_backend.Metrics.Analytics.{
  day_ms, slot_ms, get_count, per_slot, per_day, labels_back, points, weekday, add_at, weekdays,
  report,
}
use chat_app_backend.Metrics.Analytics.Slots.{get_count-per_slot}

total-add_at :
    (i n : ℕ) (ms : List ℕ) → i < length ms → total (λ m. m) (add_at i n ms) ≡ total (λ m. m) ms + n
total-add_at i n [] h = ground (arith, h)
total-add_at zero n (m ∷ ms) h = omega arith
total-add_at (suc i) n (m ∷ ms) h = omega (arith, total-add_at i n ms (omega (arith, h)))

length-add_at : (i n : ℕ) (ms : List ℕ) → length (add_at i n ms) ≡ length ms
length-add_at i n [] = refl
length-add_at zero n (m ∷ ms) = refl
length-add_at (suc i) n (m ∷ ms) = ap suc (length-add_at i n ms)

weekday-bound : (day : ℕ) → weekday day < 7
weekday-bound day = omega arith

total-weekdays :
    (ps : List DailyPoint) (sums : List ℕ)
    → length sums ≡ 7
    → total (λ m. m) (weekdays ps sums)
      ≡ total (λ m. m) sums + total (λ (p : DailyPoint). p.messages) ps
unfolding weekdays
total-weekdays [] sums h = omega arith
total-weekdays (p ∷ ps) sums h = omega (
  arith,
  total-weekdays ps (add_at (weekday p.date) p.messages sums)
      (length-add_at (weekday p.date) p.messages sums ∙ h),
  total-add_at (weekday p.date) p.messages sums (omega (arith, h, weekday-bound p.date)),
)

total-points :
    (counts : List (ℕ × ℕ)) (dates previous : List ℕ)
    → total (λ (p : DailyPoint). p.messages) (points counts dates previous)
      ≡ total (λ d. get_count d counts) dates
unfolding points
total-points counts [] previous = refl
total-points counts (d ∷ dates) [] = omega (arith, total-points counts dates [])
total-points counts (d ∷ dates) (p ∷ previous) = omega (arith, total-points counts dates previous)

suc_add : (m n : ℕ) → suc (m + n) ≡ suc m + n
suc_add m n = omega arith

drop-labels_back :
    (day_of : ℕ → ℕ) (now m n : ℕ)
    → drop m (labels_back day_of now (m + n)) ≡ labels_back day_of now n
unfolding labels_back
drop-labels_back day_of now zero n = ap (labels_back day_of now) (omega arith)
drop-labels_back day_of now (suc m) n =
    subst (λ k. drop (suc m) (labels_back day_of now k) ≡ labels_back day_of now n) (suc_add m n)
      (drop-labels_back day_of now m n)

-- A zone so many milliseconds east or west of Greenwich.
pub data Offset : Type 0 where
  east west : ℕ → Offset

abbrev pub millis : Offset → ℕ
millis (east n) = n
millis (west n) = n

-- The number of the calendar day; the last hours of 1969 count to day 0.
abbrev pub fixed_zone : Offset → ℕ → ℕ
fixed_zone (east n) time = (time + n) / day_ms
fixed_zone (west n) time = (time - n) / day_ms

-- An offset of whole quarter hours, of a day at most.
pub record IsOffset (offset : Offset) : Type 0 where
  pub quarters : millis offset % slot_ms ≡ 0
  pub within_day : millis offset ≤ day_ms

fixed_zone-slot :
    (offset : Offset) (time : ℕ)
    → millis offset % slot_ms ≡ 0
    → fixed_zone offset (time / slot_ms * slot_ms) ≡ fixed_zone offset time
fixed_zone-slot (east n) time h = omega (arith, h)
fixed_zone-slot (west n) time h = omega (arith, h)

fixed_zone-back :
    (offset : Offset) (now n : ℕ)
    → millis offset ≤ day_ms
    → suc n * day_ms ≤ now
    → fixed_zone offset (now - n * day_ms) + n ≡ fixed_zone offset now
fixed_zone-back (east o) now n h k = omega (arith, k)
fixed_zone-back (west o) now n h k = omega (arith, h, k)

-- The labels cover the last days, each once.
total-labels_back :
    (offset : Offset) (now n : ℕ) (times : List ℕ) (counts : List (ℕ × ℕ))
    → millis offset ≤ day_ms
    → n * day_ms ≤ now
    → ((d : ℕ) → get_count d counts ≡ count (λ time. fixed_zone offset time == d) times)
    → total (λ d. get_count d counts) (labels_back (fixed_zone offset) now n)
      ≡ count (λ time. in_last n (fixed_zone offset now) (fixed_zone offset time)) times
unfolding labels_back
total-labels_back offset now zero times counts b h k =
    sym (count-none (fixed_zone offset) (fixed_zone offset now) times)
total-labels_back offset now (suc n) times counts b h k = omega (
  arith,
  total-labels_back offset now n times counts b (omega (arith, h)) k,
  k (fixed_zone offset (now - n * day_ms)),
  count-suc (fixed_zone offset) n (fixed_zone offset now) (fixed_zone offset (now - n * day_ms))
      times (fixed_zone-back offset now n b h),
)

-- In a zone that keeps one offset, a number of quarter hours, the total of the report is the number of messages of the last
-- `days` calendar days up to today, and so is the sum of the seven counts by weekday. The clock must have run
-- for two periods since 1970.
pub report-Sums :
    (query : AnalyticsQuery) (offset : Offset) (now closed previous_closed : ℕ) (times : List ℕ)
    → IsOffset offset
    → query.days * 2 * day_ms ≤ now
    → ((report query
          (fixed_zone offset)
          now
          (per_day (fixed_zone offset) (per_slot times []) [])
          closed
          previous_closed).total
        ≡ count (λ time. in_last query.days (fixed_zone offset now) (fixed_zone offset time)) times)
      × (total
            (λ n. n)
            (report query
              (fixed_zone offset)
              now
              (per_day (fixed_zone offset) (per_slot times []) [])
              closed
              previous_closed).by_weekday
          ≡ count
              (λ time. in_last query.days (fixed_zone offset now) (fixed_zone offset time))
              times)
unfolding report
report-Sums query offset now closed previous_closed times h k =
    let counts = per_day (fixed_zone offset) (per_slot times []) [] in
    let labels = labels_back (fixed_zone offset) now (query.days * 2) in
    let current = drop query.days labels in
    let ps = points counts current (take query.days labels) in
    let exact : current ≡ labels_back (fixed_zone offset) now query.days =
      subst
        (λ n.
          drop query.days (labels_back (fixed_zone offset) now n)
          ≡ labels_back (fixed_zone offset) now query.days)
        (twice query.days) (drop-labels_back (fixed_zone offset) now query.days query.days) in
    let sum : total (λ (p : DailyPoint). p.messages) ps
        ≡ count (λ time. in_last query.days (fixed_zone offset now) (fixed_zone offset time))
            times =
      total-points counts current (take query.days labels)
      ∙ ap (total (λ d. get_count d counts)) exact
      ∙ total-labels_back offset now query.days times counts h.within_day (omega (arith, k)) (λ d.
        get_count-per_slot (fixed_zone offset) d times
          (λ time. fixed_zone-slot offset time h.quarters)) in
    (sum, total-weekdays ps (0 ∷ 0 ∷ 0 ∷ 0 ∷ 0 ∷ 0 ∷ 0 ∷ []) refl ∙ omega (arith, sum))
  where
    twice : (n : ℕ) → n + n ≡ n * 2
    twice n = omega arith
