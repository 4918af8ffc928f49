-- ===== src/Metrics/Analytics/Slots.antt =====
-- Counting by quarter hours and then by days counts every message on its day.
use Prim.Native.Nat.{◌/◌}
use chat_app_backend.Prelude.{
  ℕ, ◌+◌, ◌*◌, ◌≡◌, refl, ap, Bool, true, false, List, [], ◌∷◌, count, one_if, ◌==◌, if◌then◌else◌,
  Bool-cases, inl, inr, arith, eq_of_==,
}
use chat_app_backend.Metrics.Analytics.{slot_ms, get_count, add_count, per_slot, per_day}

abbrev amount_if : Bool → ℕ → ℕ
amount_if b n = if b then n else 0

get_count-add_count :
    (d k n : ℕ) (entries : List (ℕ × ℕ))
    → get_count d (add_count k n entries) ≡ get_count d entries + amount_if (k == d) n
get_count-add_count d k n [] = elim (Bool-cases (k == d)) [
  | inl e ↦ rw e (omega arith)
  | inr e ↦ rw e (omega arith)
]
get_count-add_count d k n ((l, m) ∷ entries) = elim (Bool-cases (l == k)) [
  | inl e ↦ elim (Bool-cases (l == d)) [
    | inl f ↦ let g : (k == d) ≡ true = ground (arith, e, f) in rw (e, f, g) refl
    | inr f ↦ let g : (k == d) ≡ false = ground (arith, e, f) in rw (e, f, g) (omega arith)
  ]
  | inr e ↦ elim (Bool-cases (l == d)) [
    | inl f ↦ let g : (k == d) ≡ false = ground (arith, e, f) in rw (e, f, g) (omega arith)
    | inr f ↦ rw (e, f) (get_count-add_count d k n entries)
  ]
]

amount_if-add : (b : Bool) (m n : ℕ) → amount_if b (m + n) ≡ amount_if b m + amount_if b n
amount_if-add true m n = refl
amount_if-add false m n = omega arith

amount_if-one : (b : Bool) → amount_if b 1 ≡ one_if b
amount_if-one true = refl
amount_if-one false = refl

module _ (day_of : ℕ → ℕ) (d : ℕ) where
  -- What the slots of the day `d` hold.
  abbrev weight : List (ℕ × ℕ) → ℕ
  weight [] = 0
  weight ((slot, n) ∷ slots) = amount_if (day_of (slot * slot_ms) == d) n + weight slots

  abbrev on_day : ℕ → Bool
  on_day time = day_of time == d

  weight-add_count :
      (k n : ℕ) (entries : List (ℕ × ℕ))
      → weight (add_count k n entries) ≡ weight entries + amount_if (on_day (k * slot_ms)) n
  weight-add_count k n [] = omega arith
  weight-add_count k n ((l, m) ∷ entries) = elim (Bool-cases (l == k)) [
    | inl e ↦
        let same : amount_if (on_day (l * slot_ms)) n ≡ amount_if (on_day (k * slot_ms)) n =
          ap (λ s. amount_if (on_day (s * slot_ms)) n) (eq_of_== l k e) in
        rw e (omega (arith, same, amount_if-add (on_day (l * slot_ms)) m n))
    | inr e ↦ rw e (omega (arith, weight-add_count k n entries))
  ]

  get_count-per_day :
      (slots counts : List (ℕ × ℕ))
      → get_count d (per_day day_of slots counts) ≡ get_count d counts + weight slots
  unfolding per_day
  get_count-per_day [] counts = omega arith
  get_count-per_day ((slot, n) ∷ slots) counts = omega (
    arith,
    get_count-per_day slots (add_count (day_of (slot * slot_ms)) n counts),
    get_count-add_count d (day_of (slot * slot_ms)) n counts,
  )

  weight-per_slot :
      (times : List ℕ) (counts : List (ℕ × ℕ))
      → weight (per_slot times counts)
        ≡ weight counts + count (λ time. on_day (time / slot_ms * slot_ms)) times
  unfolding per_slot
  weight-per_slot [] counts = omega arith
  weight-per_slot (time ∷ times) counts = omega (
    arith,
    weight-per_slot times (add_count (time / slot_ms) 1 counts),
    weight-add_count (time / slot_ms) 1 counts,
    amount_if-one (on_day (time / slot_ms * slot_ms)),
  )

  count-same :
      (p q : ℕ → Bool)
      → ((time : ℕ) → p time ≡ q time)
      → (times : List ℕ) → count p times ≡ count q times
  count-same p q h [] = refl
  count-same p q h (time ∷ times) = rw (h time, count-same p q h times) refl

  -- In a zone whose days begin on quarter hours, the count that `countMessagesPerDay` gives a day is the number of messages
  -- whose time falls on that day, although only the first time of each quarter hour is formatted.
  pub get_count-per_slot :
      (times : List ℕ)
      → ((time : ℕ) → day_of (time / slot_ms * slot_ms) ≡ day_of time)
      → get_count d (per_day day_of (per_slot times []) []) ≡ count (λ time. day_of time == d) times
  get_count-per_slot times h = omega (
    arith,
    get_count-per_day (per_slot times []) [],
    weight-per_slot times [],
    count-same (λ time. on_day (time / slot_ms * slot_ms)) on_day
        (λ time. ap (λ x. x == d) (h time)) times,
  )
