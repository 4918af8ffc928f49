-- ===== src/Metrics/Windows.antt =====
-- How many times fall into the last days or minutes.
use chat_app_backend.Prelude.{
  ℕ, suc, ◌+◌, ◌≡◌, refl, ap, Bool, false, ◌&&◌, List, [], ◌∷◌, count, one_if, ◌==◌, leb, arith,
}

-- One of the `n` days, or minutes, up to the day `last`.
abbrev pub in_last : ℕ → ℕ → ℕ → Bool
in_last n last day = leb (last + 1) (day + n) && leb day last

in_last-none : (last day : ℕ) → in_last 0 last day ≡ false
in_last-none last day = ground arith

in_last-suc :
    (n last first day : ℕ)
    → first + n ≡ last
    → one_if (in_last (suc n) last day) ≡ one_if (day == first) + one_if (in_last n last day)
in_last-suc n last first day h = ground (arith, h)

module _ (day_of : ℕ → ℕ) where
  pub count-none :
      (last : ℕ) (times : List ℕ) → count (λ time. in_last 0 last (day_of time)) times ≡ 0
  count-none last [] = refl
  count-none last (time ∷ times) =
      omega (arith, count-none last times, ap one_if (in_last-none last (day_of time)))

  pub count-suc :
      (n last first : ℕ) (times : List ℕ)
      → first + n ≡ last
      → count (λ time. in_last (suc n) last (day_of time)) times
        ≡ count (λ time. day_of time == first) times
          + count (λ time. in_last n last (day_of time)) times
  count-suc n last first [] h = refl
  count-suc n last first (time ∷ times) h =
      omega (arith, count-suc n last first times h, in_last-suc n last first (day_of time) h)
