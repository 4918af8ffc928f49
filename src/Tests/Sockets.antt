-- ===== src/Tests/Sockets.antt =====
-- Socket events on concrete times.
use chat_app_backend.Prelude.{◌≤◌, ◌≡◌, refl, [], ◌∷◌, count, arith}
use chat_app_backend.Realtime.Handler.{RateLimit, arrive}
use chat_app_backend.Realtime.Handler.Window.{let_through, is_within, let_through-bound}

abbrev two_per_second : RateLimit
two_per_second = record { max = 2; window_ms = 1_000 }

let_through-bound_example :
    count (is_within 1_000 900) (let_through two_per_second [] (0 ∷ 500 ∷ 900 ∷ 1_000 ∷ [])) ≤ 2
let_through-bound_example =
    let_through-bound two_per_second 900 (0 ∷ 500 ∷ 900 ∷ 1_000 ∷ [])
      (omega arith, (omega arith, (omega arith, (omega arith, tt))))

-- The third event is refused; the fourth finds the first one out of the window.
slowed : let_through two_per_second [] (0 ∷ 500 ∷ 900 ∷ 1_000 ∷ []) ≡ 0 ∷ 500 ∷ 1_000 ∷ []
unfolding let_through arrive
slowed = refl
