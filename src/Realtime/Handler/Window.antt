-- ===== src/Realtime/Handler/Window.antt =====
-- The limiter of a socket event lets at most `max` events through in any window.
use chat_app_backend.Prelude.{
  ℕ, ◌+◌, ◌≤◌, ◌<◌, ◌≡◌, refl, Bool, true, false, ◌&&◌, List, [], ◌∷◌, ◌++◌, leb, ltb, length,
  count, count-append, if◌then◌else◌, arith, inl, inr, Bool-cases,
}
use chat_app_backend.Realtime.Handler.{RateLimit, shift_old, arrive}

-- The times of the events let through, of those that arrive at the times given.
unfoldable pub let_through : RateLimit → List ℕ → List ℕ → List ℕ
let_through limit hits [] = []
let_through limit hits (now ∷ times) =
    let after = arrive limit now hits in
    let rest = let_through limit after.1 times in if after.0 then now ∷ rest else rest

-- The clock does not go back.
abbrev pub IsForward : ℕ → List ℕ → Type 0
IsForward from [] = Unit
IsForward from (t ∷ ts) = (from ≤ t) × IsForward t ts

-- `time` lies in the window that ends at `end`.
abbrev pub is_within : ℕ → ℕ → ℕ → Bool
is_within window end time = ltb end (time + window) && leb time end

count-length : {A : Type 0} (p : A → Bool) (xs : List A) → count p xs ≤ length xs
count-length p [] = omega arith
count-length p (x ∷ xs) = elim (Bool-cases (p x)) [
  | inl e ↦ rw e (omega (arith, count-length p xs))
  | inr e ↦ rw e (omega (arith, count-length p xs))
]

length-snoc : (xs : List ℕ) (x : ℕ) → length (xs ++ x ∷ []) ≡ length xs + 1
length-snoc [] x = omega arith
length-snoc (y ∷ xs) x = omega (arith, length-snoc xs x)

-- What is shifted out has left every window that ends at `now` or later.
count-shift_old :
    (window now end : ℕ) (hits : List ℕ)
    → now ≤ end
    → count (is_within window end) (shift_old window now hits) ≡ count (is_within window end) hits
count-shift_old window now end [] h = omega arith
count-shift_old window now end (t ∷ hits) h = elim (Bool-cases (leb (t + window) now)) [
  | inl e ↦ rw e (ground (arith, count-shift_old window now end hits h))
  | inr e ↦ rw e (omega arith)
]

shift_old-shorter :
    (window now : ℕ) (hits : List ℕ) → length (shift_old window now hits) ≤ length hits
shift_old-shorter window now [] = omega arith
shift_old-shorter window now (t ∷ hits) = elim (Bool-cases (leb (t + window) now)) [
  | inl e ↦ rw e (omega (arith, shift_old-shorter window now hits))
  | inr e ↦ rw e (omega arith)
]

module _ (limit : RateLimit) where
  -- Events that arrive after a window has ended do not count in it.
  let_through-late :
      (end from : ℕ) (hits times : List ℕ)
      → end < from
      → IsForward from times
      → count (is_within limit.window_ms end) (let_through limit hits times) ≡ 0
  unfolding let_through
  let_through-late end from hits [] h f = omega arith
  let_through-late end from hits (t ∷ times) h f =
      let rest = let_through-late end t (arrive limit t hits).1 times (omega (arith, h, f.0)) f.1 in
      elim (Bool-cases (arrive limit t hits).0) [
        | inl e ↦ rw e (ground (arith, rest, f.0, h))
        | inr e ↦ rw e rest
      ]

  arrive-full :
      (now : ℕ) (hits : List ℕ)
      → leb limit.max (length (shift_old limit.window_ms now hits)) ≡ true
      → arrive limit now hits ≡ (false, shift_old limit.window_ms now hits)
  unfolding arrive
  arrive-full now hits e = rw e refl

  arrive-free :
      (now : ℕ) (hits : List ℕ)
      → leb limit.max (length (shift_old limit.window_ms now hits)) ≡ false
      → arrive limit now hits ≡ (true, shift_old limit.window_ms now hits ++ now ∷ [])
  unfolding arrive
  arrive-free now hits e = rw e refl

  -- Proved for the times that the limiter has kept and those that it will let through together.
  kept-bound :
      (end : ℕ) (hits times : List ℕ) (from : ℕ)
      → length hits ≤ limit.max
      → IsForward from times
      → count (is_within limit.window_ms end) hits
          + count (is_within limit.window_ms end) (let_through limit hits times)
        ≤ limit.max
  unfolding let_through
  kept-bound end hits [] from h f =
      omega (arith, h, count-length (is_within limit.window_ms end) hits)
  kept-bound end hits (t ∷ times) from h f =
      let kept = shift_old limit.window_ms t hits in
      elim (Bool-cases (ltb end t)) [
        | inl e ↦ omega (
          arith,
          h,
          count-length (is_within limit.window_ms end) hits,
          let_through-late end t hits (t ∷ times) (ground (arith, e)) (omega arith, f.1),
        )
        | inr e ↦ elim (Bool-cases (leb limit.max (length kept))) [
          | inl full ↦ rw (arrive-full t hits full) (
              omega (
                arith,
                count-shift_old limit.window_ms t end hits (ground (arith, e)),
                kept-bound end kept times t
                    (omega (arith, h, shift_old-shorter limit.window_ms t hits)) f.1,
              ))
          | inr free ↦ rw (arrive-free t hits free) (
              omega (
                arith,
                count-shift_old limit.window_ms t end hits (ground (arith, e)),
                count-append (is_within limit.window_ms end) kept (t ∷ []),
                kept-bound end (kept ++ t ∷ []) times t (ground (arith, free, length-snoc kept t))
                    f.1,
              ))
        ]
      ]

-- Among events that arrive one after another on a socket, at times that do not go back, the limiter
-- lets at most `max` through within any `window_ms` milliseconds that end at `end`.
pub let_through-bound :
    (limit : RateLimit) (end : ℕ) (times : List ℕ)
    → IsForward 0 times
    → count (is_within limit.window_ms end) (let_through limit [] times) ≤ limit.max
let_through-bound limit end times f = omega (arith, kept-bound limit end [] times 0 (omega arith) f)
