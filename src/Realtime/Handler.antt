-- ===== src/Realtime/Handler.antt =====
-- src/realtime/socket-handler.ts: what surrounds every handler of a socket event. The zod schema and
-- the handler are parameters; `w.now` is `Date.now()`.
pub mod Window
use Prim.Native.String.{String}
use chat_app_backend.Prelude.{
  ℕ, ◌+◌, Bool, true, false, Option, none, some, List, [], ◌∷◌, ◌++◌, leb, length, if◌then◌else◌,
}
use chat_app_backend.Errors.{HttpError, Failure, http, Result, ok, err}
use chat_app_backend.Server.{World, M}

-- `options.rateLimit`
pub record RateLimit : Type 0 where
  pub max : ℕ
  pub window_ms : ℕ

pub data AckResponse (D : Type 0) : Type 0 where
  done : Option D → AckResponse D
  refused : String → String → AckResponse D
  invalid_payload : List String → AckResponse D

-- `while (hits.length > 0 && hits[0] <= now - windowMs) hits.shift()`
abbrev pub shift_old : ℕ → ℕ → List ℕ → List ℕ
shift_old window now [] = []
shift_old window now (h ∷ hits) =
    let rest = shift_old window now hits in if leb (h + window) now then rest else h ∷ hits

-- Whether an event that arrives at `now` is let through, and the times kept of those that were.
unfoldable pub arrive : RateLimit → ℕ → List ℕ → Bool × List ℕ
arrive limit now hits =
    let kept = shift_old limit.window_ms now hits in
    if leb limit.max (length kept) then (false, kept) else (true, kept ++ now ∷ [])

abbrev pub arrive_if : Option RateLimit → ℕ → List ℕ → Bool × List ℕ
arrive_if none now hits = (true, hits)
arrive_if (some limit) now hits = arrive limit now hits

-- What a schema makes of a payload: the issues it finds, or the input.
pub data Parsed (I : Type 0) : Type 0 where
  issues : List String → Parsed I
  parsed : I → Parsed I

module _ {P I D : Type 0} (schema : P → Parsed I) (handler : I → M (Option D)) where
  unfoldable pub to_error_response : Failure → AckResponse D
  to_error_response (http e) = refused e.code e.message
  to_error_response error = refused "INTERNAL_ERROR" "Something went wrong"

  abbrev pub to_ack : Result (Option D) × World → AckResponse D × World
  to_ack (ok data_, w) = (done data_, w)
  to_ack (err error, w) = (to_error_response error, w)

  unfoldable pub handle_parsed : Parsed I → World → AckResponse D × World
  handle_parsed (issues is) w = (invalid_payload is, w)
  handle_parsed (parsed input) w = to_ack (handler input w)

  unfoldable pub on_event : Option RateLimit → List ℕ → P → World → List ℕ × (AckResponse D × World)
  on_event limit hits payload w =
      let (through, kept) = arrive_if limit w.now hits in
      if through
      then (kept, handle_parsed (schema payload) w)
      else (kept, (refused "RATE_LIMITED" "Slow down", w))
