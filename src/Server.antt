-- ===== src/Server.antt =====
-- How a handler runs. The services keep their state in MongoDB and Redis, which every server process
-- shares: each awaited call is one atomic access, and between two of them other requests, here and on other
-- servers, may have changed anything. `Turn` is what happens before an access: the others' changes,
-- the time that passes, and whether the access itself fails.
pub mod Triples
use chat_app_backend.Prelude.{
  ℕ, ◌+◌, ◌≡◌, Bool, true, false, Option, none, some, List, [], ◌∷◌, if◌then◌else◌,
}
use chat_app_backend.Documents.{User, Conversation, AgentProfile, Message, PresenceSnapshot}
use chat_app_backend.Chat.Pages.{PageKey, HistoryPage}
use chat_app_backend.Presence.Leases.{RedisState}
use chat_app_backend.Realtime.Sockets.{SocketState}
use chat_app_backend.Push.Jobs.{Device, Job}
use chat_app_backend.Metrics.Figures.{CounterKey, AnalyticsQuery, Analytics}
use chat_app_backend.Realtime.Rooms.{Room}
use chat_app_backend.Realtime.Events.{Event, Emission, Task}
use chat_app_backend.Errors.{HttpError, Failure, http, unavailable, Result, ok, err}

pub record Db : Type 0 where
  pub users : List User
  pub conversations : List Conversation
  pub profiles : List AgentProfile
  pub messages : List Message
  -- What Redis holds of each user's presence.
  pub presence : ℕ → PresenceSnapshot
  -- Redis's history cache: the version of each conversation, and the pages by their key.
  pub versions : ℕ → ℕ
  pub pages : PageKey → Option HistoryPage
  -- The ids of the sessions that express-session keeps in Redis.
  pub sessions : List ℕ
  -- The sockets that are connected, to any server.
  pub sockets : List SocketState
  -- Redis's counts of requests, by the limiter's key, and when each runs out.
  pub hits : ℕ → ℕ
  pub hits_until : ℕ → Option ℕ
  -- What Redis keeps of presence, and the users with a grace timer in this process.
  pub leases : RedisState
  pub grace_timers : List ℕ
  -- The browsers to notify, and the jobs that BullMQ holds: waiting, running or kept when done.
  pub devices : List Device
  pub queue : List Job
  -- The counters of the metrics, in Redis or, without it, in the process; until when a server has the
  -- lock of the broadcast; and the cache of the analytics.
  pub counters : CounterKey → ℕ
  pub broadcast_lock : ℕ
  pub reports : AnalyticsQuery → Option Analytics
  -- For the proofs alone, as the next: the requests that have changed a conversation's messages and
  -- not yet moved its version on.
  pub writers : ℕ → ℕ
  -- For the proofs alone, read and written by no code: the chat slots of an agent that other
  -- requests have taken and not yet either used for a conversation or given back.
  pub in_flight : ℕ → ℕ

pub record Turn : Type 0 where
  pub others : Db → Db
  pub elapsed : ℕ
  pub fails : Bool

pub record World : Type 0 where
  pub db : Db
  pub now : ℕ
  pub turns : List Turn
  -- What has been sent to sockets and started in the background, latest first.
  pub emitted : List Emission
  pub started : List Task
  -- This process's flag `AssignmentService.draining`.
  pub draining : Bool

-- A process that nothing interrupts.
abbrev pub quiet : Db → ℕ → World
quiet db now = record {
  db = db;
  now = now;
  turns = [];
  emitted = [];
  started = [];
  draining = false;
}

-- An asynchronous function: it resolves with a value or is rejected.
abbrev pub M : Type 0 → Type 0
M A = World → Result A × World

abbrev pub pure : {A : Type 0} → A → M A
pure a w = (ok a, w)

abbrev pub throw : {A : Type 0} → Failure → M A
throw e w = (err e, w)

abbrev pub next : {A B : Type 0} → (A → M B) → Result A × World → Result B × World
next k (ok a, w) = k a w
next k (err e, w) = (err e, w)

infixl 5 ◌>>=◌ ◌>>◌
abbrev pub ◌>>=◌ : {A B : Type 0} → M A → (A → M B) → M B
◌>>=◌ m k w = next k (m w)

abbrev pub ◌>>◌ : {A B : Type 0} → M A → M B → M B
m >> k = m >>= λ _. k

abbrev pub run_access : {A : Type 0} → (ℕ → Db → Db × A) → World → Result A × World
run_access f w = (ok (f w.now w.db).1, record w { db = (f w.now w.db).0 })

abbrev pub after_turn : World → Turn → List Turn → World
after_turn w t ts = record w { db = t.others w.db; now = w.now + t.elapsed; turns = ts }

abbrev pub take_turn : {A : Type 0} → (ℕ → Db → Db × A) → World → List Turn → Result A × World
take_turn f w [] = run_access f (record w { turns = [] })
take_turn f w (t ∷ ts) =
    if t.fails then (err unavailable, after_turn w t ts) else run_access f (after_turn w t ts)

-- One awaited call of the database, at the time `now`.
unfoldable pub access : {A : Type 0} → (ℕ → Db → Db × A) → M A
access f w = take_turn f w w.turns

unfoldable pub emit : List Room → Event → M (Unit {0})
emit targets event w = (
  ok tt,
  record w { emitted = record { targets = targets; except = none; event = event } ∷ w.emitted },
)

-- `socket.to(room).emit(…)` of the socket `socket_id`
unfoldable pub emit_from : ℕ → Room → Event → M (Unit {0})
emit_from socket_id room event w = (
  ok tt,
  record w {
    emitted = record { targets = room ∷ []; except = some socket_id; event = event } ∷ w.emitted;
  },
)

-- A synchronous step on state that the process or the adapter keeps: nothing runs before it, and it
-- does not fail.
unfoldable pub sync : {A : Type 0} → (Db → Db × A) → M A
sync f w = (ok (f w.db).1, record w { db = (f w.db).0 })

unfoldable pub start : Task → M (Unit {0})
start task w = (ok tt, record w { started = task ∷ w.started })

-- `Date.now()`
unfoldable pub current_time : M ℕ
current_time w = (ok w.now, w)

-- `try { m } catch (error) { handler(error) }`
abbrev pub handle : {A : Type 0} → (Failure → M A) → Result A × World → Result A × World
handle h (ok a, w) = (ok a, w)
handle h (err e, w) = h e w

abbrev pub try_catch : {A : Type 0} → M A → (Failure → M A) → M A
try_catch m h w = handle h (m w)
