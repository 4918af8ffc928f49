-- ===== src/Presence/Memory.antt =====
-- src/modules/presence/presence.store.ts, `MemoryPresenceStore`. A `Map` is a function, a `Set` the list of
-- its elements in the order of insertion. `countOnline` is left out.
pub mod Sockets
use chat_app_backend.Prelude.{
  ℕ, Bool, true, false, not, Option, none, some, List, [], ◌∷◌, ◌++◌, ◌==◌, any, filterb,
  if◌then◌else◌,
}
use chat_app_backend.Documents.{PresenceSnapshot}

pub record MemoryStore : Type 0 where
  pub sockets : ℕ → Option (List ℕ)
  pub last_seen : ℕ → Option ℕ

-- `new Map()`, twice
abbrev pub fresh_store : MemoryStore
fresh_store = record { sockets = λ id. none; last_seen = λ id. none }

-- `map.set(key, value)`, or `map.delete(key)` where the value is `none`
abbrev pub put : {V : Type 0} → ℕ → Option V → (ℕ → Option V) → ℕ → Option V
put key value entries k = if k == key then value else entries k

-- `?? new Set()`
abbrev pub or_empty : Option (List ℕ) → List ℕ
or_empty none = []
or_empty (some set) = set

-- `set.add(socketId)`
abbrev pub add_to : ℕ → List ℕ → List ℕ
add_to socket_id set = if any (λ s. s == socket_id) set then set else set ++ socket_id ∷ []

abbrev pub is_empty : List ℕ → Bool
is_empty [] = true
is_empty (_ ∷ _) = false

-- The second component says that the user came online.
unfoldable pub add_socket : ℕ → ℕ → MemoryStore → MemoryStore × Bool
add_socket user_id socket_id store =
    let set = or_empty (store.sockets user_id) in
    (
      record store { sockets = put user_id (some (add_to socket_id set)) store.sockets },
      is_empty set,
    )

abbrev pub removed_from : ℕ → Option (List ℕ) → Option (List ℕ)
removed_from socket_id none = none
removed_from socket_id (some set) = some (filterb (λ s. not (s == socket_id)) set)

unfoldable pub remove_socket : ℕ → ℕ → MemoryStore → MemoryStore
remove_socket user_id socket_id store = record store {
  sockets = put user_id (removed_from socket_id (store.sockets user_id)) store.sockets;
}

unfoldable pub settled : ℕ → ℕ → MemoryStore → Option (List ℕ) → MemoryStore × Bool
settled now user_id store none = (store, false)
settled now user_id store (some (s ∷ set)) = (store, false)
settled now user_id store (some []) = (
  record {
    sockets = put user_id none store.sockets;
    last_seen = put user_id (some now) store.last_seen;
  },
  true,
)

unfoldable pub settle : ℕ → ℕ → MemoryStore → MemoryStore × Bool
settle now user_id store = settled now user_id store (store.sockets user_id)

unfoldable pub snapshot : MemoryStore → ℕ → PresenceSnapshot
snapshot store id =
    let online = not (is_empty (or_empty (store.sockets id))) in
    record { online = online; last_seen = if online then none else store.last_seen id }
