-- ===== src/Presence/Service.antt =====
-- src/modules/presence/presence.service.ts and presence.gateway.ts, over the interface of
-- presence.store.ts. A grace timer is kept by the user it is for; that it fires is a step of its own.
pub mod Reload
use chat_app_backend.Prelude.{
  ℕ, Bool, true, false, Option, none, some, List, [], ◌∷◌, map, if◌then◌else◌,
}
use chat_app_backend.Documents.{PresenceSnapshot}
use chat_app_backend.Server.{Db, M, pure, ◌>>=◌, ◌>>◌, access, sync, emit, try_catch, current_time}
use chat_app_backend.Realtime.Rooms
use chat_app_backend.Realtime.Sockets.{SocketState}
use chat_app_backend.Realtime.Events.{presence_update}
use chat_app_backend.Chat.Rooms.{with_one, without, change_socket}
use chat_app_backend.Presence.Leases.{
  Commands, RedisState, lease_socket, drop_socket, settle_leases, renew, snapshot_of, online_count,
}

-- A snapshot of several users has an entry for each, in their order.
pub record PresenceStore : Type 1 where
  pub add_socket : ℕ → ℕ → M Bool
  pub remove_socket : ℕ → ℕ → M (Unit {0})
  pub settle : ℕ → M Bool
  pub refresh : List (ℕ × ℕ) → M (Unit {0})
  pub sweep : M (List ℕ)
  pub snapshot : List ℕ → M (List PresenceSnapshot)
  pub count_online : M ℕ

-- The users in `users` that a check takes offline.
unfoldable pub settle_each : (ℕ → M Bool) → List ℕ → M (List ℕ)
settle_each settle [] = pure []
settle_each settle (user_id ∷ users) = do
  went_offline ← settle user_id
  rest ← settle_each settle users
  pure (if went_offline then user_id ∷ rest else rest)

-- `RedisPresenceStore`. `take_lock` is the sweep's SET NX, `scan` what SSCAN gives, page by page.
unfoldable pub redis_store : Commands → M Bool → M (List ℕ) → PresenceStore
redis_store redis take_lock scan = record {
  add_socket = λ user_id socket_id. access λ now db.
      let r = lease_socket redis now user_id socket_id db.leases in
      (record db { leases = r.0 }, r.1);
  remove_socket = λ user_id socket_id.
      access λ now db. (record db { leases = drop_socket redis user_id socket_id db.leases }, tt);
  settle = settle_one;
  refresh = λ entries. elim entries [
    | [] ↦ pure tt
    | e ∷ es ↦ access (λ now db. (record db { leases = renew redis now (e ∷ es) db.leases }, tt))
  ];
  sweep = do
    got_lock ← take_lock
    if got_lock then (scan >>= settle_each settle_one) else pure [];
  snapshot = λ users. elim users [
    | [] ↦ pure []
    | u ∷ us ↦ access (λ now db. (db, map (snapshot_of redis db.leases) (u ∷ us)))
  ];
  count_online = access λ now db. (db, online_count redis db.leases);
}
  where
    settle_one : ℕ → M Bool
    settle_one user_id = access λ now db.
        let r = settle_leases redis now user_id db.leases in (record db { leases = r.0 }, r.1)

-- A listener that throws is logged, and the next one runs.
unfoldable pub tell_listeners : List (ℕ → Bool → M (Unit {0})) → ℕ → Bool → M (Unit {0})
tell_listeners [] user_id online = pure tt
tell_listeners (listener ∷ listeners) user_id online =
    try_catch (listener user_id online) (λ error. pure tt)
    >> tell_listeners listeners user_id online

abbrev pub first_or : PresenceSnapshot → List PresenceSnapshot → PresenceSnapshot
first_or state [] = state
first_or state (s ∷ states) = s

module _ (store : PresenceStore) (listeners : List (ℕ → Bool → M (Unit {0}))) where
  unfoldable pub publish : ℕ → PresenceSnapshot → M (Unit {0})
  publish user_id state =
      emit (Rooms.presence user_id ∷ Rooms.staff ∷ []) (presence_update user_id state)
      >> tell_listeners listeners user_id state.online

  unfoldable pub stop_grace : ℕ → M (Unit {0})
  stop_grace user_id = sync λ db. (record db { grace_timers = without user_id db.grace_timers }, tt)

  unfoldable pub socket_connected : ℕ → ℕ → M (Unit {0})
  socket_connected user_id socket_id = do
    stop_grace user_id
    came_online ← store.add_socket user_id socket_id
    if came_online then publish user_id (record { online = true; last_seen = none }) else pure tt

  unfoldable pub socket_disconnected : ℕ → ℕ → M (Unit {0})
  socket_disconnected user_id socket_id = do
    store.remove_socket user_id socket_id
    sync λ db. (record db { grace_timers = with_one user_id db.grace_timers }, tt)

  unfoldable pub publish_settled : ℕ → Bool → M (Unit {0})
  publish_settled user_id false = pure tt
  publish_settled user_id true = do
    states ← store.snapshot (user_id ∷ [])
    now ← current_time
    publish user_id (first_or (record { online = false; last_seen = some now }) states)

  unfoldable pub settle_user : ℕ → M (Unit {0})
  settle_user user_id =
      try_catch (store.settle user_id >>= publish_settled user_id) (λ error. pure tt)

  -- What the timer of five seconds does.
  unfoldable pub grace_over : ℕ → M (Unit {0})
  grace_over user_id = stop_grace user_id >> settle_user user_id

  unfoldable pub settle_users : List ℕ → M (Unit {0})
  settle_users [] = pure tt
  settle_users (user_id ∷ users) = settle_user user_id >> settle_users users

  unfoldable pub stop : M (Unit {0})
  stop = do
    pending ← sync λ db. (record db { grace_timers = [] }, db.grace_timers)
    settle_users pending

  -- `local_sockets` are those of this server, each with its user.
  unfoldable pub heartbeat : (Db → List (ℕ × ℕ)) → M (Unit {0})
  heartbeat local_sockets =
      try_catch (sync (λ db. (db, local_sockets db)) >>= store.refresh) (λ error. pure tt)

  unfoldable pub publish_offline : List ℕ → M (Unit {0})
  publish_offline [] = pure tt
  publish_offline (user_id ∷ users) = do
    states ← store.snapshot (user_id ∷ [])
    publish user_id (first_or (record { online = false; last_seen = none }) states)
    publish_offline users

  unfoldable pub sweep_users : M (Unit {0})
  sweep_users = try_catch (store.sweep >>= publish_offline) (λ error. pure tt)

  -- The handler of 'presence:subscribe'.
  unfoldable pub watch : ℕ → List ℕ → M (List PresenceSnapshot)
  watch socket_id users = do
    access λ now db. (change_socket socket_id (λ s. record s { watching = [] }) db, tt)
    access λ now db. (change_socket socket_id (λ s. record s { watching = users }) db, tt)
    store.snapshot users
