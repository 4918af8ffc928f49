-- ===== src/Presence/Service/Reload.antt =====
-- A page reload is not seen by anybody.
use chat_app_backend.Prelude.{
  ℕ, ◌≡◌, refl, ◌∙◌, Bool, true, false, ◌&&◌, List, ==_refl, any-filterb,
}
use chat_app_backend.Server.{Db, M, quiet, access, sync}
use chat_app_backend.Chat.Rooms.{has, without, with_one}
use chat_app_backend.Presence.Leases.{Commands, IsCommands, has_member, lease_socket, drop_socket}
use chat_app_backend.Presence.Service.{
  redis_store, socket_connected, socket_disconnected, stop_grace,
}

and_false : (a : Bool) → (a && false) ≡ false
and_false true = refl
and_false false = refl

has-without_self : (u : ℕ) (set : List ℕ) → has u (without u set) ≡ false
has-without_self u set = any-filterb u u set ∙ rw (==_refl u) (and_false (has u set))

module _ (redis : Commands) (manual : IsCommands redis) (take_lock : M Bool) (scan : M (List ℕ))
    (listeners : List (ℕ → Bool → M (Unit {0}))) where
  abbrev pub after_leaving : ℕ → ℕ → ℕ → Db → Db
  after_leaving u old left_at db =
      (socket_disconnected (redis_store redis take_lock scan) listeners u old
        (quiet db left_at)).1.db

  -- A user who is shown online leaves with one socket and comes back with another before the grace timer fires, with nothing else in between and the Redis
  -- store. Then nothing is sent and no listener is told, the user is shown online in between, and no timer of the user is left.
  pub socket_connected-reload :
      (u old new left_at back_at : ℕ) (db : Db)
      → has_member u db.leases.online ≡ true
      → ((socket_disconnected
            (redis_store redis take_lock scan)
            listeners
            u
            old
            (quiet db left_at)).1
          ≡ quiet (after_leaving u old left_at db) left_at)
        × ((has_member u (after_leaving u old left_at db).leases.online ≡ true)
            × (((socket_connected
                    (redis_store redis take_lock scan)
                    listeners
                    u
                    new
                    (quiet (after_leaving u old left_at db) back_at)).1
                  ≡ quiet
                      (socket_connected
                        (redis_store redis take_lock scan)
                        listeners
                        u
                        new
                        (quiet (after_leaving u old left_at db) back_at)).1.db
                      back_at)
                × (has u
                      (socket_connected
                        (redis_store redis take_lock scan)
                        listeners
                        u
                        new
                        (quiet (after_leaving u old left_at db) back_at)).1.db.grace_timers
                    ≡ false)))
  unfolding socket_connected socket_disconnected redis_store stop_grace lease_socket drop_socket
      access sync
  socket_connected-reload u old new left_at back_at db h =
      rw (manual.sadd-changed u db.leases.online, h)
        (refl, (refl, (refl, has-without_self u (with_one u db.grace_timers))))
