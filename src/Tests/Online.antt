-- ===== src/Tests/Online.antt =====
-- A page reload: the old socket goes, the new one comes, then the check after the grace period runs.
use chat_app_backend.Prelude.{
  ℕ, ◌+◌, ◌≡◌, refl, ap, sym, ◌∙◌, Bool, true, false, not, ◌||◌, ◌&&◌, or_true, or_false, List, [],
  ◌∷◌, ◌==◌, ==_comm, eq_of_==, leb, ltb, filterb, map, one_if, if◌then◌else◌, Bool-cases, inl, inr,
  count-filterb, count-map, any-filterb, arith, none,
}
use chat_app_backend.Presence.Leases.{Commands, IsCommands, has_member, settle_leases, snapshot_of}
use chat_app_backend.Presence.Leases.Online.{
  LeaseCall, waits, renews, lease_steps, live, Shown, nothing, lease_steps-Shown,
}
use chat_app_backend.Server.{Db, pure, quiet}
use chat_app_backend.Chat.Rooms.{has}
use chat_app_backend.Presence.Service.{
  PresenceStore, redis_store, socket_connected, socket_disconnected,
}
use chat_app_backend.Presence.Service.Reload.{after_leaving, socket_connected-reload}
use chat_app_backend.Tests.Samples.{office}
use chat_app_backend.Presence.Leases.Settling.{fresh, settle_leases-exact, settle_leases-crashed}
use chat_app_backend.Presence.Memory.{fresh_store, snapshot, add_socket, remove_socket}
use chat_app_backend.Presence.Memory.Sockets.{
  StoreCall, adds, removes, settles, perform_all, connect_all, holds, holds-connect_all,
}

abbrev reload : List StoreCall
reload = adds 7 1 ∷ removes 7 1 ∷ adds 7 2 ∷ settles 50 7 ∷ []

holds-connect_all_example :
    (holds (perform_all reload fresh_store) 7 2 ≡ connect_all reload (λ x y. false) 7 2)
    × (connect_all reload (λ x y. false) 7 2 ≡ true
        → (snapshot (perform_all reload fresh_store) 7).online ≡ true)
holds-connect_all_example = holds-connect_all reload 7 2

-- Within the grace period the user is already shown offline, and the new socket counts as coming online.
flicker :
    ((snapshot (perform_all (adds 7 1 ∷ removes 7 1 ∷ []) fresh_store) 7).online ≡ false)
    × ((add_socket 7 2 (perform_all (adds 7 1 ∷ removes 7 1 ∷ []) fresh_store)).1 ≡ true)
unfolding snapshot add_socket remove_socket
flicker = (refl, refl)

-- Redis's commands on lists.
abbrev on_lists : Commands
on_lists = record {
  zadd = λ m score set. (m, score) ∷ filterb (λ e. not (e.0 == m)) set;
  zadd_xx = λ m score set. map (λ e. if e.0 == m then (m, score) else e) set;
  zrem = λ m set. filterb (λ e. not (e.0 == m)) set;
  zremrangebyscore = λ score set. filterb (λ e. not (leb e.1 score)) set;
  sadd = λ m set. (if has_member m set then set else m ∷ set, not (has_member m set));
  srem = λ m set. (filterb (λ x. not (x == m)) set, has_member m set);
}

has_member-added :
    (m k : ℕ) (set : List ℕ)
    → has_member k (if has_member m set then set else m ∷ set) ≡ (has_member k set || k == m)
has_member-added m k set = elim (Bool-cases (has_member m set)) [
  | inl e ↦ elim (Bool-cases (k == m)) [
    | inl f ↦
        rw (e, f)
          (ap (λ x. has_member x set) (eq_of_== k m f) ∙ e ∙ sym (or_true (has_member k set)))
    | inr f ↦ rw (e, f) (sym (or_false (has_member k set)))
  ]
  | inr e ↦ rw (e, ==_comm m k) (swapped (k == m) (has_member k set))
]
  where
    swapped : (a b : Bool) → (a || b) ≡ (b || a)
    swapped true b = sym (or_true b)
    swapped false b = sym (or_false b)

on_lists-IsCommands : IsCommands on_lists
on_lists-IsCommands = record {
  count-zadd = λ m score set p.
      ap (λ n. one_if (p (m, score)) + n) (count-filterb (λ e. not (e.0 == m)) p set);
  count-zadd_xx = λ m score set p. count-map p (λ e. if e.0 == m then (m, score) else e) set;
  count-zrem = λ m set p. count-filterb (λ e. not (e.0 == m)) p set;
  count-zremrangebyscore = λ score set p. count-filterb (λ e. not (leb e.1 score)) p set;
  has_member-sadd = λ m k set. has_member-added m k set;
  sadd-changed = λ m set. refl;
  has_member-srem = λ m k set. any-filterb k m set;
  srem-changed = λ m set. refl;
}

-- Two tabs of user 7, of which one goes.
abbrev tabs : List LeaseCall
tabs =
    LeaseCall.adds 7 1
    ∷ LeaseCall.adds 7 2
    ∷ waits 30000
    ∷ renews ((7, 2) ∷ [])
    ∷ LeaseCall.removes 7 1
    ∷ []

settle_leases-crashed_example :
    (snapshot_of on_lists
      (settle_leases on_lists
        ((lease_steps on_lists tabs (1000, fresh)).0 + 100000)
        7
        (lease_steps on_lists tabs (1000, fresh)).1).0
      7).online
    ≡ false
settle_leases-crashed_example =
    settle_leases-crashed on_lists on_lists-IsCommands tabs 1000 100000 7 (omega arith)

fresh-is_Shown : Shown (1000, fresh)
fresh-is_Shown = record { online = λ u l. elim (nothing 0 l refl) [ ]; short = λ u. refl }

lease_steps-Shown_example : Shown (lease_steps on_lists tabs (1000, fresh))
lease_steps-Shown_example =
    lease_steps-Shown on_lists on_lists-IsCommands tabs (1000, fresh) fresh-is_Shown

settle_leases-exact_example :
    ((snapshot_of on_lists
        (settle_leases on_lists 31000 7 (lease_steps on_lists tabs (1000, fresh)).1).0
        7).online
      ≡ ltb 0 (live 31000 (lease_steps on_lists tabs (1000, fresh)).1 7))
    × ((settle_leases on_lists 31000 7 (lease_steps on_lists tabs (1000, fresh)).1).1 ≡ (
        (snapshot_of on_lists (lease_steps on_lists tabs (1000, fresh)).1 7).online
        && not (ltb 0 (live 31000 (lease_steps on_lists tabs (1000, fresh)).1 7))))
settle_leases-exact_example =
    settle_leases-exact on_lists on_lists-IsCommands 31000 7
      (lease_steps on_lists tabs (1000, fresh)).1
      (lease_steps-Shown on_lists on_lists-IsCommands tabs (1000, fresh) fresh-is_Shown)

-- User 7 is online with the socket 1.
abbrev present : Db
present = record office {
  leases = record { sockets = λ u. (1, 90000) ∷ []; online = 7 ∷ []; last_seen = λ u. none };
}

abbrev on_redis : PresenceStore
on_redis = redis_store on_lists (pure true) (pure [])

socket_connected-reload_example :
    ((socket_disconnected on_redis [] 7 1 (quiet present 1000)).1
      ≡ quiet
          (after_leaving on_lists on_lists-IsCommands (pure true) (pure []) [] 7 1 1000 present)
          1000)
    × ((has_member 7
            (after_leaving on_lists on_lists-IsCommands
              (pure true)
              (pure [])
              []
              7
              1
              1000
              present).leases.online
          ≡ true)
        × (((socket_connected on_redis [] 7 2 (
                quiet
                  (after_leaving on_lists on_lists-IsCommands
                    (pure true)
                    (pure [])
                    []
                    7
                    1
                    1000
                    present)
                  2000)).1
              ≡ quiet
                  (socket_connected on_redis [] 7 2 (
                    quiet
                      (after_leaving on_lists on_lists-IsCommands
                        (pure true)
                        (pure [])
                        []
                        7
                        1
                        1000
                        present)
                      2000)).1.db
                  2000)
            × (has 7
                  (socket_connected on_redis [] 7 2 (
                    quiet
                      (after_leaving on_lists on_lists-IsCommands
                        (pure true)
                        (pure [])
                        []
                        7
                        1
                        1000
                        present)
                      2000)).1.db.grace_timers
                ≡ false)))
socket_connected-reload_example =
    socket_connected-reload on_lists on_lists-IsCommands (pure true) (pure []) [] 7 1 2 1000 2000
      present refl
