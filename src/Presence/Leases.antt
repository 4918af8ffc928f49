-- ===== src/Presence/Leases.antt =====
-- src/modules/presence/presence.store.ts, `RedisPresenceStore`. Its scripts run atomically, so a method is
-- a step on what Redis holds; the commands themselves are parameters. That a key as a whole runs out
-- (PEXPIRE) happens after all its leases have, and is left out.
pub mod Online
pub mod Settling
use chat_app_backend.Prelude.{
  ℕ, ◌+◌, ◌≡◌, Bool, true, false, not, ◌&&◌, ◌||◌, Option, none, some, List, [], ◌∷◌, ◌==◌, leb,
  any, count, one_if, map, length, if◌then◌else◌,
}
use chat_app_backend.Documents.{PresenceSnapshot}

-- A sorted set holds members with their scores, here socket ids with the end of their lease.
abbrev pub Zset : Type 0
Zset = List (ℕ × ℕ)

pub record Commands : Type 0 where
  -- ZADD, and ZADD with XX, which only changes what is there
  pub zadd : ℕ → ℕ → Zset → Zset
  pub zadd_xx : ℕ → ℕ → Zset → Zset
  pub zrem : ℕ → Zset → Zset
  -- ZREMRANGEBYSCORE from -inf up to a score
  pub zremrangebyscore : ℕ → Zset → Zset
  -- SADD and SREM, with whether the set has changed
  pub sadd : ℕ → List ℕ → List ℕ × Bool
  pub srem : ℕ → List ℕ → List ℕ × Bool

abbrev pub has_member : ℕ → List ℕ → Bool
has_member m set = any (λ x. x == m) set

-- What Redis's manual promises. A sorted set is known by how many of its entries pass a test.
pub record IsCommands (redis : Commands) : Type 0 where
  pub count-zadd :
      (m score : ℕ) (set : Zset) (p : ℕ × ℕ → Bool)
      → count p (redis.zadd m score set)
        ≡ one_if (p (m, score)) + count (λ e. not (e.0 == m) && p e) set
  pub count-zadd_xx :
      (m score : ℕ) (set : Zset) (p : ℕ × ℕ → Bool)
      → count p (redis.zadd_xx m score set)
        ≡ count (λ e. p (if e.0 == m then (m, score) else e)) set
  pub count-zrem :
      (m : ℕ) (set : Zset) (p : ℕ × ℕ → Bool)
      → count p (redis.zrem m set) ≡ count (λ e. not (e.0 == m) && p e) set
  pub count-zremrangebyscore :
      (score : ℕ) (set : Zset) (p : ℕ × ℕ → Bool)
      → count p (redis.zremrangebyscore score set) ≡ count (λ e. not (leb e.1 score) && p e) set
  pub has_member-sadd :
      (m k : ℕ) (set : List ℕ) → has_member k (redis.sadd m set).0 ≡ (has_member k set || k == m)
  pub sadd-changed : (m : ℕ) (set : List ℕ) → (redis.sadd m set).1 ≡ not (has_member m set)
  pub has_member-srem :
      (m k : ℕ) (set : List ℕ)
      → has_member k (redis.srem m set).0 ≡ (has_member k set && not (k == m))
  pub srem-changed : (m : ℕ) (set : List ℕ) → (redis.srem m set).1 ≡ has_member m set

-- `presence:sockets:{userId}`, `presence:online` and `presence:last-seen`
pub record RedisState : Type 0 where
  pub sockets : ℕ → Zset
  pub online : List ℕ
  pub last_seen : ℕ → Option ℕ

abbrev pub socket_lease_ms : ℕ
socket_lease_ms = 90000

abbrev pub set_at : {V : Type 0} → ℕ → V → (ℕ → V) → ℕ → V
set_at key value entries k = if k == key then value else entries k

-- `ZCARD > 0` fails
abbrev pub is_nil : Zset → Bool
is_nil [] = true
is_nil (_ ∷ _) = false

module _ (redis : Commands) where
  -- ADD_SOCKET
  unfoldable pub lease_socket : ℕ → ℕ → ℕ → RedisState → RedisState × Bool
  lease_socket now user_id socket_id s =
      let r = redis.sadd user_id s.online in
      (
        record s {
          sockets =
              set_at user_id (redis.zadd socket_id (now + socket_lease_ms) (s.sockets user_id))
                s.sockets;
          online = r.0;
        },
        r.1,
      )

  unfoldable pub drop_socket : ℕ → ℕ → RedisState → RedisState
  drop_socket user_id socket_id s = record s {
    sockets = set_at user_id (redis.zrem socket_id (s.sockets user_id)) s.sockets;
  }

  -- SETTLE, once the leases that have run out are removed.
  unfoldable pub mark_offline : ℕ → ℕ → RedisState → RedisState × Bool
  mark_offline now user_id s =
      let r = redis.srem user_id s.online in
      (
        record s {
          online = r.0;
          last_seen = if r.1 then set_at user_id (some now) s.last_seen else s.last_seen;
        },
        r.1,
      )

  unfoldable pub settle_leases : ℕ → ℕ → RedisState → RedisState × Bool
  unfolding mark_offline
  settle_leases now user_id s =
      let left = redis.zremrangebyscore now (s.sockets user_id) in
      let t : RedisState = record s { sockets = set_at user_id left s.sockets } in
      if is_nil left then mark_offline now user_id t else (t, false)

  unfoldable pub renew : ℕ → List (ℕ × ℕ) → RedisState → RedisState
  renew now [] s = s
  renew now ((user_id, socket_id) ∷ entries) s = renew now entries (record s {
    sockets =
        set_at user_id (redis.zadd_xx socket_id (now + socket_lease_ms) (s.sockets user_id))
          s.sockets;
  })

  unfoldable pub snapshot_of : RedisState → ℕ → PresenceSnapshot
  snapshot_of s id =
      let online = has_member id s.online in
      record { online = online; last_seen = if online then none else s.last_seen id }

  unfoldable pub online_count : RedisState → ℕ
  online_count s = length s.online
