-- ===== src/Metrics/Counters/Stores.antt =====
-- What the service asks of its counters, and that both stores give it.
use chat_app_backend.Prelude.{ℕ, ◌≡◌, refl, ap, List, [], ◌∷◌, map}
use chat_app_backend.Errors.{ok}
use chat_app_backend.Redis.{Redis, IsRedis}
use chat_app_backend.Server.{Db, quiet, access, sync}
use chat_app_backend.Metrics.Figures.{CounterKey}
use chat_app_backend.Metrics.Counters.{
  CounterStore, same_key, bumped, redis_counters, memory_counters,
}

-- A counter store that nothing interrupts counts, and answers with the counts in the order of the keys.
pub record IsCounterStore (store : CounterStore) : Type 1 where
  pub incr_lem :
      (key : CounterKey) (db : Db) (now : ℕ)
      → store.incr key (quiet db now)
        ≡ (ok tt, quiet (record db { counters = bumped key db.counters }) now)
  pub get_many_lem :
      (keys : List CounterKey) (db : Db) (now : ℕ)
      → store.get_many keys (quiet db now) ≡ (ok (map db.counters keys), quiet db now)

-- The counters in memory and those in Redis both count, one for each increment of the same key, and answer
-- with the counts in the order of the keys.
pub stores-IsCounterStore :
    (redis : Redis)
    → IsRedis redis
    → IsCounterStore (redis_counters redis) × IsCounterStore memory_counters
unfolding redis_counters memory_counters access sync
stores-IsCounterStore redis manual = (
  record {
    incr_lem = λ key db now.
        ap (λ (f : CounterKey → ℕ). (ok tt, quiet (record db { counters = f }) now))
          (λ i k. manual.incr_in_lem CounterKey same_key key db.counters k i);
    get_many_lem = many;
  },
  record { incr_lem = λ key db now. refl; get_many_lem = λ keys db now. refl },
)
  where
    many :
        (keys : List CounterKey) (db : Db) (now : ℕ)
        → (redis_counters redis).get_many keys (quiet db now)
          ≡ (ok (map db.counters keys), quiet db now)
    many [] db now = refl
    many (key ∷ keys) db now =
        ap (λ v. (ok v, quiet db now)) (manual.mget_lem CounterKey (key ∷ keys) db.counters)
