-- ===== src/Chat/Cache.antt =====
-- src/modules/chat/services/message-cache.service.ts: the cache of the first page of a history.
use chat_app_backend.Prelude.{ℕ, Bool, Option, none, some, if◌then◌else◌}
use chat_app_backend.Redis.{Redis}
use chat_app_backend.Server.{M, pure, ◌>>=◌, access, try_catch, current_time}
use chat_app_backend.Chat.Pages.{HistoryPage, PageKey, same_page}

-- What `getFirstPage` returns: a page, or how to fill the cache after a miss.
pub data Lookup : Type 0 where
  hit : HistoryPage → Lookup
  miss : (HistoryPage → M (Unit {0})) → Lookup

abbrev pub noop : HistoryPage → M (Unit {0})
noop page = pure tt

-- `ready` says at which times the process is connected to Redis.
module _ (redis : Redis) (ready : ℕ → Bool) where
  -- `isReady()`
  unfoldable pub is_ready : M Bool
  is_ready = do now ← current_time; pure (ready now)

  unfoldable pub set_page : PageKey → HistoryPage → M (Unit {0})
  set_page key page = access λ now db.
      (record db { pages = redis.set PageKey HistoryPage same_page key page db.pages }, tt)

  -- The `store` of a miss.
  unfoldable pub store : PageKey → HistoryPage → M (Unit {0})
  store key page = try_catch (set_page key page) (λ error. pure tt)

  unfoldable pub found : PageKey → Option HistoryPage → Lookup
  found key none = miss (store key)
  found key (some page) = hit page

  unfoldable pub look_up : ℕ → ℕ → M Lookup
  look_up conversation_id limit = do
    version ← access λ now db. (db, db.versions conversation_id)
    let key : PageKey = record {
      conversation_id = conversation_id;
      version = version;
      limit = limit;
    }
    cached ← access λ now db. (db, db.pages key)
    pure (found key cached)

  unfoldable pub get_first_page : ℕ → ℕ → M Lookup
  get_first_page conversation_id limit = do
    up ← is_ready
    if up
        then try_catch (look_up conversation_id limit) (λ error. pure (miss noop))
        else pure (miss noop)

  unfoldable pub bump : ℕ → M (Unit {0})
  bump conversation_id =
      access λ now db. (record db { versions = redis.incr conversation_id db.versions }, tt)

  unfoldable pub invalidate : ℕ → M (Unit {0})
  invalidate conversation_id = do
    up ← is_ready
    if up then try_catch (bump conversation_id) (λ error. pure tt) else pure tt
