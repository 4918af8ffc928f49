-- ===== src/Throttle.antt =====
-- src/common/middleware/rate-limit.ts: the limit on the requests of one client. The key is that of the
-- limiter's name and the client; the headers of the response are left out.
pub mod Window
use chat_app_backend.Prelude.{
  ℕ, ◌+◌, ◌*◌, Bool, true, false, Option, none, some, ltb, is_none, ◌==◌, if◌then◌else◌,
}
use chat_app_backend.Errors.{Failure, http}
use chat_app_backend.Redis.{Redis}
use chat_app_backend.Server.{Db, M, pure, throw, ◌>>=◌, ◌>>◌, access, try_catch}
use chat_app_backend.Chat.Cache.{is_ready}

abbrev pub too_many_requests : Failure
too_many_requests = http (record {
  status_code = 429;
  code = "TOO_MANY_REQUESTS";
  message = "Too many requests, please try again later";
})

-- What INCR and TTL give, in one transaction: the count, and when the key runs out, if it does.
pub record Hit : Type 0 where
  pub count : ℕ
  pub until : Option ℕ

module _ (redis : Redis) (ready : ℕ → Bool) (max window_seconds : ℕ) where
  unfoldable pub hit : ℕ → M Hit
  hit key = access λ now db.
      let hits = redis.incr key db.hits in
      (record db { hits = hits }, record { count = hits key; until = db.hits_until key })

  unfoldable pub expire : ℕ → M (Unit {0})
  expire key = access λ now db. (
    record db {
      hits_until = λ k. if k == key then some (now + window_seconds * 1000) else db.hits_until k;
    },
    tt,
  )

  unfoldable pub refuse_over : ℕ → M (Unit {0})
  refuse_over count = if ltb max count then throw too_many_requests else pure tt

  -- The body of the `try`.
  unfoldable pub count_request : ℕ → M (Unit {0})
  unfolding hit expire refuse_over
  count_request key = do
    h ← hit key
    if is_none h.until then expire key else pure tt
    refuse_over h.count

  -- The `catch`: only an HttpError stops the request.
  unfoldable pub let_pass : Failure → M (Unit {0})
  let_pass (http e) = throw (http e)
  let_pass error = pure tt

  unfoldable pub rate_limit : ℕ → M (Unit {0})
  rate_limit key = do
    up ← is_ready redis ready
    if up then try_catch (count_request key) let_pass else pure tt
