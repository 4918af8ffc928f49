-- ===== src/Throttle/Window.antt =====
-- How many requests are let through.
use chat_app_backend.Prelude.{
  ℕ, zero, suc, ◌+◌, ◌-◌, ◌≡◌, refl, ◌∙◌, Bool, true, false, ltb, one_if, min, ==_refl, Bool-cases,
  inl, inr, Option-cases, if◌then◌else◌, arith,
}
use chat_app_backend.Errors.{Result, ok, err}
use chat_app_backend.Redis.{Redis, IsRedis}
use chat_app_backend.Server.{Db, World, quiet, access, current_time}
use chat_app_backend.Chat.Cache.{is_ready}
use chat_app_backend.Throttle.{hit, expire, refuse_over, count_request, let_pass, rate_limit}

abbrev pub is_ok : {A : Type 0} → Result A → Bool
is_ok (ok a) = true
is_ok (err e) = false

module _ (redis : Redis) (manual : IsRedis redis) (max window_seconds now : ℕ) where
  abbrev run : ℕ → Db → Result (Unit {0}) × World
  run key db = rate_limit redis (λ t. true) max window_seconds key (quiet db now)

  -- How many of `n` requests that come one after another are let through.
  abbrev pub passed : ℕ → ℕ → Db → ℕ
  passed key zero db = 0
  passed key (suc n) db = one_if (is_ok (run key db).0) + passed key n (run key db).1.db

  counted : (key : ℕ) (db : Db) → redis.incr key db.hits key ≡ db.hits key + 1
  counted key db = manual.incr_lem key db.hits key ∙ rw (==_refl key) refl

  run-one :
      (key : ℕ) (db : Db)
      → (is_ok (run key db).0 ≡ (if ltb max (db.hits key + 1) then false else true))
        × ((run key db).1.db.hits key ≡ db.hits key + 1)
  unfolding rate_limit is_ready current_time count_request hit expire refuse_over access let_pass
  run-one key db = elim (Option-cases (db.hits_until key)) [
    | inl e ↦ elim (Bool-cases (ltb max (db.hits key + 1))) [
      | inl f ↦ rw (e, counted key db, f) (refl, counted key db)
      | inr f ↦ rw (e, counted key db, f) (refl, counted key db)
    ]
    | inr (u, e) ↦ elim (Bool-cases (ltb max (db.hits key + 1))) [
      | inl f ↦ rw (e, counted key db, f) (refl, counted key db)
      | inr f ↦ rw (e, counted key db, f) (refl, counted key db)
    ]
  ]

  -- With Redis connected, of `n` requests of one key that come one after another before its window ends, with nobody in between, as many are
  -- let through as the limit has left: those up to the limit, less the ones counted already.
  pub passed-limit : (key n : ℕ) (db : Db) → passed key n db ≡ min n (max - db.hits key)
  passed-limit key zero db = omega arith
  passed-limit key (suc n) db = omega (
    arith,
    passed-limit key n (run key db).1.db,
    (run-one key db).1,
    let_through (db.hits key) (is_ok (run key db).0) (run-one key db).0,
  )
    where
      let_through :
          (h : ℕ) (b : Bool)
          → b ≡ (if ltb max (h + 1) then false else true)
          → one_if b ≡ min 1 (max - h)
      let_through h b e = elim (Bool-cases (ltb max (h + 1))) [
        | inl f ↦ rw (e, f) (ground (arith, f))
        | inr f ↦ rw (e, f) (ground (arith, f))
      ]
