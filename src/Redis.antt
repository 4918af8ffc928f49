-- ===== src/Redis.antt =====
-- Redis is not part of the repository: its commands are the fields of `Redis`, and `IsRedis` says what
-- its manual promises of them. That a key runs out by its time to live is a change by others.
use chat_app_backend.Prelude.{
  ℕ, ◌+◌, ◌≡◌, refl, Bool, true, false, Option, some, List, map, leb, ◌==◌, if◌then◌else◌,
}

pub record Redis : Type 1 where
  -- INCR, on the counters by their key; a missing key counts as 0
  pub incr : ℕ → (ℕ → ℕ) → ℕ → ℕ
  -- INCR and MGET, on one family of keys
  pub incr_in : (K : Type 0) → (K → K → Bool) → K → (K → ℕ) → K → ℕ
  pub mget : (K : Type 0) → List K → (K → ℕ) → List ℕ
  -- SET with PX and NX at the time `now`: until when the key is held, and whether it was set
  pub set_nx : ℕ → ℕ → ℕ → ℕ × Bool
  -- SET, on the values of one family of keys
  pub set : (K V : Type 0) → (K → K → Bool) → K → V → (K → Option V) → K → Option V

pub record IsRedis (redis : Redis) : Type 1 where
  pub incr_lem :
      (key : ℕ) (counters : ℕ → ℕ) (k : ℕ)
      → redis.incr key counters k ≡ (if k == key then counters k + 1 else counters k)
  pub incr_in_lem :
      (K : Type 0) (same : K → K → Bool) (key : K) (counters : K → ℕ) (k : K)
      → redis.incr_in K same key counters k ≡ (if same k key then counters k + 1 else counters k)
  pub mget_lem :
      (K : Type 0) (keys : List K) (counters : K → ℕ)
      → redis.mget K keys counters ≡ map counters keys
  pub set_nx_lem :
      (now px held : ℕ)
      → redis.set_nx now px held ≡ (if leb held now then (now + px, true) else (held, false))
  pub set_lem :
      (K V : Type 0) (same : K → K → Bool) (key : K) (v : V) (values : K → Option V) (k : K)
      → redis.set K V same key v values k ≡ (if same k key then some v else values k)

-- The commands themselves, which show that this can be met.
abbrev pub local : Redis
local = record {
  incr = λ key counters k. if k == key then counters k + 1 else counters k;
  incr_in = λ K same key counters k. if same k key then counters k + 1 else counters k;
  mget = λ K keys counters. map counters keys;
  set_nx = λ now px held. if leb held now then (now + px, true) else (held, false);
  set = λ K V same key v values k. if same k key then some v else values k;
}

pub local-IsRedis : IsRedis local
local-IsRedis = record {
  incr_lem = λ key counters k. refl;
  incr_in_lem = λ K same key counters k. refl;
  mget_lem = λ K keys counters. refl;
  set_nx_lem = λ now px held. refl;
  set_lem = λ K V same key v values k. refl;
}
