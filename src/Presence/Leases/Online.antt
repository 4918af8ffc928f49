-- ===== src/Presence/Leases/Online.antt =====
-- Who is shown online, and until when.
use chat_app_backend.Prelude.{
  ℕ, ◌+◌, ◌≤◌, ◌≡◌, refl, ap, sym, ◌∙◌, subst, Bool, true, false, not, ◌&&◌, or_true, List, [], ◌∷◌,
  ◌==◌, ==_refl, eq_of_==, leb, count, one_if, if◌then◌else◌, Bool-cases, inl, inr, arith,
}
use chat_app_backend.Presence.Leases.{
  Zset, Commands, IsCommands, has_member, RedisState, socket_lease_ms, set_at, lease_socket,
  drop_socket, is_nil, mark_offline, settle_leases, renew,
}

-- The lease outlasts the time `t`.
abbrev pub outlasts : ℕ → ℕ × ℕ → Bool
outlasts t e = not (leb e.1 t)

-- How many sockets of the user have a lease that outlasts `t`.
abbrev pub live : ℕ → RedisState → ℕ → ℕ
live t s u = count (outlasts t) (s.sockets u)

abbrev pub any_lease : ℕ × ℕ → Bool
any_lease e = true

-- How many of the user's sockets have a lease, even one that has run out and was not cleared away.
abbrev pub held : RedisState → ℕ → ℕ
held s u = count any_lease (s.sockets u)

pub data LeaseCall : Type 0 where
  adds removes : ℕ → ℕ → LeaseCall
  settles : ℕ → LeaseCall
  renews : List (ℕ × ℕ) → LeaseCall
  waits : ℕ → LeaseCall

abbrev pub lease_step : Commands → LeaseCall → ℕ × RedisState → ℕ × RedisState
lease_step redis (adds u k) (now, s) = (now, (lease_socket redis now u k s).0)
lease_step redis (removes u k) (now, s) = (now, drop_socket redis u k s)
lease_step redis (settles u) (now, s) = (now, (settle_leases redis now u s).0)
lease_step redis (renews entries) (now, s) = (now, renew redis now entries s)
lease_step redis (waits n) (now, s) = (now + n, s)

abbrev pub lease_steps : Commands → List LeaseCall → ℕ × RedisState → ℕ × RedisState
lease_steps redis [] c = c
lease_steps redis (call ∷ calls) c = lease_steps redis calls (lease_step redis call c)

-- At this time: who holds a lease is shown online, and no lease is longer than one may be.
pub record Shown (c : ℕ × RedisState) : Type 0 where
  pub online : (u : ℕ) → 1 ≤ held c.1 u → has_member u c.1.online ≡ true
  pub short : (u : ℕ) → live (c.0 + socket_lease_ms) c.1 u ≡ 0

pub count_mono :
    {A : Type 0} (p q : A → Bool)
    → ((a : A) → p a ≡ true → q a ≡ true)
    → (xs : List A) → count p xs ≤ count q xs
count_mono p q h [] = omega arith
count_mono p q h (x ∷ xs) = elim (Bool-cases (p x)) [
  | inl e ↦ rw (e, h x e) (omega (arith, count_mono p q h xs))
  | inr e ↦ rw e (omega (arith, count_mono p q h xs))
]

second_true : (a b : Bool) → (a && b) ≡ true → b ≡ true
second_true true b h = h
second_true false b h = cc

pub is_nil-count : (p : ℕ × ℕ → Bool) (z : Zset) → is_nil z ≡ true → count p z ≡ 0
is_nil-count p [] h = refl
is_nil-count p (e ∷ z) h = cc

pub nothing : (n : ℕ) → 1 ≤ n → n ≡ 0 → ⊥
nothing n l z = omega (arith, l, z)

module _ (u : ℕ) (s t : RedisState) (set : Zset) (e : t.sockets ≡ set_at u set s.sockets) where
  count_own : (p : ℕ × ℕ → Bool) (k : ℕ) → (k == u) ≡ true → count p (t.sockets k) ≡ count p set
  count_own p k f = ap (λ (g : ℕ → Zset). count p (g k)) e ∙ rw f refl

  count_other :
      (p : ℕ × ℕ → Bool) (k : ℕ) → (k == u) ≡ false → count p (t.sockets k) ≡ count p (s.sockets k)
  count_other p k f = ap (λ (g : ℕ → Zset). count p (g k)) e ∙ rw f refl

module _ (redis : Commands) (manual : IsCommands redis) where
  none_longer :
      (now : ℕ) (set : Zset) (p : ℕ × ℕ → Bool)
      → count (outlasts (now + socket_lease_ms)) set ≡ 0
      → count (λ e. p e && outlasts (now + socket_lease_ms) e) set ≡ 0
  none_longer now set p h = omega (
    arith,
    h,
    count_mono (λ e. p e && outlasts (now + socket_lease_ms) e) (outlasts (now + socket_lease_ms))
        (λ e. second_true (p e) (outlasts (now + socket_lease_ms) e)) set,
  )

  waits-Shown : (n : ℕ) (now : ℕ) (s : RedisState) → Shown (now, s) → Shown (now + n, s)
  waits-Shown n now s h = record {
    online = λ u l. h.online u l;
    short = λ u. omega (
      arith,
      h.short u,
      count_mono (outlasts (now + n + socket_lease_ms)) (outlasts (now + socket_lease_ms))
          (λ e k. ground (arith, k)) (s.sockets u),
    );
  }

  -- A user's sockets change, and who is online with it.
  change-Shown :
      (now u : ℕ) (s t : RedisState) (set : Zset)
      → Shown (now, s)
      → t.sockets ≡ set_at u set s.sockets
      → ((k : ℕ) → (k == u) ≡ false → has_member k s.online ≡ true → has_member k t.online ≡ true)
      → (1 ≤ count any_lease set → has_member u t.online ≡ true)
      → count (outlasts (now + socket_lease_ms)) set ≡ 0
      → Shown (now, t)
  change-Shown now u s t set h e keep own short = record {
    online = λ k. elim (Bool-cases (k == u)) [
      | inl f ↦ λ l.
          subst (λ x. has_member x t.online ≡ true) (sym (eq_of_== k u f))
            (own (omega (arith, l, count_own u s t set e any_lease k f)))
      | inr f ↦ λ l. keep k f (h.online k (omega (arith, l, count_other u s t set e any_lease k f)))
    ];
    short = λ k. elim (Bool-cases (k == u)) [
      | inl f ↦ count_own u s t set e (outlasts (now + socket_lease_ms)) k f ∙ short
      | inr f ↦ count_other u s t set e (outlasts (now + socket_lease_ms)) k f ∙ h.short k
    ];
  }

  adds-Shown :
      (u k now : ℕ) (s : RedisState)
      → Shown (now, s)
      → Shown (now, (lease_socket redis now u k s).0)
  unfolding lease_socket
  adds-Shown u k now s h =
      change-Shown now u s _ (redis.zadd k (now + socket_lease_ms) (s.sockets u)) h refl
        (λ x f m. rw (manual.has_member-sadd u x s.online, m) refl)
        (λ l. rw (manual.has_member-sadd u u s.online, ==_refl u) (or_true (has_member u s.online)))
        (omega (
          arith,
          manual.count-zadd k (now + socket_lease_ms) (s.sockets u)
              (outlasts (now + socket_lease_ms)),
          none_longer now (s.sockets u) (λ e. not (e.0 == k)) (h.short u),
          full now,
        ))
    where
      full : (n : ℕ) → one_if (not (leb (n + 90000) (n + 90000))) ≡ 0
      full n = ground arith

  removes-Shown :
      (u k now : ℕ) (s : RedisState) → Shown (now, s) → Shown (now, drop_socket redis u k s)
  unfolding drop_socket
  removes-Shown u k now s h =
      change-Shown now u s _ (redis.zrem k (s.sockets u)) h refl (λ x f m. m)
        (λ l. h.online u (
          omega (
            arith,
            l,
            manual.count-zrem k (s.sockets u) any_lease,
            count_mono (λ e. not (e.0 == k) && true) any_lease (λ e m. refl) (s.sockets u),
          )))
        (manual.count-zrem k (s.sockets u) (outlasts (now + socket_lease_ms))
          ∙ none_longer now (s.sockets u) (λ e. not (e.0 == k)) (h.short u))

  settles-Shown :
      (u now : ℕ) (s : RedisState) → Shown (now, s) → Shown (now, (settle_leases redis now u s).0)
  unfolding settle_leases
  settles-Shown u now s h = elim (Bool-cases (is_nil (redis.zremrangebyscore now (s.sockets u)))) [
    | inl e ↦ rw e (
        change-Shown now u s
          (mark_offline redis now u (record s { sockets = set_at u left s.sockets })).0 left h refl
          (λ x f m. rw (manual.has_member-srem u x s.online, m, f) refl)
          (λ l. elim (nothing (count any_lease left) l (is_nil-count any_lease left e)) [ ]) short)
    | inr e ↦ rw e (
        change-Shown now u s (record s { sockets = set_at u left s.sockets }) left h refl
          (λ x f m. m) kept_own short)
  ]
    where
      left : Zset
      left = redis.zremrangebyscore now (s.sockets u)

      short : count (outlasts (now + socket_lease_ms)) left ≡ 0
      short =
          manual.count-zremrangebyscore now (s.sockets u) (outlasts (now + socket_lease_ms))
          ∙ none_longer now (s.sockets u) (λ e. not (leb e.1 now)) (h.short u)

      kept_own : 1 ≤ count any_lease left → has_member u s.online ≡ true
      kept_own l = h.online u (
          omega (
            arith,
            l,
            manual.count-zremrangebyscore now (s.sockets u) any_lease,
            count_mono (λ e. not (leb e.1 now) && true) any_lease (λ e m. refl) (s.sockets u),
          ))

  renews-Shown :
      (entries : List (ℕ × ℕ)) (now : ℕ) (s : RedisState)
      → Shown (now, s)
      → Shown (now, renew redis now entries s)
  unfolding renew
  renews-Shown [] now s h = h
  renews-Shown ((u, k) ∷ entries) now s h = renews-Shown entries now _ (
      change-Shown now u s _ (redis.zadd_xx k (now + socket_lease_ms) (s.sockets u)) h refl
        (λ x f m. m) own short)
    where
      own :
          1 ≤ count any_lease (redis.zadd_xx k (now + socket_lease_ms) (s.sockets u))
          → has_member u s.online ≡ true
      own l =
          h.online u (
            omega
              (arith, l, manual.count-zadd_xx k (now + socket_lease_ms) (s.sockets u) any_lease))

      renewed_short :
          (n : ℕ) (e : ℕ × ℕ)
          → outlasts (n + 90000) (if e.0 == k then (k, n + 90000) else e) ≡ true
          → outlasts (n + 90000) e ≡ true
      renewed_short n e m = elim (Bool-cases (e.0 == k)) [
        | inl f ↦
            let g : outlasts (n + 90000) (k, n + 90000) ≡ true = rw f at m in ground (arith, g)
        | inr f ↦ rw f at m
      ]

      short :
          count
            (outlasts (now + socket_lease_ms))
            (redis.zadd_xx k (now + socket_lease_ms) (s.sockets u))
          ≡ 0
      short = omega (
        arith,
        manual.count-zadd_xx k (now + socket_lease_ms) (s.sockets u)
            (outlasts (now + socket_lease_ms)),
        count_mono
            (λ e.
              outlasts (now + socket_lease_ms) (if e.0 == k then (k, now + socket_lease_ms) else e))
            (outlasts (now + socket_lease_ms)) (renewed_short now) (s.sockets u),
        h.short u,
      )

  -- Take the Redis store where every user with a lease, live or not, is shown online, and no lease runs longer than 90 seconds from now.
  -- After any connects, disconnects, checks and heartbeats of any servers, with time passing between them, the same holds.
  pub lease_steps-Shown :
      (calls : List LeaseCall) (c : ℕ × RedisState) → Shown c → Shown (lease_steps redis calls c)
  lease_steps-Shown [] c h = h
  lease_steps-Shown (call ∷ calls) c h =
      lease_steps-Shown calls (lease_step redis call c) (one call c.0 c.1 h)
    where
      one :
          (call : LeaseCall) (now : ℕ) (s : RedisState)
          → Shown (now, s)
          → Shown (lease_step redis call (now, s))
      one (adds u k) now s h = adds-Shown u k now s h
      one (removes u k) now s h = removes-Shown u k now s h
      one (settles u) now s h = settles-Shown u now s h
      one (renews entries) now s h = renews-Shown entries now s h
      one (waits n) now s h = waits-Shown n now s h
